-- ===== src/System/Dropped/Tests.antt =====
-- A file is opened, three samples are pushed into a ring of two, and then the file is read.
use lkm_char_dev.Base.{◌+◌, ◌≡◌, refl, arith, u64}
use lkm_char_dev.Examples.{empty_ring-Represents, sample}
use lkm_char_dev.Ring.{ring_push, ring_consume, ring_data_available, ring_dropped}
use lkm_char_dev.System.{
  System, Reach, loaded, next, push, wake, open_file, call_read, find_data, consume,
}
use lkm_char_dev.System.Dropped.{dropped_counts}

abbrev pushes : (s : System) × Reach s
unfolding ring_push
pushes = (
  _,
  next
      (next
        (next
          (next
            (next (next (loaded empty_ring-Represents) (open_file 0 refl))
              (push (sample 1) refl refl))
            (wake refl))
          (push (sample 2) refl refl))
        (wake refl))
      (push (sample 3) refl refl),
)

abbrev run : (s : System) × Reach s
unfolding ring_push ring_data_available ring_consume
run = (
  _,
  next
      (next (next pushes.1 (call_read 0 16 refl (omega arith) (omega arith)))
        (find_data 0 refl refl))
      (consume 0 refl refl),
)

dropped_counts_example : ring_dropped run.0.ring ≡ u64 (0 + 1)
unfolding ring_push ring_data_available ring_consume
dropped_counts_example = dropped_counts run.1 (omega arith)
