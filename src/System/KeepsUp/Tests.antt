-- ===== src/System/KeepsUp/Tests.antt =====
-- A file is opened, two samples are pushed into a ring of two, and then the file is read.
use lkm_char_dev.Base.{◌-◌, ◌≡◌, refl, arith, [], ◌∷◌, take, drop}
use lkm_char_dev.Examples.{empty_ring-Represents, sample}
use lkm_char_dev.Ring.{ring_push, ring_consume, ring_data_available}
use lkm_char_dev.System.{
  System, Reach, loaded, next, push, wake, open_file, call_read, find_data, consume,
}
use lkm_char_dev.System.KeepsUp.{keeping_up_misses_nothing}

abbrev pushes : (s : System) × Reach s
unfolding ring_push
pushes = (
  _,
  next
      (next
        (next
          (next (next (loaded empty_ring-Represents) (open_file 0 refl))
            (push (sample 1) refl refl))
          (wake refl))
        (push (sample 2) refl refl))
      (wake refl),
)

abbrev run : (s : System) × Reach s
unfolding ring_push ring_data_available ring_consume
run = (
  _,
  next
      (next (next pushes.1 (call_read 0 16 refl (omega arith) (omega arith)))
        (find_data 0 refl refl))
      (consume 0 refl refl),
)

nothing_missed_at_end :
    (((run.0.readers 0).missed ≡ 0) × ((run.0.readers 0).unreported ≡ 0))
    × (sample 1 ∷ sample 2 ∷ [] ≡ take (2 - 0) (drop 0 (sample 1 ∷ sample 2 ∷ [])))
unfolding ring_push ring_data_available ring_consume
nothing_missed_at_end =
    keeping_up_misses_nothing run.1 (omega arith) 0 ((λ ne. tt), λ e. omega arith)
