-- ===== src/System/Dropped.antt =====
-- The ring's `dropped` counter, beside what the files have missed.
mod Tests
use lkm_char_dev.Base.{
  ℕ, ◌+◌, ◌%◌, ◌^◌, ◌<◌, ◌≡◌, ◌∙◌, ap, sym, refl, arith, length, u64, some, some_inj,
}
use lkm_char_dev.Uapi.{GpuSample}
use lkm_char_dev.Log.{lost}
use lkm_char_dev.Ring.{RingBuf, store, ring_push, ring_consume, ring_dropped}
use lkm_char_dev.Ring.Consume.{ring_consume_refines}
use lkm_char_dev.System.{
  System, Step, push, wake, open_file, close_file, call_read, find_data, go_to_sleep, would_block,
  no_memory, signal, call_poll, poll_finds, poll_sleeps, poll_gives_up, consume, consume_fault,
  Reach, loaded, next,
}
use lkm_char_dev.System.Invariant.{Inv, Reach-Inv, log-grows, place_at}

-- How many samples a file misses in a step for having fallen behind.
abbrev pub missed_in : {s t : System} → Step s t → ℕ
missed_in (push x at done) = 0
missed_in (wake at) = 0
missed_in (open_file i at) = 0
missed_in (close_file i at) = 0
missed_in (call_read i most at some_room small) = 0
missed_in (find_data i at there) = 0
missed_in (go_to_sleep i at none_there) = 0
missed_in (would_block i at none_there) = 0
missed_in (no_memory i at) = 0
missed_in (signal i at) = 0
missed_in (call_poll i at) = 0
missed_in (poll_finds i at there) = 0
missed_in (poll_sleeps i at none_there) = 0
missed_in (poll_gives_up i at) = 0
missed_in {s} (consume i at done) = lost s.ring.size s.log (s.readers i).next
missed_in {s} (consume_fault i at done) = lost s.ring.size s.log (s.readers i).next

-- How many samples the files have missed since the module was loaded, those that were closed and
-- opened again included.
abbrev pub all_missed : {s : System} → Reach s → ℕ
all_missed (loaded p) = 0
all_missed (next reach st) = all_missed reach + missed_in st

-- The counter when the module was loaded.
abbrev pub dropped_before : {s : System} → Reach s → ℕ
dropped_before (loaded {r} p) = r.dropped
dropped_before (next reach st) = dropped_before reach

push-keeps_dropped :
    (r : RingBuf) (x : GpuSample) {r' : RingBuf} → ring_push r x ≡ some r' → r'.dropped ≡ r.dropped
unfolding ring_push
push-keeps_dropped r x done = ground arith

kept : {s : System} → Inv s → s.ring.dropped ≡ u64 (s.ring.dropped + 0)
kept inv = omega (arith, inv.represents.valid.dropped_fits)

-- A step adds to the counter what a file misses in it.
counter_after :
    {s t : System} (st : Step s t) → Inv s → t.ring.dropped ≡ u64 (s.ring.dropped + missed_in st)
counter_after {s} (push x at done) inv = push-keeps_dropped s.ring x done ∙ kept inv
counter_after (wake at) inv = kept inv
counter_after (open_file i at) inv = kept inv
counter_after (close_file i at) inv = kept inv
counter_after (call_read i most at some_room small) inv = kept inv
counter_after (find_data i at there) inv = kept inv
counter_after (go_to_sleep i at none_there) inv = kept inv
counter_after (would_block i at none_there) inv = kept inv
counter_after (no_memory i at) inv = kept inv
counter_after (signal i at) inv = kept inv
counter_after (call_poll i at) inv = kept inv
counter_after (poll_finds i at there) inv = kept inv
counter_after (poll_sleeps i at none_there) inv = kept inv
counter_after (poll_gives_up i at) inv = kept inv
counter_after {s} (consume i {most} at done) inv =
    let (returns, _) =
      ring_consume_refines inv.represents (s.readers i).next most (place_at i inv at).1 in
    ap (λ c. c.ring.dropped) (some_inj (sym done ∙ returns))
counter_after {s} (consume_fault i {most} at done) inv =
    let (returns, _) =
      ring_consume_refines inv.represents (s.readers i).next most (place_at i inv at).1 in
    ap (λ c. c.ring.dropped) (some_inj (sym done ∙ returns))

-- The `dropped` counter counts what the readers lose by falling behind and nothing else: in every
-- reachable state with fewer than 2^64 - 1 samples pushed, `ring_dropped` is, modulo 2^64, what it
-- was when the module was loaded and the number of samples that all files have missed in this way
-- since, in whatever order they were opened, read and closed. What a read took whose copy to the
-- user failed is not counted.
pub dropped_counts :
    {s : System} (reach : Reach s)
    → length s.log + 1 < 2 ^ 64
    → ring_dropped s.ring ≡ u64 (dropped_before reach + all_missed reach)
unfolding ring_dropped
dropped_counts (loaded {r} p) fits = omega (arith, p.valid.dropped_fits)
dropped_counts (next {s} reach st) fits =
    let before = log-grows st in
    let fits' : length s.log + 1 < 2 ^ 64 = omega arith in
    omega (arith, counter_after st (Reach-Inv reach fits'), dropped_counts reach fits')
