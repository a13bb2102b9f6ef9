-- ===== src/System/Safety.antt =====
-- Reachable states: the wait queue, the reads that return, and the stream of each file.
use lkm_char_dev.Base.{ℕ, ◌+◌, ◌-◌, ◌^◌, ◌≤◌, ◌<◌, ◌≡◌, ◌∙◌, ◌⊎◌, inl, inr, ap, refl, arith, min}
use lkm_char_dev.Base.{some, true, false, length, take, drop, length-take, length-drop}
use mathlib.Core.List.{Sublist}
use lkm_char_dev.Log
use lkm_char_dev.Log.{Log, first, lost}
use lkm_char_dev.Ring.{Consumed, ring_consume, ring_data_available}
use lkm_char_dev.Ring.Invariant.{unavailable_of_le, size_pos}
use lkm_char_dev.Ring.Consume.{ring_consume_refines}
use lkm_char_dev.System.{System, Reach, pushed, sleeps, ready}
use lkm_char_dev.System.Readers.{sleeps-PcOk}
use lkm_char_dev.System.Invariant.{Inv, Reach-Inv, place_at}

module _ {s : System} (reach : Reach s) (fits : length s.log + 1 < 2 ^ 64) where
  inv : Inv s
  inv = Reach-Inv reach fits

  -- No wake-up is lost: in every reachable state with fewer than 2^64 - 1 samples pushed, a thread
  -- that sleeps on the wait queue, in `read` or in `poll`, has no data, or the collector is about
  -- to wake it.
  pub no_lost_wakeup :
      (i : ℕ)
      → sleeps (s.readers i).pc ≡ true
      → (ring_data_available s.ring (s.readers i).next ≡ false) ⊎ (s.collector ≡ pushed)
  no_lost_wakeup i at =
      elim (sleeps-PcOk s.log s.collector (s.readers i).next (s.readers i).pc at
        (inv.readers i).place) [
          | inl behind ↦ inl (unavailable_of_le inv.represents (s.readers i).next behind)
          | inr coming ↦ inr coming
        ]

  -- What a read whose wait has returned takes: at least one sample of the log, and no fault.
  pub ready_takes :
      (i : ℕ) {most : ℕ}
      → (s.readers i).pc ≡ ready most
      → (c : Consumed) × (ring_consume s.ring (s.readers i).next most ≡ some c)
        × (c.out ≡ Log.read c.ring.size s.log (s.readers i).next most)
        × (1 ≤ length (Log.read c.ring.size s.log (s.readers i).next most))
        × (length c.out ≤ most)
  ready_takes i {most} at =
      let (some_room, small, there) = place_at i inv at in
      let n = (s.readers i).next in
      let h = s.log in
      let from = first s.ring.size h n in
      let count : length (Log.read s.ring.size h n most) ≡ min most (length h - from) =
        length-take most (drop from h) ∙ ap (min most) (length-drop from h) in
      (
        _,
        (ring_consume_refines inv.represents n most small).0,
        refl,
        omega (arith, count, some_room, there, size_pos inv.represents.valid),
        omega (arith, count),
      )

  -- A read whose wait has returned is served: in every reachable state with fewer than 2^64 - 1
  -- samples pushed, `ring_consume` does not fault for it, and gives it at least one sample and at
  -- most `max_samples`.
  pub ready_gets_data :
      (i : ℕ) {most : ℕ}
      → (s.readers i).pc ≡ ready most
      → (c : Consumed) × (ring_consume s.ring (s.readers i).next most ≡ some c)
        × (1 ≤ length c.out)
        × (length c.out ≤ most)
  ready_gets_data i {most} at =
      let (c, taken, out, some_out, bounded) = ready_takes i at in
      (c, taken, omega (arith, some_out, ap length out), bounded)

  -- Every file sees the stream in order and every gap is accounted for: in every reachable state
  -- with fewer than 2^64 - 1 samples pushed, what a file was given is a selection, in order, of
  -- the samples from where it started to its position, which is not past the end of the log; and
  -- that way is as long as what it was given, what it missed by falling behind, and what those of
  -- its reads had taken that failed in `copy_to_user`, together.
  pub stream_in_order :
      (i : ℕ)
      → let x = s.readers i in
        (x.start + length x.given + x.missed + x.unreported ≡ x.next)
        × (x.next ≤ length s.log)
        × Sublist x.given (take (x.next - x.start) (drop x.start s.log))
  stream_in_order i = let ok = inv.readers i in (ok.counted, ok.within, ok.ordered)

  -- In every reachable state with fewer than 2^64 - 1 samples pushed, a file that has missed
  -- nothing, and of which no failed read had taken anything, was given exactly the samples pushed
  -- from its `open` up to its position, each once and in order.
  pub stream_complete :
      (i : ℕ)
      → (s.readers i).missed ≡ 0
      → (s.readers i).unreported ≡ 0
      → (s.readers i).given
        ≡ take ((s.readers i).next - (s.readers i).start) (drop (s.readers i).start s.log)
  stream_complete i none_missed none_lost =
      let ok = inv.readers i in
      let count : length (s.readers i).given ≡ (s.readers i).next - (s.readers i).start =
        omega (arith, ok.counted) in
      ok.complete none_missed none_lost ∙ ap (λ n. take n (drop (s.readers i).start s.log)) count
