-- ===== src/Ring/Tests.antt =====
-- Runs of the ring buffer, and its theorems at concrete rings.
use lkm_char_dev.Base.{◌≡◌, refl, arith, ◌↔◌}
use lkm_char_dev.Base.{[], ◌∷◌, ◌++◌, some, none, true, false}
use lkm_char_dev.Base.Int.{pos}
use lkm_char_dev.Examples.{
  sample, plenty, plenty-IsVzalloc, no_ring, full_ring, three, full_ring-Represents,
}
use lkm_char_dev.Ring.{
  RingBuf, ring_init, ring_destroy, ring_push, ring_consume, ring_data_available, ring_dropped,
  einval, enomem,
}
use lkm_char_dev.Ring.Init.{IsRingSize, ring_init_refines, ring_init-einval}
use lkm_char_dev.Ring.Invariant.{Represents}
use lkm_char_dev.Ring.Push.{ring_push_refines}
use lkm_char_dev.Ring.Consume.{ring_consume_refines}

init_sizes :
    ((ring_init plenty no_ring 0).0 ≡ einval)
    × ((ring_init plenty no_ring 1).0 ≡ pos 0)
    × ((ring_init plenty no_ring 6).0 ≡ einval)
    × ((ring_init plenty no_ring 8192).0 ≡ einval)
    × ((ring_init (λ b. none) no_ring 8).0 ≡ enomem)
unfolding ring_init
init_sizes = (refl, refl, refl, refl, refl)

-- A reader at 0 of a ring of two slots with three samples has lost the first.
consume_overrun :
    ring_consume full_ring 0 16
    ≡ some (record {
      ring = record full_ring { dropped = 1 };
      next_seq = 3;
      out = sample 2 ∷ sample 3 ∷ [];
    })
unfolding ring_consume
consume_overrun = refl

consume_one :
    ring_consume full_ring 2 1
    ≡ some (record { ring = full_ring; next_seq = 3; out = sample 3 ∷ [] })
unfolding ring_consume
consume_one = refl

push_overwrites :
    ring_push full_ring (sample 4)
    ≡ some (record full_ring { samples = some (sample 3 ∷ sample 4 ∷ []); head_seq = 4 })
unfolding ring_push
push_overwrites = refl

-- A ring that was destroyed cannot be pushed to.
push_after_destroy : ring_push (ring_destroy full_ring) (sample 4) ≡ none
unfolding ring_push ring_destroy
push_after_destroy = refl

data_available :
    (ring_data_available full_ring 2 ≡ true)
    × (ring_data_available full_ring 3 ≡ false)
    × (ring_dropped full_ring ≡ 0)
unfolding ring_data_available ring_dropped
data_available = (refl, refl, refl)

ring_push_refines_example :
    (r : RingBuf) × (ring_push full_ring (sample 4) ≡ some r)
    × Represents r (three ++ sample 4 ∷ [])
ring_push_refines_example = ring_push_refines full_ring-Represents (sample 4) (omega arith)

ring_consume_refines_example :
    (ring_consume full_ring 0 16
      ≡ some (record {
        ring = record full_ring { dropped = 1 };
        next_seq = 3;
        out = sample 2 ∷ sample 3 ∷ [];
      }))
    × Represents (record full_ring { dropped = 1 }) three
ring_consume_refines_example = ring_consume_refines full_ring-Represents 0 16 (omega arith)

ring_init_of_2 :
    ((ring_init plenty no_ring 2).0 ≡ pos 0)
    × ((ring_init plenty no_ring 2).1.size ≡ 2)
    × Represents (ring_init plenty no_ring 2).1 []
ring_init_of_2 = ring_init_refines plenty no_ring 2 plenty-IsVzalloc ((1, refl), omega arith) refl

ring_init_refused : ((ring_init plenty no_ring 6).0 ≡ einval) ↔ (¬ IsRingSize 6)
ring_init_refused = ring_init-einval plenty no_ring 6
