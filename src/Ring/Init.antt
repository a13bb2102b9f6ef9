-- ===== src/Ring/Init.antt =====
-- `ring_init` and `ring_destroy`.
use lkm_char_dev.Base.{ℕ, ◌-◌, ◌*◌, ◌≤◌, ◌≡◌, ◌≢◌, ◌∙◌, ap, sym, refl, arith, inl, inr, ◌↔◌}
use lkm_char_dev.Base.{
  List, [], Option, some, none, false, replicate, length-replicate, ltb, ◌==◌, not, ◌||◌, bit_and,
}
use lkm_char_dev.Base.{Bool-cases}
use lkm_char_dev.Base.Int.{pos}
use lkm_char_dev.Base.Bits.{IsPow2, bit_and-IsPow2, IsPow2-of_bit_and, one-le-two_pow}
use lkm_char_dev.Uapi.{GpuSample, zero_sample, sample_size}
use lkm_char_dev.Ring.{RingBuf, Vzalloc, max_ring_size, ring_init, ring_init_with, einval, enomem}
use lkm_char_dev.Ring.Invariant.{Represents}

-- `vzalloc` as documented: where it does not return NULL, the bytes are all there and all zero.
pub record IsVzalloc (v : Vzalloc) : Type 0 where
  pub zeroed :
      (n : ℕ) {m : List GpuSample} → v (n * sample_size) ≡ some m → m ≡ replicate n zero_sample

-- What `ring_init` asks of a size.
abbrev pub IsRingSize : ℕ → Type 0
IsRingSize n = IsPow2 n × (n ≤ max_ring_size)

module _ (vzalloc : Vzalloc) (r : RingBuf) (size : ℕ) where
  ring_init_good :
      IsRingSize size
      → ring_init vzalloc r size ≡ ring_init_with r size (vzalloc (size * sample_size))
  unfolding ring_init
  ring_init_good (p, small) = ground (arith, bit_and-IsPow2 p, one-le-two_pow p.0)

  passed-IsRingSize :
      (size == 0 || not (bit_and size (size - 1) == 0) || ltb max_ring_size size) ≡ false
      → IsRingSize size
  passed-IsRingSize passed = (IsPow2-of_bit_and size (ground arith) (ground arith), ground arith)

  ring_init_bad : ¬ IsRingSize size → ring_init vzalloc r size ≡ (einval, r)
  unfolding ring_init
  ring_init_bad bad =
      elim (Bool-cases
        (size == 0 || not (bit_and size (size - 1) == 0) || ltb max_ring_size size)) [
          | inl refused ↦ rw refused
          | inr passed ↦ absurd (bad (passed-IsRingSize passed))
        ]

  with-ne-einval : (m : Option (List GpuSample)) → (ring_init_with r size m).0 ≢ einval
  unfolding ring_init_with
  with-ne-einval none e = ground arith
  with-ne-einval (some m) e = ground arith

  -- `ring_init` returns -EINVAL exactly for a size that is no power of two of at most 4096.
  pub ring_init-einval : ((ring_init vzalloc r size).0 ≡ einval) ↔ (¬ IsRingSize size)
  ring_init-einval = (
    λ e good.
        with-ne-einval (vzalloc (size * sample_size))
          (sym (ap (λ t. t.0) (ring_init_good good)) ∙ e),
    λ bad. ap (λ t. t.0) (ring_init_bad bad),
  )

  -- With no memory it returns -ENOMEM, and the ring has no storage.
  pub ring_init-enomem :
      IsRingSize size
      → vzalloc (size * sample_size) ≡ none
      → ring_init vzalloc r size ≡ (enomem, record r { samples = none })
  unfolding ring_init_with
  ring_init-enomem good e = rw (ring_init_good good, e)

  -- The ring that `ring_init` makes from zeroed memory.
  abbrev pub made : RingBuf
  made = record {
    samples = some (replicate size zero_sample);
    size = size;
    mask = size - 1;
    head_seq = 0;
    dropped = 0;
  }

  made-Represents : IsRingSize size → Represents made []
  made-Represents (pow2, small) = record {
    valid = record {
      memory = replicate size zero_sample;
      held = refl;
      memory_length = length-replicate size zero_sample;
      size_pow2 = pow2;
      size_small = small;
      masked = refl;
      head_fits = omega arith;
      dropped_fits = omega arith;
    };
    head = refl;
    live = λ i lt. elim lt [ ];
  }

  -- For a power of two of at most 4096 that `vzalloc` has memory for, `ring_init` returns 0 and a
  -- ring of that size that represents the empty log.
  pub ring_init_refines :
      {m : List GpuSample}
      → IsVzalloc vzalloc
      → IsRingSize size
      → vzalloc (size * sample_size) ≡ some m
      → ((ring_init vzalloc r size).0 ≡ pos 0)
        × ((ring_init vzalloc r size).1.size ≡ size)
        × Represents (ring_init vzalloc r size).1 []
  unfolding ring_init_with
  ring_init_refines valloc good e =
      rw (ring_init_good good, e, valloc.zeroed size e) (refl, refl, made-Represents good)
