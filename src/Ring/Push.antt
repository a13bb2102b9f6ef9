-- ===== src/Ring/Push.antt =====
-- `ring_push` on a ring that represents a log.
use lkm_char_dev.Base.{ℕ, ◌+◌, ◌%◌, ◌^◌, ◌<◌, ◌≡◌, ◌≢◌, ◌∙◌, sym, refl, arith}
use lkm_char_dev.Base.{
  [], ◌∷◌, ◌++◌, some, length, get_elem?, set, lt→ltb, u64, length-append, length-set,
}
use lkm_char_dev.Base.{
  get_elem?-set_self, get_elem?-set_ne, get_elem?-append_lt, get_elem?-append_self,
}
use lkm_char_dev.Uapi.{GpuSample}
use lkm_char_dev.Log.{Log}
use lkm_char_dev.Ring.{RingBuf, slot, store, ring_push}
use lkm_char_dev.Ring.Invariant.{IsValid, Represents, slot-eq-mod, slot-lt, mod-ne}
use native.Mathlib.Decide.{dec_lt}

module _ {r : RingBuf} (v : IsValid r) (s : GpuSample) where
  -- The ring after a push.
  abbrev pub pushed : RingBuf
  pushed = record r {
    samples = some (set v.memory (slot r r.head_seq) s);
    head_seq = u64 (r.head_seq + 1);
  }

  pub ring_push_valid : ring_push r s ≡ some pushed
  unfolding ring_push store
  ring_push_valid = rw (
    v.held,
    lt→ltb (slot r r.head_seq) (length v.memory)
        (omega (arith, v.memory_length, slot-lt v r.head_seq)),
  )

  pub pushed-IsValid : IsValid pushed
  pushed-IsValid = record {
    memory = set v.memory (slot r r.head_seq) s;
    held = refl;
    memory_length = length-set v.memory (slot r r.head_seq) s ∙ v.memory_length;
    size_pow2 = v.size_pow2;
    size_small = v.size_small;
    masked = v.masked;
    head_fits = omega arith;
    dropped_fits = v.dropped_fits;
  }

module _ {r : RingBuf} {h : Log} (p : Represents r h) (s : GpuSample) where
  -- An older sample that is still in the log's last `size` keeps its slot.
  live_old :
      (i : ℕ)
      → i < length h
      → length h < i + r.size
      → get_elem? (set p.valid.memory (slot r r.head_seq) s) (i % r.size)
        ≡ get_elem? (h ++ s ∷ []) i
  live_old i old near =
      get_elem?-set_ne p.valid.memory s apart
      ∙ p.live i old (omega arith)
      ∙ sym (get_elem?-append_lt h (s ∷ []) i old)
    where
      apart : slot r r.head_seq ≢ i % r.size
      apart e =
          mod-ne i r.head_seq r.size (omega (arith, p.head)) (omega (arith, p.head))
            (sym e ∙ slot-eq-mod p.valid r.head_seq)

  -- The new sample is in the slot of its number.
  live_new :
      get_elem? (set p.valid.memory (slot r r.head_seq) s) (length h % r.size)
      ≡ get_elem? (h ++ s ∷ []) (length h)
  live_new =
      rw (get_elem?-append_self h s, ← p.head, ← slot-eq-mod p.valid r.head_seq)
        (get_elem?-set_self p.valid.memory (slot r r.head_seq) s
          (omega (arith, p.valid.memory_length, slot-lt p.valid r.head_seq)))

  pub push-Represents : length h + 1 < 2 ^ 64 → Represents (pushed p.valid s) (h ++ s ∷ [])
  unfolding pushed-IsValid
  push-Represents fits = record {
    valid = pushed-IsValid p.valid s;
    head = omega (arith, length-append h (s ∷ []), p.head);
    live = λ i lt near. elim (dec_lt i (length h)) [
      | yes old ↦ live_old i old (omega (arith, length-append h (s ∷ [])))
      | no new ↦
          let last : i ≡ length h = omega (arith, length-append h (s ∷ [])) in rw last live_new
    ];
  }

-- `ring_push` on a ring that represents a log of fewer than 2^64 - 1 samples does not fault, and
-- leaves a ring that represents the log with the sample appended.
pub ring_push_refines :
    {r : RingBuf} {h : Log}
    → Represents r h
    → (s : GpuSample) → length h + 1 < 2 ^ 64
    → (r' : RingBuf) × (ring_push r s ≡ some r') × Represents r' (h ++ s ∷ [])
ring_push_refines p s fits = (pushed p.valid s, ring_push_valid p.valid s, push-Represents p s fits)
