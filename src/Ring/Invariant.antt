-- ===== src/Ring/Invariant.antt =====
-- The ring buffer's invariants: `IsValid` of its fields, and `Represents` of what it holds.
use lkm_char_dev.Base.{ℕ, ◌+◌, ◌-◌, ◌/◌, ◌%◌, ◌^◌, ◌≤◌, ◌<◌, ◌≡◌, ◌≢◌, ◌∙◌, ap, sym, arith}
use lkm_char_dev.Base.{List, some, length, get_elem?, u32, bit_and, true, false}
use lkm_char_dev.Base.Bits.{IsPow2, bit_and_mask, one-le-two_pow}
use lkm_char_dev.Uapi.{GpuSample}
use lkm_char_dev.Log.{Log}
use lkm_char_dev.Ring.{RingBuf, max_ring_size, slot, ring_data_available}
use native.Mathlib.Nat.{mod-lt, mod-add-div, mul-le-mul_left, mod-eq_of_lt}
use native.Mathlib.Decide.{dec_le}

-- The fields fit together: storage for `size` samples, a power of two of at most 4096, and its mask.
pub record IsValid (r : RingBuf) : Type 0 where
  pub memory : List GpuSample
  pub held : r.samples ≡ some memory
  pub memory_length : length memory ≡ r.size
  pub size_pow2 : IsPow2 r.size
  pub size_small : r.size ≤ max_ring_size
  pub masked : r.mask ≡ r.size - 1
  pub head_fits : r.head_seq < 2 ^ 64
  pub dropped_fits : r.dropped < 2 ^ 64

-- The ring is valid and holds the last `size` samples of a log, each in the slot of its number.
pub record Represents (r : RingBuf) (h : Log) : Type 0 where
  pub valid : IsValid r
  pub head : r.head_seq ≡ length h
  pub live :
      (i : ℕ)
      → i < length h
      → length h ≤ i + r.size
      → get_elem? valid.memory (i % r.size) ≡ get_elem? h i

pub size_pos : {r : RingBuf} → IsValid r → 1 ≤ r.size
size_pos {r} v = omega (arith, v.size_pow2.1, one-le-two_pow v.size_pow2.0)

-- `seq & mask` is `seq % size`.
pub slot-eq-mod : {r : RingBuf} → IsValid r → (seq : ℕ) → slot r seq ≡ seq % r.size
slot-eq-mod {r} v seq =
    ap u32 anded ∙ mod-eq_of_lt (omega (arith, mod-lt seq (size_pos v), v.size_small))
  where
    anded : bit_and seq r.mask ≡ seq % r.size
    anded =
        ap (bit_and seq) (v.masked ∙ ap (λ t. t - 1) v.size_pow2.1)
        ∙ bit_and_mask v.size_pow2.0 seq
        ∙ ap (λ t. seq % t) (sym v.size_pow2.1)

-- Every slot lies in the storage.
pub slot-lt : {r : RingBuf} → IsValid r → (seq : ℕ) → slot r seq < r.size
slot-lt {r} v seq = rw (slot-eq-mod v seq) (mod-lt seq (size_pos v))

-- Numbers less than `size` apart have different slots.
pub mod-ne : (i n size : ℕ) → i < n → n < i + size → i % size ≢ n % size
mod-ne i n size lt near e = elim (dec_le (n / size) (i / size)) [
  | yes le ↦ omega (arith, mod-add-div i size, mod-add-div n size, mul-le-mul_left size le)
  | no gt ↦
      let next : i / size + 1 ≤ n / size = omega arith in
      omega (arith, mod-add-div i size, mod-add-div n size, mul-le-mul_left size next)
]

-- The count of samples skipped is no part of what a ring holds.
pub Represents-dropped :
    {r : RingBuf} {h : Log} (d : ℕ)
    → d < 2 ^ 64
    → Represents r h
    → Represents (record r { dropped = d }) h
Represents-dropped {r} d fits p = record {
  valid = record {
    memory = p.valid.memory;
    held = p.valid.held;
    memory_length = p.valid.memory_length;
    size_pow2 = p.valid.size_pow2;
    size_small = p.valid.size_small;
    masked = p.valid.masked;
    head_fits = p.valid.head_fits;
    dropped_fits = fits;
  };
  head = p.head;
  live = p.live;
}

-- `ring_data_available` says whether the log goes on behind a position.
pub lt_of_available :
    {r : RingBuf} {h : Log}
    → Represents r h
    → (n : ℕ) → ring_data_available r n ≡ true
    → n < length h
unfolding ring_data_available
lt_of_available p n e = ground (arith, p.head)

pub le_of_unavailable :
    {r : RingBuf} {h : Log}
    → Represents r h
    → (n : ℕ) → ring_data_available r n ≡ false
    → length h ≤ n
unfolding ring_data_available
le_of_unavailable p n e = ground (arith, p.head)

pub available_of_lt :
    {r : RingBuf} {h : Log}
    → Represents r h
    → (n : ℕ) → n < length h
    → ring_data_available r n ≡ true
unfolding ring_data_available
available_of_lt p n lt = ground (arith, p.head)

pub unavailable_of_le :
    {r : RingBuf} {h : Log}
    → Represents r h
    → (n : ℕ) → length h ≤ n
    → ring_data_available r n ≡ false
unfolding ring_data_available
unavailable_of_le p n le = ground (arith, p.head)
