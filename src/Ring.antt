-- ===== src/Ring.antt =====
-- kernel/ringbuf.h and kernel/ringbuf.c: the ring buffer.
-- Each function of ringbuf.c runs its body under the ring's spinlock (or, in
-- `ring_data_available`, makes one read), so each is one atomic step here and the lock itself is
-- not a field. The `none` of an operation is a fault: a NULL `samples`, or an index out of range.
pub mod Invariant
pub mod Init
pub mod Sizes
pub mod Push
pub mod Consume
mod Tests
use lkm_char_dev.Base.{ℕ, zero, suc, ◌+◌, ◌-◌, ◌*◌, ◌^◌, min, bit_and, Bool, true, false, ◌||◌, not}
use lkm_char_dev.Base.{Option, none, some, List, [], ◌∷◌, length, get_elem?, set, ◌>>=◌, u32, u64}
use lkm_char_dev.Base.{ltb, leb, ◌==◌, if◌then◌else◌}
use lkm_char_dev.Base.Int.{ℤ, pos, neg}
use lkm_char_dev.Uapi.{GpuSample, sample_size}

-- `struct ring_buf`, less its lock. `samples` is `none` where the pointer is NULL.
pub record RingBuf : Type 0 where
  pub samples : Option (List GpuSample)
  pub size : ℕ
  pub mask : ℕ
  pub head_seq : ℕ
  pub dropped : ℕ

abbrev pub max_ring_size : ℕ
max_ring_size = 4096

abbrev pub einval : ℤ
einval = neg 22

abbrev pub enomem : ℤ
enomem = neg 12

-- What `vzalloc` returns for a number of bytes, as the samples that the bytes hold; `none` is NULL.
abbrev pub Vzalloc : Type 0
Vzalloc = ℕ → Option (List GpuSample)

-- The end of `ring_init`, from the pointer that `vzalloc` returned.
pub ring_init_with : RingBuf → ℕ → Option (List GpuSample) → ℤ × RingBuf
ring_init_with r size none = (enomem, record r { samples = none })
ring_init_with r size (some m) =
    (pos 0, record { samples = some m; size = size; mask = size - 1; head_seq = 0; dropped = 0 })

-- `size - 1` is reached only at `size ≢ 0`.
unfoldable pub ring_init : Vzalloc → RingBuf → ℕ → ℤ × RingBuf
unfolding ring_init_with
ring_init vzalloc r size =
    if size == 0 || not (bit_and size (size - 1) == 0) || ltb max_ring_size size
    then (einval, r)
    else ring_init_with r size (vzalloc (size * sample_size))

unfoldable pub ring_destroy : RingBuf → RingBuf
ring_destroy r = record r { samples = none }

-- The slot of a sequence number.
abbrev pub slot : RingBuf → ℕ → ℕ
slot r seq = u32 (bit_and seq r.mask)

-- A checked write, `samples[i] = s`.
pub store : List GpuSample → ℕ → GpuSample → Option (List GpuSample)
store m i s = if ltb i (length m) then some (set m i s) else none

unfoldable pub ring_push : RingBuf → GpuSample → Option RingBuf
unfolding store
ring_push r s = do
  m ← r.samples
  m' ← store m (slot r r.head_seq) s
  some (record r { samples = some m'; head_seq = u64 (r.head_seq + 1) })

unfoldable pub ring_data_available : RingBuf → ℕ → Bool
ring_data_available r next_seq = ltb next_seq r.head_seq

-- What `ring_consume` leaves: the ring, `*next_seq`, and what it wrote to `out`.
pub record Consumed : Type 0 where
  pub ring : RingBuf
  pub next_seq : ℕ
  pub out : List GpuSample

-- The branch for a reader that fell behind: the ring with the samples that are skipped counted,
-- `*next_seq`, and `behind`.
pub overrun : RingBuf → ℕ → ℕ → RingBuf × ℕ × ℕ
overrun r next behind =
    if ltb r.size behind
    then (
      record r { dropped = u64 (r.dropped + (behind - r.size)) },
      u64 (next + (behind - r.size)),
      r.size,
    )
    else (r, next, behind)

-- The copy loop of `ring_consume`, with the rounds left: `n` samples from `*next_seq` on.
pub copy_out : RingBuf → ℕ → ℕ → Option (List GpuSample × ℕ)
copy_out r zero seq = some ([], seq)
copy_out r (suc n) seq = do
  m ← r.samples
  s ← get_elem? m (slot r seq)
  (out, seq') ← copy_out r n (u64 (seq + 1))
  some (s ∷ out, seq')

-- From `to_copy` on.
pub copy_behind : ℕ → RingBuf × ℕ × ℕ → Option Consumed
unfolding copy_out
copy_behind most (r, next, behind) = do
  (out, next') ← copy_out r (u32 (min behind most)) next
  some (record { ring = r; next_seq = next'; out = out })

-- `head - *next_seq` is reached only at `*next_seq < head`, so it does not wrap.
unfoldable pub ring_consume : RingBuf → ℕ → ℕ → Option Consumed
unfolding overrun copy_behind
ring_consume r next most =
    if leb r.head_seq next
    then some (record { ring = r; next_seq = next; out = [] })
    else copy_behind most (overrun r next (r.head_seq - next))

unfoldable pub ring_dropped : RingBuf → ℕ
ring_dropped r = r.dropped
