-- ===== src/Device/Read.antt =====
-- `gpu_telem_read` and `gpu_telem_poll` on a ring that represents a log.
use lkm_char_dev.Base.{ℕ, ◌+◌, ◌-◌, ◌*◌, ◌/◌, ◌≤◌, ◌<◌, ◌≡◌, ◌∙◌, ap, arith, min}
use lkm_char_dev.Base.{
  List, some, true, length, drop, All, All-take, All-drop, length-take, length-drop, le→not_ltb,
  u64, u32, ◌≢◌, ◌>>=◌, ◌↔◌, ◌⊎◌, ◌==◌, false, sym, [], refl, take,
}
use lkm_char_dev.Base.Int.{pos, is_neg}
use lkm_char_dev.Uapi.{GpuSample, IsSample, sample_size}
use lkm_char_dev.Uapi.Layout.{encode_all, length-encode_all}
use lkm_char_dev.Log
use lkm_char_dev.Log.{Log, first, lost}
use lkm_char_dev.Ring.{RingBuf, ring_consume, ring_data_available}
use lkm_char_dev.Ring.Invariant.{Represents, size_pos}
use lkm_char_dev.Ring.Consume.{ring_consume_refines}
use lkm_char_dev.Device.{
  File, ReadCalls, await, transfer, deliver, gpu_telem_read, ReadResult, gpu_telem_poll,
}
use lkm_char_dev.Device.Errno.{efault, eagain}

-- The samples that a buffer of `count` bytes has room for, `size` at most.
abbrev pub room : ℕ → ℕ → ℕ
room size count = min (count / sample_size) size

-- A call on an open file, with room for a sample, whose wait has returned 0 and left the ring `r'`.
-- Memory is there for the copy.
pub record Served (k : ReadCalls) (r : RingBuf) (f : File) (count next : ℕ) (r' : RingBuf) (h : Log)
    : Type 0 where
  pub fits : sample_size ≤ count
  pub opened : f.private_data ≡ some next
  pub waited : await k r f next ≡ (pos 0, r')
  pub same_size : r.size ≡ r'.size
  pub represents : Represents r' h
  pub available : ring_data_available r' next ≡ true
  pub memory : k.kmalloc_array (room r.size count) sample_size ≡ true
  pub samples : All IsSample h

module _ {k : ReadCalls} {r : RingBuf} {f : File} {count next : ℕ} {r' : RingBuf} {h : Log}
    (s : Served k r f count next r' h) where
  -- What the read takes from the log.
  abbrev pub taken : List GpuSample
  taken = Log.read r'.size h next (room r.size count)

  abbrev pub position : ℕ
  position = first r'.size h next + length taken

  abbrev ring_after : RingBuf
  ring_after = record r' { dropped = u64 (r'.dropped + lost r'.size h next) }

  pub taken_samples : All IsSample taken
  taken_samples =
      All-take IsSample (room r.size count) (drop (first r'.size h next) h)
        (All-drop IsSample (first r'.size h next) h s.samples)

  length-sent : length (encode_all taken) ≡ length taken * sample_size
  length-sent = length-encode_all taken taken_samples

  behind : next < length h
  unfolding ring_data_available
  behind = ground (arith, s.available, s.represents.head)

  pub taken_bounds : (1 ≤ length taken) × (length taken * sample_size ≤ count)
  taken_bounds = (
    omega (arith, kept, behind, size_pos s.represents.valid, s.same_size, s.fits),
    omega (arith, kept, s.fits),
  )
    where
      kept : length taken ≡ min (room r.size count) (length h - first r'.size h next)
      kept =
          length-take (room r.size count) (drop (first r'.size h next) h)
          ∙ ap (min (room r.size count)) (length-drop (first r'.size h next) h)

  consumes :
      ring_consume r' next (u32 (room r.size count))
      ≡ some (record { ring = ring_after; next_seq = position; out = taken })
  consumes =
      rw small
        (ring_consume_refines s.represents next (room r.size count)
          (omega (arith, s.represents.valid.size_small, s.same_size))).0
    where
      small : u32 (room r.size count) ≡ room r.size count
      small = omega (arith, s.represents.valid.size_small, s.same_size)

  transfers :
      transfer k f next (room r.size count) (pos 0, r')
      ≡ some (deliver k f (record { ring = ring_after; next_seq = position; out = taken }))
  unfolding transfer
  transfers = rw (s.memory, consumes)

  read_transfers :
      gpu_telem_read k r f count
      ≡ some (deliver k f (record { ring = ring_after; next_seq = position; out = taken }))
  unfolding gpu_telem_read
  read_transfers = rw (le→not_ltb count sample_size s.fits) (
      ap (λ o. o >>= λ n. transfer k f n (room r.size count) (await k r f n)) s.opened
      ∙ ap (transfer k f next (room r.size count)) s.waited
      ∙ transfers)

  -- On an open file, with room for a sample in the buffer, memory for the copy, and a wait that
  -- has returned 0 and left a ring of the same size that represents a log and has data for the
  -- file: where `copy_to_user` copies everything, `gpu_telem_read` returns the number of bytes
  -- that it sent, at least one whole sample and no more than the buffer holds. They are the
  -- encoded samples that a reading of the log from the file's position returns; the file's
  -- position is left behind the last of them, and the ring still represents the log.
  pub read_delivers :
      k.copy_to_user (encode_all taken) ≡ 0
      → (res : ReadResult) × (gpu_telem_read k r f count ≡ some res)
        × (res.sent ≡ encode_all taken)
        × (res.ret ≡ pos (length res.sent))
        × (sample_size ≤ length res.sent)
        × (length res.sent ≤ count)
        × (res.file.private_data ≡ some position)
        × Represents res.ring h
  unfolding deliver
  read_delivers copied = (
    record {
      ret = pos (length taken * sample_size);
      ring = ring_after;
      file = record f { private_data = some position };
      sent = encode_all taken;
    },
    read_transfers ∙ rw copied refl,
    refl,
    ap pos (sym length-sent),
    omega (arith, length-sent, taken_bounds),
    omega (arith, length-sent, taken_bounds),
    refl,
    (ring_consume_refines s.represents next 0 (omega arith)).1,
  )

  -- On an open file, with room for a sample in the buffer, memory for the copy, and a wait that
  -- has returned 0 and left a ring of the same size that represents a log and has data for the
  -- file: where `copy_to_user` fails, `gpu_telem_read` returns -EFAULT, and the file's position is
  -- left behind the samples that the user did not get, as if they had been delivered: it has moved
  -- on by at least one.
  pub read_fault_loses :
      k.copy_to_user (encode_all taken) ≢ 0
      → (res : ReadResult) × (gpu_telem_read k r f count ≡ some res)
        × (res.ret ≡ efault)
        × (res.file.private_data ≡ some position)
        × (next < position)
  unfolding deliver
  read_fault_loses failed = (
    record {
      ret = efault;
      ring = ring_after;
      file = record f { private_data = some position };
      sent =
          take (length (encode_all taken) - k.copy_to_user (encode_all taken)) (encode_all taken);
    },
    read_transfers ∙ rw (not_eq failed) refl,
    refl,
    refl,
    omega (arith, taken_bounds),
  )
    where
      not_eq :
          k.copy_to_user (encode_all taken) ≢ 0 → (k.copy_to_user (encode_all taken) == 0) ≡ false
      not_eq ne = ground arith

-- If `gpu_telem_read` returns a negative code, then either that code is -EFAULT, or no byte was
-- sent and the file is unchanged.
pub read_error_keeps :
    (k : ReadCalls) (r : RingBuf) (f : File) (count : ℕ) {res : ReadResult}
    → gpu_telem_read k r f count ≡ some res
    → is_neg res.ret ≡ true
    → (res.ret ≡ efault) ⊎ ((res.file ≡ f) × (res.sent ≡ []))
unfolding gpu_telem_read transfer deliver
read_error_keeps k r f count e failed = ground arith

-- `poll` and a read without blocking agree: on an open file with O_NONBLOCK, a read with room for
-- a sample returns -EAGAIN and changes nothing exactly where `poll` returns no event.
pub poll_agrees_read :
    (k : ReadCalls) (r : RingBuf) (next count : ℕ)
    → sample_size ≤ count
    → let f : File = record { private_data = some next; nonblock = true } in
      (gpu_telem_poll r f ≡ some 0)
      ↔ (gpu_telem_read k r f count ≡ some (record { ret = eagain; ring = r; file = f; sent = [] }))
unfolding gpu_telem_read transfer await deliver gpu_telem_poll
poll_agrees_read k r next count fits = (λ e. ground arith, λ e. ground arith)
