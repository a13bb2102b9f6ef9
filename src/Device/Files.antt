-- ===== src/Device/Files.antt =====
-- `gpu_telem_open` and `gpu_telem_release`.
use lkm_char_dev.Base.{ℕ, ◌+◌, ◌-◌, ◌^◌, ◌<◌, ◌≡◌, ◌∙◌, ap, arith}
use lkm_char_dev.Base.{
  sym, some_inj, ◌++◌, some, none, true, length, take, drop, length-append, drop_add, ◌%◌,
}
use lkm_char_dev.Base.Int.{pos}
use lkm_char_dev.Log
use lkm_char_dev.Log.{Log, first}
use lkm_char_dev.Ring.{RingBuf, Consumed, ring_consume}
use lkm_char_dev.Ring.Invariant.{Represents}
use lkm_char_dev.Ring.Consume.{ring_consume_refines}
use lkm_char_dev.Device.{Device, File, gpu_telem_open, gpu_telem_release}

-- Where `kzalloc` has memory, opening and closing a file leaves the device as it was, with the
-- count of open files in 32 bits, and the file with no reader state; the close returns 0.
pub release-open :
    (d : Device) (f : File)
    → d.open_count < 2 ^ 32
    → let (_, d', f') = gpu_telem_open true d f in
      gpu_telem_release d' f' ≡ (pos 0, d, record f { private_data = none })
unfolding gpu_telem_open gpu_telem_release
release-open d f fits i =
    (pos 0, record d { open_count = count i }, record f { private_data = none })
  where
    count : ((d.open_count + 1) % 2 ^ 32 + (2 ^ 32 - 1)) % 2 ^ 32 ≡ d.open_count
    count = omega arith

-- The file as it is when it has been opened.
abbrev pub opened_file : Device → File → File
opened_file d f = (gpu_telem_open true d f).2

-- It stands at the end of the log.
pub opened_file-next :
    (d : Device) (f : File) {h : Log}
    → Represents d.ring h
    → (opened_file d f).private_data ≡ some (length h)
unfolding gpu_telem_open
opened_file-next d f before = ap some before.head

-- A log read from the end of an earlier one: what came later, if the reader keeps up.
pub read_from_end :
    (size : ℕ) (h more : Log) (most : ℕ)
    → Log.read size (h ++ more) (length h) most ≡ take most (drop (length more - size) more)
read_from_end size h more most =
    ap (take most) (ap (λ n. drop n (h ++ more)) from ∙ drop_add h more (length more - size))
  where
    from : first size (h ++ more) (length h) ≡ length h + (length more - size)
    from = omega (arith, length-append h more)

-- A reader has no sample that was pushed before its `open`: if the device's ring represents the
-- log `h` when a file is opened, and a later ring represents `h` with `more` behind it, then the
-- first reading of at most `most` samples from the file's position does not fault and returns the
-- first `most` of the last `size` samples of `more`.
pub open_starts_at_head :
    (d : Device) (f : File) (more : Log) {h : Log} {r : RingBuf}
    → Represents d.ring h
    → Represents r (h ++ more)
    → (next most : ℕ) → most < 2 ^ 32
    → (opened_file d f).private_data ≡ some next
    → (c : Consumed) × (ring_consume r next most ≡ some c)
      × (c.out ≡ take most (drop (length more - r.size) more))
open_starts_at_head d f more {h} {r} before after next most fits opened = (
  _,
  (ring_consume_refines after next most fits).0,
  ap (λ n. Log.read r.size (h ++ more) n most) at ∙ read_from_end r.size h more most,
)
  where
    at : next ≡ length h
    at = some_inj (sym opened ∙ opened_file-next d f before)
