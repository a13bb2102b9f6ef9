-- ===== src/Consumer.antt =====
-- user/consumer.py: what it makes of the 48 bytes of a sample, the generator `samples` over what
-- `poll` and `readv` answer, and `main` with its three kinds of output.
pub mod Unpack
pub mod Rows
pub mod Stream
pub mod Main
pub mod Prints
pub mod Interval
mod Tests
use lkm_char_dev.Base.{
  ℕ, zero, suc, ◌+◌, ◌-◌, ◌*◌, ◌/◌, ◌^◌, bit_and, Bool, true, false, not, ◌&&◌, Option, none, some,
}
use Prim.Native.Nat.{bit_or}
use lkm_char_dev.Base.{
  List, [], ◌∷◌, ◌++◌, map, length, take, drop, replicate, ltb, leb, ◌==◌, if◌then◌else◌, ◌>>=◌,
}
use lkm_char_dev.Base.Int.{ℤ, pos, negsuc, signed32, is_minus_one, is_zero}
use lkm_char_dev.Uapi.Layout.{le_bytes, le_value}
use lkm_char_dev.Sysfs.{bytes}
use lkm_char_dev.Printing.{Text, Printf}

-- A code of a `struct` format: a `u` of so many bytes, an `i`, or padding.
pub data Code : Type 0 where
  unsigned : ℕ → Code
  int : Code
  pad : ℕ → Code

-- What a format unpacks to.
abbrev pub Fields : List Code → Type 0
Fields [] = Unit
Fields (unsigned w ∷ codes) = ℕ × Fields codes
Fields (int ∷ codes) = ℤ × Fields codes
Fields (pad w ∷ codes) = Fields codes

abbrev pub calcsize : List Code → ℕ
calcsize [] = 0
calcsize (unsigned w ∷ codes) = w + calcsize codes
calcsize (int ∷ codes) = 4 + calcsize codes
calcsize (pad w ∷ codes) = w + calcsize codes

abbrev pub fields : (codes : List Code) → List ℕ → Fields codes
fields [] raw = tt
fields (unsigned w ∷ codes) raw = (le_value (take w raw), fields codes (drop w raw))
fields (int ∷ codes) raw = (signed32 (le_value (take 4 raw)), fields codes (drop 4 raw))
fields (pad w ∷ codes) raw = fields codes (drop w raw)

-- `struct.unpack` of a little-endian format: an error unless the bytes are as many as it takes.
abbrev pub struct_unpack : (codes : List Code) → List ℕ → Option (Fields codes)
struct_unpack codes raw = if length raw == calcsize codes then some (fields codes raw) else none

-- `_FMT`
abbrev pub fmt : List Code
fmt =
    unsigned 8
    ∷ int
    ∷ unsigned 4
    ∷ unsigned 8
    ∷ unsigned 4
    ∷ unsigned 4
    ∷ unsigned 4
    ∷ unsigned 4
    ∷ unsigned 1
    ∷ pad 7
    ∷ []

-- The class `GpuSample` of the script.
pub record UnpackedSample : Type 0 where
  pub timestamp_ns : ℕ
  pub temp_millideg : ℤ
  pub fan_rpm : ℕ
  pub power_uw : ℕ
  pub core_freq_mhz : ℕ
  pub mem_freq_mhz : ℕ
  pub gpu_util_pct : ℕ
  pub mem_util_pct : ℕ
  pub throttle_reasons : ℕ

-- `cls(*fields)`
abbrev pub of_fields : Fields fmt → UnpackedSample
of_fields (time, (temp, (fan, (power, (core, (mem, (gpu, (util, (throttle, end))))))))) = record {
  timestamp_ns = time;
  temp_millideg = temp;
  fan_rpm = fan;
  power_uw = power;
  core_freq_mhz = core;
  mem_freq_mhz = mem;
  gpu_util_pct = gpu;
  mem_util_pct = util;
  throttle_reasons = throttle;
}

unfoldable pub unpack : List ℕ → Option UnpackedSample
unpack raw = struct_unpack fmt raw >>= λ f. some (of_fields f)

-- `x or None`
abbrev pub or_none : ℕ → Option ℕ
or_none n = if n == 0 then none else some n

-- `None if x == 0xFFFF_FFFF else x`
abbrev pub unless_sentinel : ℕ → Option ℕ
unless_sentinel n = if n == 2 ^ 32 - 1 then none else some n

abbrev pub if_set : ℕ → ℕ → Text → List Text → List Text
if_set reasons bit name names = if bit_and reasons bit == 0 then names else name ∷ names

unfoldable pub throttle_names : UnpackedSample → List Text
throttle_names s = if_set s.throttle_reasons 1 (bytes "POWER") (
    if_set s.throttle_reasons 2 (bytes "THERMAL") (
      if_set s.throttle_reasons 4 (bytes "CURRENT")
        (if_set s.throttle_reasons 8 (bytes "UTIL") [])))

-- `sep.join(names)`
abbrev pub join : Text → List Text → Text
join sep [] = []
join sep (name ∷ []) = name
join sep (name ∷ next ∷ names) = name ++ sep ++ join sep (next ∷ names)

-- `_IOC`
abbrev pub ioc : ℕ → ℕ → ℕ → ℕ → ℕ
ioc direction type nr size =
    bit_or (bit_or (bit_or (direction * 2 ^ 30) (size * 2 ^ 16)) (type * 2 ^ 8)) nr

abbrev pub ioctl_get_ring_size : ℕ
ioctl_get_ring_size = ioc 2 0x47 0 4

abbrev pub ioctl_get_interval_ms : ℕ
ioctl_get_interval_ms = ioc 2 0x47 1 4

abbrev pub ioctl_set_interval_ms : ℕ
ioctl_set_interval_ms = ioc 1 0x47 2 4

-- `struct.pack("I", ms)`: an error unless the number is a `u32`.
abbrev pub pack_u32 : ℤ → Option (List ℕ)
pack_u32 (pos n) = if ltb n (2 ^ 32) then some (le_bytes 4 n) else none
pack_u32 (negsuc n) = none

-- What a turn of `samples` is answered: a timeout of `poll`, a KeyboardInterrupt, an OSError, or the
-- bytes that `readv` puts into the buffer.
pub data Answer : Type 0 where
  timeout : Answer
  interrupt : Answer
  os_error : Answer
  received : List ℕ → Answer

-- How the generator ends: it returns, something is raised, or it waits for a further answer.
pub data End : Type 0 where
  returned : End
  interrupted : End
  raised : End
  waiting : End

-- The inner loop: it yields `count` samples of the buffer, and goes on as given.
abbrev pub yields : ℕ → List ℕ → List UnpackedSample × End → List UnpackedSample × End
yields zero buf rest = rest
yields (suc count) buf rest =
    let (later, end) = yields count (drop 48 buf) rest in
    elim (unpack (take 48 buf)) [ none ↦ ([], raised) | some s ↦ (s ∷ later, end) ]

-- The generator, with its buffer: what it yields while it is asked, and how it ends.
unfoldable pub samples : List ℕ → List Answer → List UnpackedSample × End
samples buf [] = ([], waiting)
samples buf (timeout ∷ answers) = samples buf answers
samples buf (interrupt ∷ answers) = ([], interrupted)
samples buf (os_error ∷ answers) = ([], raised)
samples buf (received bs ∷ answers) =
    let buf' = bs ++ drop (length bs) buf in
    let rest = samples buf' answers in
    if length bs == 0 then ([], returned) else yields (length bs / 48) buf' rest

-- `bytearray(self.BATCH * _SIZE)`
abbrev pub fresh_buffer : List ℕ
fresh_buffer = replicate (16 * 48) 0

-- `args.count and idx >= args.count`
unfoldable pub is_enough : ℤ → ℕ → Bool
is_enough (pos count) idx = not (count == 0) && leb count idx
is_enough (negsuc count) idx = true

-- The loop over the generator that each of the three outputs has: what it prints, with the index,
-- and how it ends. A `break` counts as a return.
unfoldable pub numbered_rows : ℤ → ℕ → List UnpackedSample × End → List (ℕ × UnpackedSample) × End
numbered_rows count idx ([], end) = ([], end)
numbered_rows count idx (s ∷ ss, end) =
    let (rows, end') = numbered_rows count (idx + 1) (ss, end) in
    if is_enough count (idx + 1) then ((idx, s) ∷ [], returned) else ((idx, s) ∷ rows, end')
