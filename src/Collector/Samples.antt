-- ===== src/Collector/Samples.antt =====
-- The fields of a collected sample.
use lkm_char_dev.Base.{ℕ, ◌^◌, ◌<◌, ◌≡◌, arith}
use native.Mathlib.Nat.{one-le-pow}
use lkm_char_dev.Base.{Option, none, some, length, All}
use lkm_char_dev.Base.Int.{ℤ, negsuc, bits, bits-lt, signed32, FitsS32}
use lkm_char_dev.Uapi.{GpuSample, IsSample}
use lkm_char_dev.Device.{Device}
use lkm_char_dev.Sysfs.{FileCalls}
use lkm_char_dev.Collector.{attribute, or_else, quot, collect_sample}

signed32-FitsS32 : (b : ℕ) → b < 2 ^ 32 → FitsS32 (signed32 b)
signed32-FitsS32 b h = ground arith

-- A cast of an attribute, or 0, fits the type that it is cast to.
or_else_lt : (o : Option ℤ) (f : ℤ → ℤ) (w : ℕ) → or_else o (λ val. bits w (f val)) 0 < 2 ^ w
or_else_lt none f w = one-le-pow w 2 (omega arith)
or_else_lt (some z) f w = bits-lt w (f z)

or_else-FitsS32 : (o : Option ℤ) → FitsS32 (or_else o (λ val. signed32 (bits 32 val)) (negsuc 0))
or_else-FitsS32 none = omega arith
or_else-FitsS32 (some z) = signed32-FitsS32 (bits 32 z) (bits-lt 32 z)

-- Whatever the files hold, every field of a collected sample is within its C type, if the time is
-- a `u64` and the padding that the struct had is 7 bytes.
pub collect_sample-IsSample :
    (k : FileCalls) (now : ℕ) (d : Device) (s : GpuSample)
    → now < 2 ^ 64
    → length s.pad ≡ 7
    → All (λ b. b < 2 ^ 8) s.pad
    → IsSample (collect_sample k now d s)
unfolding collect_sample
collect_sample-IsSample k now d s time len pad = record {
  time_fits = time;
  temp_fits = or_else-FitsS32 (attribute k d.temp_path);
  fan_fits = or_else_lt (attribute k d.fan_path) (λ val. val) 32;
  power_fits = or_else_lt (attribute k d.power_path) (λ val. val) 64;
  core_fits = or_else_lt (attribute k d.freq_path) (λ val. quot val 1000000) 32;
  mem_fits = omega arith;
  gpu_fits = omega arith;
  util_fits = omega arith;
  throttle_fits = omega arith;
  pad_length = len;
  pad_bytes = pad;
}
