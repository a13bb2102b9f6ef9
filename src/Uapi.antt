-- ===== src/Uapi.antt =====
-- include/gpu_telem_uapi.h: the sample that the kernel hands to user space.
pub mod Layout
pub mod Selected
mod Tests
use lkm_char_dev.Base.{ℕ, ◌<◌, ◌^◌, ◌≡◌, List, []}
use lkm_char_dev.Base.{length, replicate, All}
use lkm_char_dev.Base.Int.{ℤ, pos, FitsS32}

-- `struct gpu_sample`. `pad` holds the 7 bytes of `_pad`.
pub record GpuSample : Type 0 where
  pub timestamp_ns : ℕ
  pub temp_millideg : ℤ
  pub fan_rpm : ℕ
  pub power_uw : ℕ
  pub core_freq_mhz : ℕ
  pub mem_freq_mhz : ℕ
  pub gpu_util_pct : ℕ
  pub mem_util_pct : ℕ
  pub throttle_reasons : ℕ
  pub pad : List ℕ

-- Every field is within its C type.
pub record IsSample (s : GpuSample) : Type 0 where
  pub time_fits : s.timestamp_ns < 2 ^ 64
  pub temp_fits : FitsS32 s.temp_millideg
  pub fan_fits : s.fan_rpm < 2 ^ 32
  pub power_fits : s.power_uw < 2 ^ 64
  pub core_fits : s.core_freq_mhz < 2 ^ 32
  pub mem_fits : s.mem_freq_mhz < 2 ^ 32
  pub gpu_fits : s.gpu_util_pct < 2 ^ 32
  pub util_fits : s.mem_util_pct < 2 ^ 32
  pub throttle_fits : s.throttle_reasons < 2 ^ 8
  pub pad_length : length s.pad ≡ 7
  pub pad_bytes : All (λ b. b < 2 ^ 8) s.pad

-- A sample whose memory is all zeros.
abbrev pub zero_sample : GpuSample
zero_sample = record {
  timestamp_ns = 0;
  temp_millideg = pos 0;
  fan_rpm = 0;
  power_uw = 0;
  core_freq_mhz = 0;
  mem_freq_mhz = 0;
  gpu_util_pct = 0;
  mem_util_pct = 0;
  throttle_reasons = 0;
  pad = replicate 7 0;
}

-- `sizeof(struct gpu_sample)`
abbrev pub sample_size : ℕ
sample_size = 48
