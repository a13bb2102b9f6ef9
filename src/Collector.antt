-- ===== src/Collector.antt =====
-- The collector of kernel/gpu_telem_core.c: `collect_sample` and the loop of `collector_thread`.
pub mod Samples
pub mod Loop
mod Tests
use lkm_char_dev.Base.{
  ℕ, zero, suc, ◌+◌, ◌-◌, ◌/◌, ◌^◌, ◌%◌, Bool, true, false, Option, none, some, u64,
}
use lkm_char_dev.Base.{List, [], ◌∷◌, if◌then◌else◌, ◌>>=◌}
use lkm_char_dev.Base.Int.{ℤ, pos, negsuc, neg, bits, signed32, is_zero}
use lkm_char_dev.Uapi.{GpuSample}
use lkm_char_dev.Ring.{RingBuf, ring_push}
use lkm_char_dev.Device.{Device}
use lkm_char_dev.Sysfs.{FileCalls, sysfs_read_s64}

abbrev pub u32_max : ℕ
u32_max = 2 ^ 32 - 1

-- `path[0] && sysfs_read_s64(path, &val) == 0`: the value, where both hold.
unfoldable pub attribute : FileCalls → List ℕ → Option ℤ
attribute k [] = none
attribute k (b ∷ bs) =
    let (ret, val) = sysfs_read_s64 k (b ∷ bs) in if is_zero ret then some val else none

-- The conditional expression `… ? f val : sentinel`.
abbrev pub or_else {ℓ} : {A : Type ℓ} → Option ℤ → (ℤ → A) → A → A
or_else none f sentinel = sentinel
or_else (some val) f sentinel = f val

-- C's division of an `s64` by a positive number, towards zero.
abbrev pub quot : ℤ → ℕ → ℤ
quot (pos n) m = pos (n / m)
quot (negsuc n) m = neg (suc n / m)

-- The struct is given, since `_pad` keeps the bytes that it has.
unfoldable pub collect_sample : FileCalls → ℕ → Device → GpuSample → GpuSample
collect_sample k now d s = record {
  timestamp_ns = now;
  temp_millideg = or_else (attribute k d.temp_path) (λ val. signed32 (bits 32 val)) (negsuc 0);
  fan_rpm = or_else (attribute k d.fan_path) (λ val. bits 32 val) 0;
  power_uw = or_else (attribute k d.power_path) (λ val. bits 64 val) 0;
  core_freq_mhz = or_else (attribute k d.freq_path) (λ val. bits 32 (quot val 1000000)) 0;
  mem_freq_mhz = 0;
  gpu_util_pct = u32_max;
  mem_util_pct = u32_max;
  throttle_reasons = 0;
  pad = s.pad;
}

-- What one round of the collector's loop is told: `kthread_should_stop`, the files as they are
-- then, `ktime_get_ns`, and whether `msleep_interruptible` returns time left over.
pub record Round : Type 0 where
  pub should_stop : Bool
  pub files : FileCalls
  pub now : ℕ
  pub interrupted : Bool

-- The loop, over the rounds that it is told of: the ring, and the samples that it pushed (each push
-- is followed by a wake-up of the readers). `none` is a fault of the ring.
unfoldable pub collector_thread :
    Device → RingBuf → GpuSample → List Round → Option (RingBuf × List GpuSample)
collector_thread d r s [] = some (r, [])
collector_thread d r s (t ∷ ts) = elim t.should_stop [
  | true ↦ some (r, [])
  | false ↦
      let s' = collect_sample t.files t.now d s in
      ring_push r s' >>= λ r'. elim t.interrupted [
        | true ↦ some (r', s' ∷ [])
        | false ↦ collector_thread d r' s' ts >>= λ out. some (out.0, s' ∷ out.1)
      ]
]
