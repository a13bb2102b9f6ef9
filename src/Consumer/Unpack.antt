-- ===== src/Consumer/Unpack.antt =====
-- The bytes that the kernel sends, as `GpuSample.unpack` of user/consumer.py reads them, beside the
-- programs in C and C++ that overlay them with the struct.
use lkm_char_dev.Base.{
  ℕ, ◌/◌, ◌%◌, ◌==◌, ◌++◌, [], ◌∷◌, if◌then◌else◌, ◌≡◌, ◌∙◌, refl, ap, arith, some, List, length,
  drop-drop,
}
use lkm_char_dev.Base.Bits.{bit_and_digits}
use lkm_char_dev.Uapi.{GpuSample, IsSample}
use lkm_char_dev.Uapi.Layout.{encode, decode, decode-encode, length-encode}
use lkm_char_dev.Printing.{Text, Printf}
use lkm_char_dev.Nvml.Table.{kernel_temp, kernel_power}
use lkm_char_dev.Sysfs.{bytes}
use lkm_char_dev.Consumer.{UnpackedSample, unpack, throttle_names}
use lkm_char_dev.Consumer.Main.{temp_c, power_w}

-- The sample without its padding.
abbrev pub view : GpuSample → UnpackedSample
view s = record {
  timestamp_ns = s.timestamp_ns;
  temp_millideg = s.temp_millideg;
  fan_rpm = s.fan_rpm;
  power_uw = s.power_uw;
  core_freq_mhz = s.core_freq_mhz;
  mem_freq_mhz = s.mem_freq_mhz;
  gpu_util_pct = s.gpu_util_pct;
  mem_util_pct = s.mem_util_pct;
  throttle_reasons = s.throttle_reasons;
}

-- Of 48 bytes, the format reads what the struct's offsets do.
unpack-view : (raw : List ℕ) → length raw ≡ 48 → unpack raw ≡ some (view (decode raw))
unfolding unpack decode
unpack-view raw whole = rw whole (simp drop-drop)

pub unpack-encode : (s : GpuSample) → IsSample s → unpack (encode s) ≡ some (view s)
unpack-encode s v =
    unpack-view (encode s) (length-encode s v) ∙ ap (λ x. some (view x)) (decode-encode s v)

-- The names of the reasons whose bits are set, from the lowest bit on.
abbrev pub reason_names : ℕ → List Text
reason_names r =
    (if r % 2 == 0 then [] else bytes "POWER" ∷ [])
    ++ (if r / 2 % 2 == 0 then [] else bytes "THERMAL" ∷ [])
    ++ (if r / 4 % 2 == 0 then [] else bytes "CURRENT" ∷ [])
    ++ (if r / 8 % 2 == 0 then [] else bytes "UTIL" ∷ [])

throttle_names-bits : (t : UnpackedSample) → throttle_names t ≡ reason_names t.throttle_reasons
unfolding throttle_names
throttle_names-bits t =
    let (power, thermal, current, util) = bit_and_digits t.throttle_reasons in
    rw (power, thermal, current, util) (ground arith)

-- The script and the programs in C and C++ read a sample alike: the 48 bytes of a sample whose
-- fields are within their C types are unpacked, each of the nine fields is that of the struct, the
-- temperature and the power are what user/nvml_validate.cpp computes from the struct, `None` where
-- it has `nullopt`, and the throttle names are POWER, THERMAL, CURRENT and UTIL, in this order,
-- each where its bit of the mask, from the lowest on, is set.
pub unpack_agrees :
    (p : Printf) (s : GpuSample)
    → IsSample s
    → (t : UnpackedSample) × (unpack (encode s) ≡ some t)
      × (t.timestamp_ns ≡ s.timestamp_ns)
      × (t.temp_millideg ≡ s.temp_millideg)
      × (t.fan_rpm ≡ s.fan_rpm)
      × (t.power_uw ≡ s.power_uw)
      × (t.core_freq_mhz ≡ s.core_freq_mhz)
      × (t.mem_freq_mhz ≡ s.mem_freq_mhz)
      × (t.gpu_util_pct ≡ s.gpu_util_pct)
      × (t.mem_util_pct ≡ s.mem_util_pct)
      × (t.throttle_reasons ≡ s.throttle_reasons)
      × (temp_c p t ≡ kernel_temp p s)
      × (power_w p t ≡ kernel_power p s)
      × (throttle_names t ≡ reason_names s.throttle_reasons)
unfolding temp_c power_w kernel_temp kernel_power
unpack_agrees p s v = (
  view s,
  unpack-encode s v,
  refl,
  refl,
  refl,
  refl,
  refl,
  refl,
  refl,
  refl,
  refl,
  refl,
  ground arith,
  throttle_names-bits (view s),
)
