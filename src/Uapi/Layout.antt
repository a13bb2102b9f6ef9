-- ===== src/Uapi/Layout.antt =====
-- The 48 bytes of a `struct gpu_sample`, little-endian, at the offsets that the comment of
-- include/gpu_telem_uapi.h lists: what `copy_to_user` sends and a reader overlays with the struct.
use lkm_char_dev.Base.{ℕ, zero, suc, ◌+◌, ◌*◌, ◌/◌, ◌%◌, ◌^◌, ◌<◌, ◌≡◌, refl, ap, sym, ◌∙◌, arith}
use lkm_char_dev.Base.{
  List, [], ◌∷◌, ◌++◌, length, take, drop, All, length-append, take-append, drop-append, take_all,
}
use lkm_char_dev.Base.Int.{bits, signed32, signed32-bits, bits-lt}
use lkm_char_dev.Uapi.{GpuSample, IsSample, sample_size}

-- The low `w` bytes of a number, the lowest first.
abbrev pub le_bytes : ℕ → ℕ → List ℕ
le_bytes zero v = []
le_bytes (suc w) v = v % 256 ∷ le_bytes w (v / 256)

abbrev pub le_value : List ℕ → ℕ
le_value [] = 0
le_value (b ∷ bs) = b + 256 * le_value bs

unfoldable pub encode : GpuSample → List ℕ
encode s =
    le_bytes 8 s.timestamp_ns
    ++ (le_bytes 4 (bits 32 s.temp_millideg)
        ++ (le_bytes 4 s.fan_rpm
            ++ (le_bytes 8 s.power_uw
                ++ (le_bytes 4 s.core_freq_mhz
                    ++ (le_bytes 4 s.mem_freq_mhz
                        ++ (le_bytes 4 s.gpu_util_pct
                            ++ (le_bytes 4 s.mem_util_pct
                                ++ (le_bytes 1 s.throttle_reasons ++ s.pad))))))))

-- The number in the `w` bytes at an offset.
abbrev pub field_at : ℕ → ℕ → List ℕ → ℕ
field_at offset w bytes = le_value (take w (drop offset bytes))

unfoldable pub decode : List ℕ → GpuSample
decode b = record {
  timestamp_ns = field_at 0 8 b;
  temp_millideg = signed32 (field_at 8 4 b);
  fan_rpm = field_at 12 4 b;
  power_uw = field_at 16 8 b;
  core_freq_mhz = field_at 24 4 b;
  mem_freq_mhz = field_at 28 4 b;
  gpu_util_pct = field_at 32 4 b;
  mem_util_pct = field_at 36 4 b;
  throttle_reasons = field_at 40 1 b;
  pad = take 7 (drop 41 b);
}

-- The samples of a buffer, one behind another: what `n` of them take.
unfoldable pub encode_all : List GpuSample → List ℕ
encode_all [] = []
encode_all (s ∷ ss) = encode s ++ encode_all ss

unfoldable pub decode_all : ℕ → List ℕ → List GpuSample
decode_all zero b = []
decode_all (suc n) b = decode (take sample_size b) ∷ decode_all n (drop sample_size b)

le_value4 : (v : ℕ) → v < 2 ^ 32 → le_value (le_bytes 4 v) ≡ v
le_value4 v h = omega arith

le_value8 : (v : ℕ) → v < 2 ^ 64 → le_value (le_bytes 8 v) ≡ v
le_value8 v h = omega arith

le_value1 : (v : ℕ) → v < 2 ^ 8 → le_value (le_bytes 1 v) ≡ v
le_value1 v h = omega arith

pub length-encode : (s : GpuSample) → IsSample s → length (encode s) ≡ sample_size
unfolding encode
length-encode s v = omega (arith, v.pad_length)

-- A sample whose fields are within their C types is read back from its 48 bytes unchanged.
pub decode-encode : (s : GpuSample) → IsSample s → decode (encode s) ≡ s
unfolding encode decode
decode-encode s v i = record {
  timestamp_ns = le_value8 s.timestamp_ns v.time_fits i;
  temp_millideg = temp i;
  fan_rpm = le_value4 s.fan_rpm v.fan_fits i;
  power_uw = le_value8 s.power_uw v.power_fits i;
  core_freq_mhz = le_value4 s.core_freq_mhz v.core_fits i;
  mem_freq_mhz = le_value4 s.mem_freq_mhz v.mem_fits i;
  gpu_util_pct = le_value4 s.gpu_util_pct v.gpu_fits i;
  mem_util_pct = le_value4 s.mem_util_pct v.util_fits i;
  throttle_reasons = le_value1 s.throttle_reasons v.throttle_fits i;
  pad = take_all s.pad 7 (omega (arith, v.pad_length)) i;
}
  where
    temp : signed32 (le_value (le_bytes 4 (bits 32 s.temp_millideg))) ≡ s.temp_millideg
    temp =
        ap signed32 (le_value4 (bits 32 s.temp_millideg) (bits-lt 32 s.temp_millideg))
        ∙ signed32-bits s.temp_millideg v.temp_fits

pub length-encode_all :
    (ss : List GpuSample) → All IsSample ss → length (encode_all ss) ≡ length ss * sample_size
unfolding encode_all
length-encode_all [] v = refl
length-encode_all (s ∷ ss) v =
    omega (
      arith,
      length-append (encode s) (encode_all ss),
      length-encode s v.0,
      length-encode_all ss v.1,
    )

-- Samples whose fields are within their C types are read back from a buffer with their bytes
-- unchanged and in order.
pub decode_all-encode_all :
    (ss : List GpuSample) → All IsSample ss → decode_all (length ss) (encode_all ss) ≡ ss
unfolding decode_all encode_all
decode_all-encode_all [] v = refl
decode_all-encode_all (s ∷ ss) v =
    let size = sym (length-encode s v.0) in
    rw (
      take-append (encode s) (encode_all ss) sample_size size,
      drop-append (encode s) (encode_all ss) sample_size size,
      decode-encode s v.0,
      decode_all-encode_all ss v.1,
    )
