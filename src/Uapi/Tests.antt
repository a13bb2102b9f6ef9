-- ===== src/Uapi/Tests.antt =====
-- Bytes of concrete samples, and the layout's theorems at them.
use lkm_char_dev.Base.{◌≡◌, refl, ◌∷◌, ◌++◌, replicate}
use lkm_char_dev.Base.Int.{negsuc}
use lkm_char_dev.Examples.{sample, three, sample1-IsSample, sample2-IsSample, sample3-IsSample}
use lkm_char_dev.Uapi.Layout.{encode, decode, encode_all, decode_all, decode_all-encode_all}

-- -1 is all ones, behind a time of 0x0102.
encode_bytes :
    encode (record (sample 0x0102) { temp_millideg = negsuc 0 })
    ≡ 2 ∷ 1 ∷ replicate 6 0 ++ (255 ∷ 255 ∷ 255 ∷ 255 ∷ replicate 36 0)
unfolding encode
encode_bytes = refl

decode_bytes :
    decode (2 ∷ 1 ∷ replicate 6 0 ++ (255 ∷ 255 ∷ 255 ∷ 255 ∷ replicate 36 0))
    ≡ record (sample 0x0102) { temp_millideg = negsuc 0 }
unfolding decode
decode_bytes = refl

decode_all-encode_all_example : decode_all 3 (encode_all three) ≡ three
decode_all-encode_all_example =
    decode_all-encode_all three (sample1-IsSample, (sample2-IsSample, (sample3-IsSample, tt)))
