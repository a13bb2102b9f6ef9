-- ===== src/TelemReader/Throttle.antt =====
-- The throttle column of `print_sample` in user/gpu_telem_reader.c: how long it is, and what it tells.
use lkm_char_dev.Base.{ℕ, ◌+◌, ◌%◌, ◌≡◌, arith}
use lkm_char_dev.Base.{List, ◌∷◌, if◌then◌else◌, ◌==◌, length, max, ◌/◌, ◌*◌}
use lkm_char_dev.Base.Bits.{bit_and_digits}
use lkm_char_dev.TelemReader.{throttle_text}

-- How many of the four known bits are set.
abbrev pub known_bits : ℕ → ℕ
known_bits r = r % 2 + r / 2 % 2 + r / 4 % 2 + r / 8 % 2

-- The throttle column has four characters for each known bit that is set, and a single one where
-- none is: with its NUL it fits the buffer of 48.
pub length-throttle_text : (r : ℕ) → length (throttle_text r) ≡ max 1 (4 * known_bits r)
unfolding throttle_text
length-throttle_text r =
    let (power, thermal, current, util) = bit_and_digits r in
    rw (power, thermal, current, util) (ground arith)

-- The bit of a reason, by the first letter of its name.
abbrev pub reason_bit : ℕ → ℕ
reason_bit c = if c == b'P' then 1 else if c == b'T' then 2 else if c == b'C' then 4 else 8

-- The bits that a throttle column names, four characters each.
abbrev pub told_reasons : List ℕ → ℕ
told_reasons (a ∷ b ∷ c ∷ d ∷ rest) = reason_bit a + told_reasons rest
told_reasons _ = 0

-- The throttle column tells the reasons and no others: read back four characters at a time, it
-- names exactly the low four bits of the mask, for any mask; a dash names none.
pub told_reasons-throttle_text : (r : ℕ) → told_reasons (throttle_text r) ≡ r % 16
unfolding throttle_text
told_reasons-throttle_text r =
    let (power, thermal, current, util) = bit_and_digits r in
    rw (power, thermal, current, util) (ground arith)
