-- ===== src/Sysfs/Trim.antt =====
-- What is left of a buffer after the loop that cuts blanks off its end.
use lkm_char_dev.Base.{ℕ, zero, suc, ◌≤◌, ◌<◌, ◌≡◌, arith, true, false, Bool-cases, inl, inr}
use lkm_char_dev.Base.{List, get_elem?}
use native.Mathlib.Decide.{ℕ_discrete}
use lkm_char_dev.Sysfs.{is_blank, trim_length}

pub trim_length-le : (buf : List ℕ) (n : ℕ) → trim_length buf n ≤ n
unfolding trim_length
trim_length-le buf zero = omega arith
trim_length-le buf (suc n) = ground (arith, trim_length-le buf n)

-- What the trimming loop cuts off is blank throughout: every index from where it stops up to where
-- it started holds a newline or a blank.
pub trim_length_cuts_blanks :
    (buf : List ℕ) (n i : ℕ) → trim_length buf n ≤ i → i < n → is_blank (get_elem? buf i) ≡ true
unfolding trim_length
trim_length_cuts_blanks buf zero i from to = absurd (omega arith)
trim_length_cuts_blanks buf (suc n) i from to = elim (Bool-cases (is_blank (get_elem? buf n))) [
  | inl blank ↦ elim (ℕ_discrete i n) [
    | yes e ↦ rw e blank
    | no ne ↦ trim_length_cuts_blanks buf n i (ground arith) (omega arith)
  ]
  | inr solid ↦ absurd (ground arith)
]

-- The trimming loop stops behind a byte that is neither a newline nor a blank, or at the start of
-- the buffer.
pub trim_length_keeps_solid :
    (buf : List ℕ) (n i : ℕ) → trim_length buf n ≡ suc i → is_blank (get_elem? buf i) ≡ false
unfolding trim_length
trim_length_keeps_solid buf zero i e = absurd (omega arith)
trim_length_keeps_solid buf (suc n) i e = elim (Bool-cases (is_blank (get_elem? buf n))) [
  | inl blank ↦ trim_length_keeps_solid buf n i (ground arith)
  | inr solid ↦ let same : i ≡ n = ground arith in rw same solid
]
