-- ===== src/Printing/Documented.antt =====
-- What is documented of `printf`'s numbers: how long an integer is, and that no number holds a
-- newline or ends in a blank.
use lkm_char_dev.Base.{
  ℕ, ◌^◌, ◌≤◌, ◌<◌, ◌≡◌, refl, arith, true, [], ◌∷◌, ◌++◌, length, All, append-nil,
}
use lkm_char_dev.Printing.{Text, Printf}
use lkm_char_dev.Printing.Lines.{is_plain, is_plain-append}
use lkm_char_dev.Printing.Columns.{trim}

abbrev pub IsDigit : ℕ → Type 0
IsDigit b = (b'0' ≤ b) × (b ≤ b'9')

-- A text that holds no newline and does not end in a blank.
abbrev pub IsClean : Text → Type 0
IsClean t = (is_plain t ≡ true) × (trim t ≡ t)

pub record IsPrintf (p : Printf) : Type 0 where
  pub decimal_digits : (n : ℕ) → All IsDigit (p.decimal n)
  pub decimal_short : (n k : ℕ) → 1 ≤ k → n < 10 ^ k → length (p.decimal n) ≤ k
  pub fixed_clean : (width k : ℕ) (x : p.Double) → IsClean (p.fixed width k x)
  pub hex_clean : (width n : ℕ) → IsClean (p.hex width n)

pub digits-plain : (t : Text) → All IsDigit t → is_plain t ≡ true
digits-plain [] digits = refl
digits-plain (b ∷ t) (digit, digits) = let rest = digits-plain t digits in ground (arith, rest)

pub digits-trim : (t : Text) → All IsDigit t → trim t ≡ t
digits-trim [] digits = refl
digits-trim (b ∷ []) (digit, digits) = ground arith
digits-trim (b ∷ c ∷ t) (digit, digits) = rw (digits-trim (c ∷ t) digits) refl

trim-append :
    (s : Text) (b : ℕ) (t : Text) → trim (b ∷ t) ≡ b ∷ t → trim (s ++ (b ∷ t)) ≡ s ++ (b ∷ t)
trim-append [] b t ends = ends
trim-append (a ∷ []) b t ends = let last = trim-append [] b t ends in rw (trim, last) refl
trim-append (a ∷ c ∷ s) b t ends = rw (trim-append (c ∷ s) b t ends) refl

pub IsClean-append : (s t : Text) → IsClean s → IsClean t → IsClean (s ++ t)
IsClean-append s [] hs ht = rw (append-nil s) hs
IsClean-append s (b ∷ t) (hs, es) (ht, et) = (is_plain-append s (b ∷ t) hs ht, trim-append s b t et)

pub digits-IsClean : (t : Text) → All IsDigit t → IsClean t
digits-IsClean t digits = (digits-plain t digits, digits-trim t digits)

pub decimal-IsClean : {p : Printf} → IsPrintf p → (n : ℕ) → IsClean (p.decimal n)
decimal-IsClean {p} doc n = digits-IsClean (p.decimal n) (doc.decimal_digits n)
