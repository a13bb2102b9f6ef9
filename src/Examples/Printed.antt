-- ===== src/Examples/Printed.antt =====
-- The `printf` of the tests does what is documented of one.
use lkm_char_dev.Base.{
  ℕ, zero, suc, ◌+◌, ◌/◌, ◌%◌, ◌^◌, ◌≤◌, ◌<◌, arith, [], ◌∷◌, length, length-append, All,
  All-append, ltb, Bool-cases, inl, inr,
}
use lkm_char_dev.Examples.{digits, printing}
use lkm_char_dev.Printing.Documented.{IsDigit, IsPrintf, IsClean-append, digits-IsClean}

digits-IsDigit : (fuel n : ℕ) → All IsDigit (digits fuel n)
digits-IsDigit zero n = tt
digits-IsDigit (suc fuel) n = elim (Bool-cases (ltb n 10)) [
  | inl few ↦
      let small : n < 10 = ground (arith, few) in
      rw few ((omega (arith, small), omega (arith, small)), tt)
  | inr many ↦ rw many (
      All-append IsDigit (digits fuel (n / 10)) ((b'0' + n % 10) ∷ [])
        (digits-IsDigit fuel (n / 10)) ((omega arith, omega arith), tt))
]

digits-short : (fuel n k : ℕ) → 1 ≤ k → n < 10 ^ k → length (digits fuel n) ≤ k
digits-short zero n k some few = omega arith
digits-short (suc fuel) n zero some few = omega arith
digits-short (suc fuel) n (suc zero) some few = ground arith
digits-short (suc fuel) n (suc (suc k)) some few = elim (Bool-cases (ltb n 10)) [
  | inl short ↦ rw short (omega arith)
  | inr long ↦
      let less : n / 10 < 10 ^ suc k = omega (arith, few) in
      let rest = digits-short fuel (n / 10) (suc k) (omega arith) less in
      rw long (omega (arith, rest, length-append (digits fuel (n / 10)) ((b'0' + n % 10) ∷ [])))
]

pub printing-IsPrintf : IsPrintf printing
printing-IsPrintf = record {
  decimal_digits = λ n. digits-IsDigit 20 n;
  decimal_short = λ n k some few. digits-short 20 n k some few;
  fixed_clean = λ w k x.
      IsClean-append (digits 20 (x / 10)) (b'.' ∷ (b'0' + x % 10) ∷ [])
        (digits-IsClean (digits 20 (x / 10)) (digits-IsDigit 20 (x / 10)))
        (ground arith, ground arith);
  hex_clean = λ w n. digits-IsClean (digits 20 n) (digits-IsDigit 20 n);
}
