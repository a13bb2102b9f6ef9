-- ===== src/Lifecycle/Pow2.antt =====
-- `next_pow2`: its result, and the end of its loop.
use lkm_char_dev.Base.{
  ℕ, zero, suc, ◌+◌, ◌*◌, ◌^◌, ◌≤◌, ◌<◌, ◌≡◌, ◌∙◌, refl, ap, arith, inl, inr, ◌⊎◌,
}
use lkm_char_dev.Base.{none, some, u32, lt→ltb, le→not_ltb}
use lkm_char_dev.Base.Bits.{IsPow2}
use native.Mathlib.Nat.{pow-suc, pow-le-pow_right}
use native.Mathlib.Decide.{dec_lt}
use lkm_char_dev.Lifecycle.{next_pow2_from, next_pow2}

-- A power of two that is at least `n`, with none between: `p` is 1, or half of it is too small.
abbrev pub IsNextPow2 : ℕ → ℕ → Type 0
IsNextPow2 n p = IsPow2 p × (n ≤ p) × ((p ≡ 1) ⊎ (p < 2 * n))

-- A power of two up to 2^30 doubles without a wrap.
double_fits : (k : ℕ) → k ≤ 30 → u32 (2 ^ k * 2) ≡ 2 ^ suc k
double_fits k small =
    let most : 2 ^ k ≤ 2 ^ 30 = pow-le-pow_right (omega arith) small in omega (arith, pow-suc 2 k)

-- From 2^k, with a test for it and for each doubling up to 2^31.
next_pow2_from-IsNextPow2 :
    (fuel k n : ℕ)
    → 31 ≡ fuel + k
    → n ≤ 2 ^ 31
    → (2 ^ k ≡ 1) ⊎ (2 ^ k < 2 * n)
    → (p : ℕ) × (next_pow2_from (suc fuel) (2 ^ k) n ≡ some p) × IsNextPow2 n p
unfolding next_pow2_from
next_pow2_from-IsNextPow2 zero k n e le low =
    let last : k ≡ 31 = omega arith in
    let enough : n ≤ 2 ^ k = rw last le in
    (2 ^ k, rw (le→not_ltb (2 ^ k) n enough), ((k, refl), enough, low))
next_pow2_from-IsNextPow2 (suc fuel) k n e le low = elim (dec_lt (2 ^ k) n) [
  | yes more ↦
      let next = double_fits k (omega arith) in
      rw (lt→ltb (2 ^ k) n more, next)
        (next_pow2_from-IsNextPow2 fuel (suc k) n (omega arith) le
          (inr (omega (arith, pow-suc 2 k))))
  | no done ↦
      let enough : n ≤ 2 ^ k = omega arith in
      (2 ^ k, rw (le→not_ltb (2 ^ k) n enough), ((k, refl), enough, low))
]

-- For every size up to 2^31 `next_pow2` returns, and what it returns is the least power of two that
-- is not below the size.
pub next_pow2-IsNextPow2 : (n : ℕ) → n ≤ 2 ^ 31 → (p : ℕ) × (next_pow2 n ≡ some p) × IsNextPow2 n p
unfolding next_pow2
next_pow2-IsNextPow2 n le = next_pow2_from-IsNextPow2 31 0 n refl le (inl refl)

-- What `p` can be in the loop: a power of two below 2^32, or 0 once it has been shifted out.
abbrev Shifted : ℕ → Type 0
Shifted p = (p ≡ 0) ⊎ ((k : ℕ) × (k ≤ 31) × (p ≡ 2 ^ k))

Shifted-step : (p : ℕ) → Shifted p → Shifted (u32 (p * 2))
Shifted-step p (inl e) = inl (omega arith)
Shifted-step p (inr (k, small, e)) = elim (dec_lt k 31) [
  | yes more ↦ inr (suc k, omega arith, rw e (double_fits k (omega arith)))
  | no last ↦
      let top : k ≡ 31 = omega arith in
      let at : p ≡ 2 ^ 31 = e ∙ ap (λ t. 2 ^ t) top in inl (omega arith)
]

Shifted-le : (p : ℕ) → Shifted p → p ≤ 2 ^ 31
Shifted-le p (inl e) = omega arith
Shifted-le p (inr (k, small, e)) = rw e (pow-le-pow_right (omega arith) small)

next_pow2_from-none : (fuel p n : ℕ) → Shifted p → 2 ^ 31 < n → next_pow2_from fuel p n ≡ none
unfolding next_pow2_from
next_pow2_from-none zero p n s big = refl
next_pow2_from-none (suc fuel) p n s big =
    rw (lt→ltb p n (omega (arith, Shifted-le p s)))
      (next_pow2_from-none fuel (u32 (p * 2)) n (Shifted-step p s) big)

-- Above 2^31 the loop of `next_pow2` does not end: from 1 on, no number of rounds is enough.
pub next_pow2_diverges : (fuel n : ℕ) → 2 ^ 31 < n → next_pow2_from fuel 1 n ≡ none
next_pow2_diverges fuel n big = next_pow2_from-none fuel 1 n (inr (0, omega arith, refl)) big
