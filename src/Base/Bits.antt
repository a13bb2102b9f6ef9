-- ===== src/Base/Bits.antt =====
-- `x & (2^k - 1)` is `x % 2^k`, and `n & (n - 1)` is 0 exactly at the powers of two: the two bit
-- tricks of the ring buffer, from the digit recursion of the native `bit_and`.
use Prim.Native.Nat.{digits, bit_and-bitwise, bit_and, min}
use Prim.Native.Nat.{ℕ, zero, suc, ◌+◌, ◌-◌, ◌*◌, ◌/◌, ◌%◌, ◌^◌, ◌≤◌}
use mathlib.Core.Path.{◌≡◌, refl, ap, sym, ◌∙◌}
use mathlib.Core.Logic.{◌≢◌}
use native.Mathlib.Omega.{arith}
use native.Mathlib.Decide.{ℕ_discrete}
use native.Mathlib.Nat.{
  pow-suc, one-le-pow, mod-add-div, add-mul-mod_self_left, mod-eq_of_lt, mod_self, mod-lt,
}

-- The conjunction of the binary digits, as far as the fuel goes.
abbrev conj : ℕ → ℕ → ℕ → ℕ
conj f a b = digits (λ b. zero) min f a b

conj-zero : (f b : ℕ) → conj f 0 b ≡ 0
conj-zero zero b = refl
conj-zero (suc f) b = refl

-- The lowest digit, and the rest.
conj-suc : (f a b : ℕ) → conj (suc f) a b ≡ conj f (a / 2) (b / 2) * 2 + min (a % 2) (b % 2)
conj-suc f zero b = omega (arith, conj-zero f (b / 2))
conj-suc f (suc a) b = refl

conj_self : (f a : ℕ) → a ≤ f → conj f a a ≡ a
conj_self zero a le = omega arith
conj_self (suc f) a le = omega (arith, conj-suc f a a, conj_self f (a / 2) (omega arith))

pub one-le-two_pow : (k : ℕ) → 1 ≤ 2 ^ k
one-le-two_pow k = one-le-pow k 2 (omega arith)

-- Half of `x` split at `P`, put together again.
mod-double : (P x : ℕ) → 1 ≤ P → x % (P * 2) ≡ x / 2 % P * 2 + x % 2
mod-double P x h =
    ap (λ t. t % (P * 2)) split
    ∙ add-mul-mod_self_left low (P * 2) (x / 2 / P)
    ∙ mod-eq_of_lt (omega (arith, mod-lt (x / 2) {m = P} h))
  where
    low : ℕ
    low = x / 2 % P * 2 + x % 2

    split : x ≡ low + P * 2 * (x / 2 / P)
    split = omega (arith, mod-add-div (x / 2) P)

-- The low `k + 1` digits: the lowest, and the low `k` of the rest.
mod_two_pow_suc : (k x : ℕ) → x % 2 ^ suc k ≡ x / 2 % 2 ^ k * 2 + x % 2
mod_two_pow_suc k x = rw pow-suc (mod-double (2 ^ k) x (one-le-two_pow k))

-- A mask of `k` ones keeps the low `k` digits.
conj_mask : (f k x : ℕ) → x ≤ f → conj f x (2 ^ k - 1) ≡ x % 2 ^ k
conj_mask zero k x le =
    let none : x ≡ 0 = omega arith in rw none (sym (mod-eq_of_lt (one-le-two_pow k)))
conj_mask (suc f) zero x le = omega (arith, conj-suc f x 0, conj_mask f 0 (x / 2) (omega arith))
conj_mask (suc f) (suc k) x le =
    let halved : (2 ^ suc k - 1) / 2 ≡ 2 ^ k - 1 = omega (arith, pow-suc 2 k, one-le-two_pow k) in
    let odd : (2 ^ suc k - 1) % 2 ≡ 1 = omega (arith, pow-suc 2 k, one-le-two_pow k) in
    rw (mod_two_pow_suc k x, conj-suc f x (2 ^ suc k - 1), halved)
      (omega (arith, conj_mask f k (x / 2) (omega arith), odd))

pub bit_and_mask : (k x : ℕ) → bit_and x (2 ^ k - 1) ≡ x % 2 ^ k
bit_and_mask k x = bit_and-bitwise x (2 ^ k - 1) ∙ conj_mask x k x (omega arith)

-- Four single digits.
conj_one : (f x : ℕ) → x ≤ f → conj f x 1 ≡ x % 2
conj_one f x le = conj_mask f 1 x le

conj_two : (f x : ℕ) → x ≤ f → conj f x 2 ≡ x / 2 % 2 * 2
conj_two zero x le = omega arith
conj_two (suc f) x le = omega (arith, conj-suc f x 2, conj_one f (x / 2) (omega arith))

conj_four : (f x : ℕ) → x ≤ f → conj f x 4 ≡ x / 4 % 2 * 4
conj_four zero x le = omega arith
conj_four (suc f) x le = omega (arith, conj-suc f x 4, conj_two f (x / 2) (omega arith))

conj_eight : (f x : ℕ) → x ≤ f → conj f x 8 ≡ x / 8 % 2 * 8
conj_eight zero x le = omega arith
conj_eight (suc f) x le = omega (arith, conj-suc f x 8, conj_four f (x / 2) (omega arith))

-- The four lowest digits of a number, each where it stands.
pub bit_and_digits :
    (x : ℕ)
    → (bit_and x 1 ≡ x % 2)
      × (bit_and x 2 ≡ x / 2 % 2 * 2)
      × (bit_and x 4 ≡ x / 4 % 2 * 4)
      × (bit_and x 8 ≡ x / 8 % 2 * 8)
bit_and_digits x = (
  bit_and-bitwise x 1 ∙ conj_one x x (omega arith),
  bit_and-bitwise x 2 ∙ conj_two x x (omega arith),
  bit_and-bitwise x 4 ∙ conj_four x x (omega arith),
  bit_and-bitwise x 8 ∙ conj_eight x x (omega arith),
)

abbrev pub IsPow2 : ℕ → Type 0
IsPow2 n = (k : ℕ) × (n ≡ 2 ^ k)

pub bit_and-IsPow2 : {n : ℕ} → IsPow2 n → bit_and n (n - 1) ≡ 0
bit_and-IsPow2 {n} (k, e) = rw e (bit_and_mask k (2 ^ k) ∙ mod_self (2 ^ k))

-- With fuel for the halvings: an even number halves, and an odd one is 1.
conj-IsPow2 : (f n : ℕ) → n ≤ f → n ≢ 0 → conj f n (n - 1) ≡ 0 → IsPow2 n
conj-IsPow2 zero n le ne e = absurd (omega arith)
conj-IsPow2 (suc f) n le ne e = elim (ℕ_discrete (n % 2) 0) [
  | yes even ↦
      let below : (n - 1) / 2 ≡ n / 2 - 1 = omega arith in
      let rest : conj f (n / 2) ((n - 1) / 2) ≡ 0 = omega (arith, conj-suc f n (n - 1)) in
      let (k, half) = conj-IsPow2 f (n / 2) (omega arith) (omega arith) (rw below at rest) in
      (suc k, omega (arith, pow-suc 2 k))
  | no odd ↦
      let below : (n - 1) / 2 ≡ n / 2 = omega arith in
      let rest : conj f (n / 2) ((n - 1) / 2) ≡ 0 = omega (arith, conj-suc f n (n - 1)) in
      let none : n / 2 ≡ 0 = sym (conj_self f (n / 2) (omega arith)) ∙ rw below at rest in
      (0, omega arith)
]

-- `n & (n - 1)` is 0 only at the powers of two.
pub IsPow2-of_bit_and : (n : ℕ) → n ≢ 0 → bit_and n (n - 1) ≡ 0 → IsPow2 n
IsPow2-of_bit_and n ne e = conj-IsPow2 n n (omega arith) ne (sym (bit_and-bitwise n (n - 1)) ∙ e)
