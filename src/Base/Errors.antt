-- ===== src/Base/Errors.antt =====
-- Faults and failures as `Option`, with `do`; the fixed-width casts of C.
use Prim.Native.Nat.{ℕ, ◌%◌, ◌^◌}
use mathlib.Core.Path.{◌≡◌, refl, ap}
use mathlib.Core.Option.{Option, none, some}
use native.Mathlib.Omega.{arith}

infixl 5 ◌>>=◌
abbrev pub ◌>>=◌ {ℓ κ} : {A : Type ℓ} {B : Type κ} → Option A → (A → Option B) → Option B
none >>= f = none
some a >>= f = f a

-- A cast to `u32`, and the wrap of `u32` arithmetic.
abbrev pub u32 : ℕ → ℕ
u32 n = n % 2 ^ 32

-- A cast to `u64`, and the wrap of `u64` arithmetic.
abbrev pub u64 : ℕ → ℕ
u64 n = n % 2 ^ 64

-- Inversion of a bind that succeeds.
pub >>=-eq-some {ℓ κ} :
    {A : Type ℓ} {B : Type κ} (m : Option A) (f : A → Option B) {b : B}
    → (m >>= f) ≡ some b
    → (a : A) × (m ≡ some a) × (f a ≡ some b)
>>=-eq-some none f h = ground arith
>>=-eq-some (some a) f h = (a, refl, h)

value_or {ℓ} : {A : Type ℓ} → A → Option A → A
value_or d none = d
value_or d (some a) = a

pub some_inj {ℓ} : {A : Type ℓ} {a b : A} → some a ≡ some b → a ≡ b
unfolding value_or
some_inj {a} p = ap (value_or a) p
