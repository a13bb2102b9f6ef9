-- ===== src/Uapi/Selected.antt =====
-- What holds of all samples holds of all samples of a selection.
use lkm_char_dev.Base.{◌<◌, ◌^◌, sym, subst, List, [], ◌∷◌, All}
use lkm_char_dev.Base.Int.{ℤ, pos, negsuc, FitsS32}
use lkm_char_dev.Uapi.{GpuSample, IsSample}
use mathlib.Core.List.{
  Sublist, Mem, mem-cons_self, mem-cons_of_mem, eq-or-mem_of_mem-cons, not-mem-nil,
}
use mathlib.Core.List.Sublist
use mathlib.Core.Logic.Or
use native.Mathlib.Bridge.{le_prop}
use native.Mathlib.Decide.{ℕ_discrete}

All-IsProp {ℓ κ} :
    {A : Type ℓ} {P : A → Type κ} → ((x : A) → IsProp (P x)) → (xs : List A) → IsProp (All P xs)
All-IsProp prop [] = hlevel
All-IsProp prop (x ∷ xs) = let head = prop x in let rest = All-IsProp prop xs in hlevel

FitsS32-IsProp : (z : ℤ) → IsProp (FitsS32 z)
FitsS32-IsProp (pos n) = le_prop
FitsS32-IsProp (negsuc n) = le_prop

pub IsSample-IsProp : (s : GpuSample) → IsProp (IsSample s)
IsSample-IsProp s =
    let temp = FitsS32-IsProp s.temp_millideg in
    let bytes = All-IsProp {P = λ b. b < 2 ^ 8} (λ b. le_prop) s.pad in
    hlevel (le_prop, ℕ_discrete, temp, bytes)

module _ {ℓ κ} {A : Type ℓ} {P : A → Type κ} (prop : (x : A) → IsProp (P x)) where
  of_mem : {x : A} (xs : List A) → Mem x xs → All P xs → P x
  of_mem [] m h = absurd (not-mem-nil m)
  of_mem {x} (y ∷ ys) m h =
      Or.elim (prop x) (eq-or-mem_of_mem-cons m) (λ e. subst P (sym e) h.0)
        (λ later. of_mem ys later h.1)

  all_of_mem : (xs : List A) → ((x : A) → Mem x xs → P x) → All P xs
  all_of_mem [] h = tt
  all_of_mem (x ∷ xs) h = (h x mem-cons_self, all_of_mem xs (λ y m. h y (mem-cons_of_mem x m)))

  pub Sublist-All : {xs ys : List A} → Sublist xs ys → All P ys → All P xs
  Sublist-All {xs} {ys} part ok = all_of_mem xs (λ x m. of_mem ys (Sublist.subset part x m) ok)

-- Of samples that are within their C types, a selection is too.
pub Sublist-IsSample : {xs ys : List GpuSample} → Sublist xs ys → All IsSample ys → All IsSample xs
Sublist-IsSample = Sublist-All IsSample-IsProp
