-- ===== src/Printing/Lines.antt =====
-- A text of lines, each ended by a newline, and a reading of it as lines.
use lkm_char_dev.Base.{
  ℕ, zero, suc, ◌≡◌, ◌∙◌, refl, ap, Bool, true, false, List, [], ◌∷◌, ◌++◌, All, ◌==◌,
  if◌then◌else◌, take, Bool-cases, inl, inr,
}
use lkm_char_dev.Printing.{Text}

-- A text without a newline.
abbrev pub is_plain : Text → Bool
is_plain [] = true
is_plain (b ∷ t) = let rest = is_plain t in if b == b'\n' then false else rest

abbrev pub print_lines : List Text → Text
print_lines [] = []
print_lines (l ∷ ls) = l ++ (b'\n' ∷ print_lines ls)

abbrev pub put_first : ℕ → List Text → List Text
put_first b [] = (b ∷ []) ∷ []
put_first b (l ∷ ls) = (b ∷ l) ∷ ls

unfoldable pub read_lines : Text → List Text
read_lines [] = []
read_lines (b ∷ t) = let rest = read_lines t in if b == b'\n' then [] ∷ rest else put_first b rest

read_lines-line :
    (l t : Text) → is_plain l ≡ true → read_lines (l ++ (b'\n' ∷ t)) ≡ l ∷ read_lines t
unfolding read_lines
read_lines-line [] t plain = refl
read_lines-line (b ∷ l) t plain = elim (Bool-cases (b == b'\n')) [
  | inl end ↦ let wrong : false ≡ true = rw end at plain in cc
  | inr inside ↦ rw (inside, read_lines-line l t (rw inside at plain)) refl
]

-- Lines without newlines are read back.
pub read_lines-print_lines :
    (ls : List Text) → All (λ l. is_plain l ≡ true) ls → read_lines (print_lines ls) ≡ ls
unfolding read_lines
read_lines-print_lines [] plain = refl
read_lines-print_lines (l ∷ ls) (first, rest) =
    read_lines-line l (print_lines ls) first ∙ ap (λ t. l ∷ t) (read_lines-print_lines ls rest)

pub is_plain-append :
    (s t : Text) → is_plain s ≡ true → is_plain t ≡ true → is_plain (s ++ t) ≡ true
is_plain-append [] t hs ht = ht
is_plain-append (b ∷ s) t hs ht = elim (Bool-cases (b == b'\n')) [
  | inl end ↦ let wrong : false ≡ true = rw end at hs in cc
  | inr inside ↦ rw inside (is_plain-append s t (rw inside at hs) ht)
]

-- The lines before the first empty one.
abbrev pub until_empty : List Text → List Text
until_empty [] = []
until_empty ([] ∷ ls) = []
until_empty ((b ∷ l) ∷ ls) = (b ∷ l) ∷ until_empty ls

abbrev pub is_empty : Text → Bool
is_empty [] = true
is_empty (b ∷ t) = false

pub until_empty-append :
    (ls ms : List Text) → All (λ l. is_empty l ≡ false) ls → until_empty (ls ++ ([] ∷ ms)) ≡ ls
until_empty-append [] ms full = refl
until_empty-append ([] ∷ ls) ms (first, full) = cc
until_empty-append ((b ∷ l) ∷ ls) ms (first, full) =
    ap (λ t. (b ∷ l) ∷ t) (until_empty-append ls ms full)

abbrev pub all_plain : List Text → Bool
all_plain [] = true
all_plain (l ∷ ls) = let rest = all_plain ls in if is_plain l then rest else false

pub all_plain_lem : (ls : List Text) → all_plain ls ≡ true → All (λ l. is_plain l ≡ true) ls
all_plain_lem [] plain = tt
all_plain_lem (l ∷ ls) plain = elim (Bool-cases (is_plain l)) [
  | inl first ↦ (first, all_plain_lem ls (rw first at plain))
  | inr wrong ↦ let no : false ≡ true = rw wrong at plain in cc
]

pub is_plain-take : (n : ℕ) (t : Text) → is_plain t ≡ true → is_plain (take n t) ≡ true
is_plain-take zero t plain = refl
is_plain-take (suc n) [] plain = refl
is_plain-take (suc n) (b ∷ t) plain = elim (Bool-cases (b == b'\n')) [
  | inl end ↦ let wrong : false ≡ true = rw end at plain in cc
  | inr inside ↦ rw inside (is_plain-take n t (rw inside at plain))
]
