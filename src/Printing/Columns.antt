-- ===== src/Printing/Columns.antt =====
-- `printf` of a line of columns, each but the last padded to a width by `%-<width>s` and followed by
-- two blanks, and a reading of such a line by its widths.
use Prim.Native.Char.{code}
use Prim.Native.String.{String}
use lkm_char_dev.Base.{
  ℕ, zero, suc, ◌+◌, ◌-◌, ◌/◌, ◌%◌, ◌≤◌, ◌≡◌, ◌∙◌, refl, sym, ap, ap₂, arith, true, false, List, [],
  ◌∷◌, ◌++◌, length, take, drop, replicate, All, ltb, ◌==◌, if◌then◌else◌, take-append, drop-append,
  append_assoc, length-append, length-replicate,
}
use lkm_char_dev.Printing.{Text}
use lkm_char_dev.Printing.Lines.{is_plain, is_empty, is_plain-append}

-- The bytes of a character below 2^16 in UTF-8.
abbrev pub utf8_char : ℕ → Text
utf8_char c =
    if ltb c 0x80
    then c ∷ []
    else if ltb c 0x800
    then (0xC0 + c / 64) ∷ (0x80 + c % 64) ∷ []
    else (0xE0 + c / 4096) ∷ (0x80 + c / 64 % 64) ∷ (0x80 + c % 64) ∷ []

abbrev pub utf8 : String → Text
utf8 String.[] = []
utf8 (String.◌∷◌ c s) = utf8_char (code c) ++ utf8 s

-- `%-<width>s`
abbrev pub pad : ℕ → Text → Text
pad width t = t ++ replicate (width - length t) b' '

-- A line, less its newline: columns of these widths, and a last one.
unfoldable pub print_row : List ℕ → List Text → Text
print_row [] [] = []
print_row [] (c ∷ cs) = c
print_row (w ∷ ws) [] = []
print_row (w ∷ ws) (c ∷ cs) = pad w c ++ (b' ' ∷ b' ' ∷ print_row ws cs)

-- A text without the blanks at its end.
abbrev pub trim : Text → Text
trim [] = []
trim (b ∷ t) = elim (trim t) [ [] ↦ if b == b' ' then [] else b ∷ [] | ◌∷◌ c rest ↦ b ∷ c ∷ rest ]

-- The columns of a line.
unfoldable pub read_row : List ℕ → Text → List Text
read_row [] t = t ∷ []
read_row (w ∷ ws) t = trim (take w t) ∷ read_row ws (drop (w + 2) t)

-- Texts that fill no column and do not end in a blank, one for each column and one behind them.
abbrev pub Fits : List ℕ → List Text → Type 0
Fits [] [] = ⊥
Fits [] (c ∷ []) = Unit
Fits [] (c ∷ d ∷ cs) = ⊥
Fits (w ∷ ws) [] = ⊥
Fits (w ∷ ws) (c ∷ cs) = (length c ≤ w) × (trim c ≡ c) × Fits ws cs

trim-blanks : (n : ℕ) → trim (replicate n b' ') ≡ []
trim-blanks zero = refl
trim-blanks (suc n) = rw (trim-blanks n) refl

trim-append-blanks : (t : Text) (n : ℕ) → trim (t ++ replicate n b' ') ≡ trim t
trim-append-blanks [] n = trim-blanks n
trim-append-blanks (b ∷ t) n = rw (trim-append-blanks t n) refl

length-pad : (w : ℕ) (c : Text) → length c ≤ w → length (pad w c) ≡ w
length-pad w c fits = omega (
  arith,
  length-append c (replicate (w - length c) b' '),
  length-replicate {A = ℕ} (w - length c) b' ',
)

-- A line is read back as the texts that it was printed from.
pub read_row-print_row :
    (ws : List ℕ) (cs : List Text) → Fits ws cs → read_row ws (print_row ws cs) ≡ cs
unfolding read_row print_row
read_row-print_row [] [] fits = elim fits [ ]
read_row-print_row [] (c ∷ []) fits = refl
read_row-print_row [] (c ∷ d ∷ cs) fits = elim fits [ ]
read_row-print_row (w ∷ ws) [] fits = elim fits [ ]
read_row-print_row (w ∷ ws) (c ∷ cs) (short, ends, fits) =
    let rest = print_row ws cs in
    let width = length-pad w c short in
    let cell : trim (take w (pad w c ++ (b' ' ∷ b' ' ∷ rest))) ≡ c =
      ap trim (take-append (pad w c) (b' ' ∷ b' ' ∷ rest) w (sym width))
      ∙ trim-append-blanks c (w - length c)
      ∙ ends in
    let two : pad w c ++ (b' ' ∷ b' ' ∷ rest) ≡ (pad w c ++ (b' ' ∷ b' ' ∷ [])) ++ rest =
      sym (append_assoc (pad w c) (b' ' ∷ b' ' ∷ []) rest) in
    let behind : drop (w + 2) (pad w c ++ (b' ' ∷ b' ' ∷ rest)) ≡ rest =
      ap (drop (w + 2)) two
      ∙ drop-append (pad w c ++ (b' ' ∷ b' ' ∷ [])) rest (w + 2)
          (omega (arith, width, length-append (pad w c) (b' ' ∷ b' ' ∷ []))) in
    ap₂ (λ x xs. x ∷ xs) cell (ap (read_row ws) behind ∙ read_row-print_row ws cs fits)

blanks-plain : (n : ℕ) → is_plain (replicate n b' ') ≡ true
blanks-plain zero = refl
blanks-plain (suc n) = blanks-plain n

-- A line whose columns have no newline has none.
pub print_row-plain :
    (ws : List ℕ) (cs : List Text)
    → All (λ c. is_plain c ≡ true) cs
    → is_plain (print_row ws cs) ≡ true
unfolding print_row
print_row-plain [] [] plain = refl
print_row-plain [] (c ∷ cs) plain = plain.0
print_row-plain (w ∷ ws) [] plain = refl
print_row-plain (w ∷ ws) (c ∷ cs) (first, plain) =
    is_plain-append (pad w c) (b' ' ∷ b' ' ∷ print_row ws cs)
      (is_plain-append c (replicate (w - length c) b' ') first (blanks-plain (w - length c)))
      (print_row-plain ws cs plain)

-- A line of two columns and more is not empty.
pub print_row-full :
    (w : ℕ) (ws : List ℕ) (c : Text) (cs : List Text)
    → is_empty (print_row (w ∷ ws) (c ∷ cs)) ≡ false
unfolding print_row
print_row-full w ws [] cs = padded (w - 0)
  where
    padded : (n : ℕ) → is_empty (replicate n b' ' ++ (b' ' ∷ b' ' ∷ print_row ws cs)) ≡ false
    padded zero = refl
    padded (suc n) = refl
print_row-full w ws (b ∷ c) cs = refl
