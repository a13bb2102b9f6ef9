-- ===== src/Nvml/Shown.antt =====
-- The cells of the comparison table as texts that fit their columns.
use lkm_char_dev.Base.{
  ℕ, ◌≤◌, ◌<◌, ◌≡◌, refl, sym, ap₂, arith, true, List, [], ◌∷◌, ◌++◌, Option, none, some, map, take,
  length, length-take, take_all, All, ◌==◌, Bool-cases, inl, inr, subst,
}
use lkm_char_dev.Sysfs.{bytes}
use lkm_char_dev.Printing.{Text, Printf, f, u, llu}
use lkm_char_dev.Printing.Columns.{print_row, read_row-print_row, print_row-plain}
use lkm_char_dev.Printing.Documented.{IsPrintf, IsClean, IsClean-append, decimal-IsClean}
use lkm_char_dev.Printing.Lines.{is_plain, is_plain-append, is_plain-take}
use lkm_char_dev.Nvml.Table.{
  Cell, Row, delta, opt_str, count_str, as_double, as_unsigned, as_long_long, reasons_str,
  state_str, difference,
}
use lkm_char_dev.Nvml.Output.{columns, padded_row, text, texts, row_text, rows_text, read_table_row}

-- A cell that is defined, and holds no newline and no blank at its end.
abbrev pub IsShown : Cell → Type 0
IsShown none = ⊥
IsShown (some t) = IsClean t

abbrev pub IsNarrow : Cell → Type 0
IsNarrow c = length (text c) ≤ 22

abbrev pub IsLegible : Row → Type 0
IsLegible r =
    (IsClean r.metric × (length r.metric ≤ 28))
    × (IsShown r.kernel × IsNarrow r.kernel)
    × (IsShown r.nvml × IsNarrow r.nvml)
    × (is_plain r.note ≡ true)

-- A text that its buffer did not cut.
uncut : (m : ℕ) (t : Text) → 22 < m → length (take m t) ≤ 22 → take m t ≡ t
uncut m t room narrow = take_all t m (omega (arith, narrow, length-take m t))

module _ (p : Printf) (doc : IsPrintf p) where
  buffered :
      (m : ℕ) (t : Text)
      → 22 < m
      → IsClean t
      → IsNarrow (some (take m t))
      → IsShown (some (take m t))
  buffered m t room clean narrow = subst IsClean (sym (uncut m t room narrow)) clean

  pub double-IsShown :
      (o : Option p.Double) (k : ℕ) (suffix : Text)
      → IsClean suffix
      → IsNarrow (opt_str p (as_double p o) (f k) suffix)
      → IsShown (opt_str p (as_double p o) (f k) suffix)
  unfolding opt_str
  double-IsShown none k suffix clean narrow = (refl, refl)
  double-IsShown (some x) k suffix clean narrow =
      buffered 63 (p.fixed 0 k x ++ suffix) (omega arith)
        (IsClean-append (p.fixed 0 k x) suffix (doc.fixed_clean 0 k x) clean) narrow

  pub unsigned-IsShown :
      (o : Option ℕ) (suffix : Text)
      → IsClean suffix
      → IsNarrow (opt_str p (as_unsigned p o) u suffix)
      → IsShown (opt_str p (as_unsigned p o) u suffix)
  unfolding opt_str
  unsigned-IsShown none suffix clean narrow = (refl, refl)
  unsigned-IsShown (some n) suffix clean narrow =
      buffered 63 (p.decimal n ++ suffix) (omega arith)
        (IsClean-append (p.decimal n) suffix (decimal-IsClean doc n) clean) narrow

  pub long_long-IsShown :
      (o : Option ℕ)
      → IsNarrow (opt_str p (as_long_long p o) llu [])
      → IsShown (opt_str p (as_long_long p o) llu [])
  unfolding opt_str
  long_long-IsShown none narrow = (refl, refl)
  long_long-IsShown (some n) narrow =
      buffered 63 (p.decimal n ++ []) (omega arith)
        (IsClean-append (p.decimal n) [] (decimal-IsClean doc n) (refl, refl)) narrow

  pub count-IsShown : (n : ℕ) (unit : Text) → IsClean unit → IsShown (count_str p n unit)
  unfolding count_str
  count-IsShown n unit clean = elim (Bool-cases (n == 0)) [
    | inl zeroed ↦ rw zeroed (refl, refl)
    | inr counted ↦ rw counted (IsClean-append (p.decimal n) unit (decimal-IsClean doc n) clean)
  ]

  pub reasons-IsShown : (o : Option ℕ) → IsNarrow (reasons_str p o) → IsShown (reasons_str p o)
  reasons-IsShown none narrow = (refl, refl)
  reasons-IsShown (some v) narrow =
      buffered 31 (bytes "0x" ++ p.hex 8 v) (omega arith)
        (IsClean-append (bytes "0x") (p.hex 8 v) (refl, refl) (doc.hex_clean 8 v)) narrow

  pub state-IsShown : (o : Option ℕ) → IsShown (state_str p o)
  state-IsShown none = (refl, refl)
  state-IsShown (some v) =
      IsClean-append (bytes "P") (p.decimal v) (refl, refl) (decimal-IsClean doc v)

  pub difference-plain :
      (x y : Option p.Double) (k : ℕ) (unit : Text)
      → is_plain unit ≡ true
      → is_plain (difference p x y k unit) ≡ true
  difference-plain none y k unit plain = refl
  difference-plain (some x) none k unit plain = refl
  difference-plain (some x) (some y) k unit plain =
      let number = p.fixed 0 k (p.sub x y) in
      is_plain-take 31 (delta ++ (number ++ unit)) (
        is_plain-append delta (number ++ unit) refl
          (is_plain-append number unit (doc.fixed_clean 0 k (p.sub x y)).0 plain))

-- A row whose cells are legible is printed, on one line, and read back.
row-told :
    (m : Text) (k n : Cell) (note : Text)
    → let r : Row = record { metric = m; kernel = k; nvml = n; note = note } in
      IsLegible r
      → (row_text r ≡ some (padded_row (texts r)))
        × (is_plain (padded_row (texts r)) ≡ true)
        × (read_table_row (padded_row (texts r)) ≡ texts r)
unfolding row_text
row-told m none n note (metric, (shown, _), _, _) = elim shown [ ]
row-told m (some k) none note (metric, _, (shown, _), _) = elim shown [ ]
row-told m (some k) (some n) note (((pm, tm), wm), ((pk, tk), wk), ((pn, tn), wn), pt) =
    let cs = m ∷ k ∷ n ∷ note ∷ [] in
    (
      refl,
      is_plain-append (bytes "  ") (print_row columns cs) refl
          (print_row-plain columns cs (pm, (pk, (pn, (pt, tt))))),
      read_row-print_row columns cs (wm, tm, (wk, tk, (wn, tn, tt))),
    )

pub rows_told :
    (rs : List Row)
    → All IsLegible rs
    → (rows_text rs ≡ some (map (λ r. padded_row (texts r)) rs))
      × All (λ l. is_plain l ≡ true) (map (λ r. padded_row (texts r)) rs)
      × (map read_table_row (map (λ r. padded_row (texts r)) rs) ≡ map texts rs)
unfolding rows_text
rows_told [] legible = (refl, tt, refl)
rows_told (r ∷ rs) (one, legible) =
    let told = row-told r.metric r.kernel r.nvml r.note one in
    let (all_printed, all_plain, all_read) = rows_told rs legible in
    let printed : row_text r ≡ some (padded_row (texts r)) = told.0 in
    (
      rw (rows_text, printed, all_printed) refl,
      (told.1, all_plain),
      ap₂ (λ x xs. x ∷ xs) told.2 all_read,
    )
