-- ===== src/Nvml/Defined.antt =====
-- When the output of the comparison tool is defined.
use lkm_char_dev.Base.{
  ℕ, ◌≡◌, ◌∙◌, ◌↔◌, refl, arith, true, false, Bool, List, [], ◌∷◌, Option, none, some,
  if◌then◌else◌,
}
use lkm_char_dev.Uapi.{GpuSample}
use lkm_char_dev.Printing.{Text, Printf, f}
use lkm_char_dev.Nvml.{NvmlCalls, DeviceCalls}
use lkm_char_dev.Nvml.Main.{nvml_main}
use lkm_char_dev.Nvml.Table.{Row, opt_str, count_str, as_double, nvml_rows, plain_rows}
use lkm_char_dev.Nvml.Cells.{
  is_defined, is_absent, temp_defined, unsigned_defined, long_long_defined, reasons_defined,
  state_defined,
}
use lkm_char_dev.Nvml.Output.{
  row_text, rows_text, nvml_output, plain_output, under, nvml_table, plain_table,
}

abbrev pub both_defined : Row → Bool
both_defined r = if is_defined r.kernel then is_defined r.nvml else false

abbrev pub all_defined : List Row → Bool
all_defined [] = true
all_defined (r ∷ rs) = let rest = all_defined rs in if both_defined r then rest else false

abbrev pub is_some {ℓ} : {A : Type ℓ} → Option A → Bool
is_some none = false
is_some (some x) = true

row_defined : (r : Row) → is_some (row_text r) ≡ both_defined r
unfolding row_text
row_defined r = ground arith

rows_defined : (rs : List Row) → is_some (rows_text rs) ≡ all_defined rs
unfolding rows_text
rows_defined [] = refl
rows_defined (r ∷ rs) =
    let one = row_defined r in let rest = rows_defined rs in ground (arith, one, rest)

module _ (p : Printf) where
  double_defined :
      (o : Option p.Double) (k : ℕ) (suffix : Text)
      → is_defined (opt_str p (as_double p o) (f k) suffix) ≡ true
  unfolding opt_str
  double_defined none k suffix = refl
  double_defined (some x) k suffix = refl

  count_defined : (n : ℕ) (unit : Text) → is_defined (count_str p n unit) ≡ true
  unfolding count_str
  count_defined n unit = ground arith

  nvml_cells :
      (n : NvmlCalls) (s : GpuSample) → all_defined (nvml_rows p n s) ≡ is_absent n.temperature
  unfolding nvml_rows
  nvml_cells n s =
      simp
        (
          double_defined, count_defined, temp_defined, unsigned_defined, long_long_defined,
          reasons_defined, state_defined,
        )
        (same (is_absent n.temperature))
    where
      same : (b : Bool) → (if b then true else false) ≡ b
      same true = refl
      same false = refl

  plain_cells : (s : GpuSample) → all_defined (plain_rows p s) ≡ true
  unfolding plain_rows
  plain_cells s = simp (double_defined, count_defined)

  under_some :
      (banner : List Text) (table : List Text → List Text) (rows : Option (List Text))
      → is_some (under banner table rows) ≡ is_some rows
  under_some banner table none = refl
  under_some banner table (some rows) = refl

  nvml_shown :
      (banner : List Text) (n : NvmlCalls) (s : GpuSample)
      → is_some (under banner nvml_table (rows_text (nvml_rows p n s))) ≡ is_absent n.temperature
  nvml_shown banner n s =
      under_some banner nvml_table (rows_text (nvml_rows p n s))
      ∙ rows_defined (nvml_rows p n s)
      ∙ nvml_cells n s

  plain_shown :
      (banner : List Text) (s : GpuSample)
      → is_some (under banner plain_table (rows_text (plain_rows p s))) ≡ true
  plain_shown banner s =
      under_some banner plain_table (rows_text (plain_rows p s))
      ∙ rows_defined (plain_rows p s)
      ∙ plain_cells s

  -- When the output of the comparison tool is defined: that of the build without NVML always is,
  -- and that of the build with NVML is not exactly where it exits with 0 and NVML reports a
  -- temperature, whose format takes an `unsigned` and whose value is a `double`.
  pub output_defined :
      (answer : Option (List ℕ)) (n : NvmlCalls) (k : DeviceCalls) (argv : List Text)
      → (is_some (plain_output p k argv) ≡ true)
        × ((is_some (nvml_output p answer n k argv) ≡ false)
            ↔ (((nvml_main p n k argv).status ≡ 0) × (is_absent n.temperature ≡ false)))
  unfolding plain_output nvml_output nvml_main
  output_defined answer n k argv = grind (arith, nvml_shown, plain_shown)
