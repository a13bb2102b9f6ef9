-- ===== src/Nvml/Told.antt =====
-- The output of the comparison tool, read back as its table.
mod Tests
use lkm_char_dev.Base.{
  ℕ, ◌≤◌, ◌<◌, ◌≡◌, ◌∙◌, ◌↔◌, refl, sym, ap, ap₂, arith, true, false, Bool, List, [], ◌∷◌, ◌++◌,
  Option, none, some, map, take, drop, length, All, All-append, All-take, All-drop,
}
use lkm_char_dev.Uapi.{GpuSample}
use lkm_char_dev.Sysfs.{bytes, c_string}
use lkm_char_dev.Printing.{Text, Printf, u}
use lkm_char_dev.Printing.Documented.{IsPrintf, IsClean}
use lkm_char_dev.Printing.Columns.{print_row}
use lkm_char_dev.Printing.Lines.{
  is_plain, is_plain-append, all_plain_lem, print_lines, read_lines, read_lines-print_lines,
}
use lkm_char_dev.Nvml.{NvmlCalls, DeviceCalls, nvml_guard, read_kernel_sample, device_path}
use lkm_char_dev.Nvml.Main.{nvml_main, plain_main}
use lkm_char_dev.Nvml.Table.{
  Cell, Row, unavailable, celsius, opt_str, count_str, kernel_temp, kernel_power, as_double,
  as_unsigned, as_long_long, nvml_power, nvml_temp, reasons_str, state_str, nvml_rows, plain_rows,
  gpu_util, mem_util, temp_cell, power_cell,
}
use lkm_char_dev.Nvml.Output.{
  columns, padded_row, text, texts, row_text, rows_text, read_table_row, nvml_output, plain_output,
  nvml_table, plain_table, under, read_nvml_rows, read_plain_rows, kernel_line, nvml_banner,
  plain_banner, only_heading, heading, sep, build_hint, lesson, name,
}
use lkm_char_dev.Nvml.Legible.{IsNarrowRow, plain_rows-IsLegible, nvml_rows-IsLegible}
use lkm_char_dev.Nvml.Shown.{
  IsShown, IsNarrow, IsLegible, double-IsShown, unsigned-IsShown, long_long-IsShown, count-IsShown,
  reasons-IsShown, state-IsShown, difference-plain, rows_told,
}

heading-plain : is_plain heading ≡ true
unfolding print_row
heading-plain = refl

-- The table of the build without NVML can be read back: for a `printf` that does what is
-- documented of it and a device path without newlines, where a sample is read and no cell is
-- longer than its 22 bytes, the output is defined, and lines 7 to 12 of it, cut by the widths of
-- the columns, are the six rows, in order.
pub plain_table_told :
    (p : Printf) (k : DeviceCalls) (argv : List Text) (s : GpuSample)
    → IsPrintf p
    → is_plain (device_path argv) ≡ true
    → (read_kernel_sample k (device_path argv)).0 ≡ some s
    → All IsNarrowRow (plain_rows p s)
    → (t : Text) × (plain_output p k argv ≡ some t)
      × (read_plain_rows t ≡ map texts (plain_rows p s))
unfolding plain_output plain_rows plain_table
plain_table_told p k argv s doc named snapshot narrow =
    let (printed, plain, read) = rows_told (plain_rows p s) (plain_rows-IsLegible p doc s narrow) in
    let rows = map (λ r. padded_row (texts r)) (plain_rows p s) in
    let lines = plain_banner (device_path argv) ++ plain_table rows in
    let tail = build_hint ++ lesson in
    let all_plain : All (λ l. is_plain l ≡ true) lines = (
      refl,
      (
        refl,
        (
          is_plain-append (bytes "Kernel dev  : ") (device_path argv) refl named,
          (
            refl,
            (
              heading-plain,
              (refl, All-append (λ l. is_plain l ≡ true) rows tail plain (all_plain_lem tail refl)),
            ),
          ),
        ),
      ),
    ) in
    (
      print_lines lines,
      rw (plain_output, snapshot, printed) refl,
      ap (λ ls. map read_table_row (take 6 (drop 6 ls))) (read_lines-print_lines lines all_plain)
          ∙ read,
    )

-- The two tables of the build with NVML can be read back: for a `printf` that does what is
-- documented of it, a name of the card and a device path without newlines, where NVML gives a
-- handle and no temperature, a sample is read, and no cell is longer than its 22 bytes, the output
-- is defined, and lines 6 to 12 and 17 to 20 of it, cut by the widths of the columns, are the
-- eleven rows, in order.
pub nvml_table_told :
    (p : Printf) (answer : Option (List ℕ)) (n : NvmlCalls) (k : DeviceCalls) (argv : List Text)
    (s : GpuSample)
    → IsPrintf p
    → is_plain (name answer) ≡ true
    → is_plain (device_path argv) ≡ true
    → (nvml_guard n).0 ≡ true
    → (read_kernel_sample k (device_path argv)).0 ≡ some s
    → n.temperature ≡ none
    → All IsNarrowRow (nvml_rows p n s)
    → (t : Text) × (nvml_output p answer n k argv ≡ some t)
      × (read_nvml_rows t ≡ map texts (nvml_rows p n s))
unfolding nvml_output nvml_rows nvml_table
nvml_table_told p answer n k argv s doc called named held snapshot cold narrow =
    let (printed, plain, read) =
      rows_told (nvml_rows p n s) (nvml_rows-IsLegible p doc s n cold narrow) in
    let rows = map (λ r. padded_row (texts r)) (nvml_rows p n s) in
    let lines = nvml_banner answer (device_path argv) ++ nvml_table rows in
    let lower : All (λ l. is_plain l ≡ true) (drop 7 rows ++ lesson) =
      All-append (λ l. is_plain l ≡ true) (drop 7 rows) lesson
        (All-drop (λ l. is_plain l ≡ true) 7 rows plain) (all_plain_lem lesson refl) in
    let upper =
      All-append (λ l. is_plain l ≡ true) (take 7 rows)
        (sep
            ∷ []
            ∷ bytes "  NVML-only metrics (not reachable via any sysfs/hwmon reader):"
            ∷ only_heading
            ∷ drop 7 rows
          ++ lesson)
        (All-take (λ l. is_plain l ≡ true) 7 rows plain) (refl, (refl, (refl, (refl, lower)))) in
    let all_plain : All (λ l. is_plain l ≡ true) lines = (
      is_plain-append (bytes "NVML device : ") (name answer) refl called,
      (
        is_plain-append (bytes "Kernel dev  : ") (device_path argv) refl named,
        (refl, (heading-plain, (refl, upper))),
      ),
    ) in
    (
      print_lines lines,
      rw (nvml_output, held, snapshot, printed) refl,
      ap (λ ls. map read_table_row (take 7 (drop 5 ls) ++ take 4 (drop 16 ls)))
            (read_lines-print_lines lines all_plain)
          ∙ read,
    )
