-- ===== src/Nvml/Output.antt =====
-- What user/nvml_validate.cpp writes to its standard output, in both builds, byte by byte: `none`
-- where a cell of the table has undefined behaviour.
use lkm_char_dev.Base.{ℕ, Option, none, some, List, [], ◌∷◌, ◌++◌, map, take, drop, if◌then◌else◌}
use lkm_char_dev.Sysfs.{bytes, c_string}
use lkm_char_dev.Printing.{Text, Printf}
use lkm_char_dev.Printing.Columns.{utf8, pad, print_row, read_row}
use lkm_char_dev.Printing.Lines.{print_lines, read_lines}
use lkm_char_dev.Nvml.{NvmlCalls, DeviceCalls, nvml_guard, read_kernel_sample, device_path}
use lkm_char_dev.Nvml.Table.{Cell, Row, nvml_rows, plain_rows}

abbrev pub sep : Text
sep = utf8 "  ──────────────────────────────────────────────────────────────────────"

-- The widths of `row`'s columns, behind two blanks.
abbrev pub columns : List ℕ
columns = 28 ∷ 22 ∷ 22 ∷ []

abbrev pub padded_row : List Text → Text
padded_row cs = bytes "  " ++ print_row columns cs

-- The texts of a line; a cell that is undefined has none.
abbrev pub text : Cell → Text
text none = []
text (some t) = t

abbrev pub texts : Row → List Text
texts r = r.metric ∷ text r.kernel ∷ text r.nvml ∷ r.note ∷ []

-- `row`
unfoldable pub row_text : Row → Option Text
row_text r = elim r.kernel [
  | none ↦ none
  | some kernel ↦ elim r.nvml [
    | none ↦ none
    | some nvml ↦ some (padded_row (r.metric ∷ kernel ∷ nvml ∷ r.note ∷ []))
  ]
]

unfoldable pub rows_text : List Row → Option (List Text)
rows_text [] = some []
rows_text (r ∷ rs) = elim (row_text r) [
  | none ↦ none
  | some t ↦ elim (rows_text rs) [ none ↦ none | some ts ↦ some (t ∷ ts) ]
]

-- `NvmlGuard::name`: the buffer is empty where the call fails.
abbrev pub name : Option (List ℕ) → Text
name none = []
name (some buf) = c_string buf

abbrev pub heading : Text
heading = padded_row (bytes "Metric" ∷ bytes "Kernel driver" ∷ bytes "NVML" ∷ bytes "Notes" ∷ [])

abbrev pub only_heading : Text
only_heading = bytes "  " ++ pad 28 (bytes "Metric") ++ bytes "  " ++ pad 22 (bytes "NVML")

abbrev pub kernel_line : Text → Text
kernel_line dev = bytes "Kernel dev  : " ++ dev

-- The lines behind the tables, in both builds.
abbrev pub lesson : List Text
lesson =
    sep
    ∷ []
    ∷ bytes "  LESSON: why kernel driver and NVML data will never fully match"
    ∷ []
    ∷ utf8 "  ① Access layer"
    ∷ utf8 "      Our module reads sysfs/hwmon — what nvidia.ko *chooses* to publish"
    ∷ bytes "      to the generic Linux subsystem.  NVML calls nvidia.ko *directly*."
    ∷ []
    ∷ utf8 "  ② Vendor privilege"
    ∷ bytes "      nvidia.ko has register-level GPU access: PMU counters, SM occupancy,"
    ∷ utf8 "      NVLink stats, ECC hardware — none of this surfaces via hwmon."
    ∷ []
    ∷ utf8 "  ③ Sampling skew"
    ∷ bytes "      Even shared metrics differ: nvidia.ko uses different averaging"
    ∷ bytes "      windows and internal sensor tap points than its hwmon node."
    ∷ []
    ∷ utf8 "  ④ What our driver IS good for"
    ∷ bytes "      The kernel-side pipeline (ring buffer, chardev, wait_queue,"
    ∷ bytes "      copy_to_user) and quantifying the *floor* of generic interfaces."
    ∷ bytes "      The gap vs NVML is the architectural lesson."
    ∷ []
    ∷ []

abbrev pub build_hint : List Text
build_hint =
    sep
    ∷ []
    ∷ bytes "  Build with -DHAVE_NVML -lnvidia-ml to see NVML-only metrics:"
    ∷ bytes "    throttle reasons, ECC error counts, performance state,"
    ∷ bytes "    per-engine clocks, NVLink bandwidth, memory bandwidth util."
    ∷ []

-- The table of the build with NVML, of eleven rows.
unfoldable pub nvml_table : List Text → List Text
nvml_table rows =
    heading ∷ sep ∷ take 7 rows
    ++ sep
      ∷ []
      ∷ bytes "  NVML-only metrics (not reachable via any sysfs/hwmon reader):"
      ∷ only_heading
      ∷ drop 7 rows
    ++ lesson

unfoldable pub plain_table : List Text → List Text
plain_table rows = heading ∷ sep ∷ rows ++ build_hint ++ lesson

abbrev pub under : List Text → (List Text → List Text) → Option (List Text) → Option Text
under banner table none = none
under banner table (some rows) = some (print_lines (banner ++ table rows))

-- The lines before the table.
abbrev pub nvml_banner : Option (List ℕ) → Text → List Text
nvml_banner answer dev = (bytes "NVML device : " ++ name answer) ∷ kernel_line dev ∷ [] ∷ []

abbrev pub plain_banner : Text → List Text
plain_banner dev =
    bytes "NVML        : not available (built without -DHAVE_NVML)"
    ∷ bytes "             Showing kernel-driver snapshot only."
    ∷ kernel_line dev
    ∷ []
    ∷ []

module _ (p : Printf) where
  unfoldable pub nvml_output : Option (List ℕ) → NvmlCalls → DeviceCalls → List Text → Option Text
  nvml_output answer n k argv =
      let banner = nvml_banner answer (device_path argv) in
      if (nvml_guard n).0
      then elim (read_kernel_sample k (device_path argv)).0 [
        | none ↦ some (print_lines banner)
        | some ks ↦ under banner nvml_table (rows_text (nvml_rows p n ks))
      ]
      else some []

  unfoldable pub plain_output : DeviceCalls → List Text → Option Text
  plain_output k argv =
      let banner = plain_banner (device_path argv) in
      elim (read_kernel_sample k (device_path argv)).0 [
        | none ↦ some (print_lines banner)
        | some ks ↦ under banner plain_table (rows_text (plain_rows p ks))
      ]

abbrev pub read_table_row : Text → List Text
read_table_row line = read_row columns (drop 2 line)

-- The rows of the table in an output of the build with NVML, as texts.
abbrev pub read_nvml_rows : Text → List (List Text)
read_nvml_rows t =
    let lines = read_lines t in map read_table_row (take 7 (drop 5 lines) ++ take 4 (drop 16 lines))

abbrev pub read_plain_rows : Text → List (List Text)
read_plain_rows t = map read_table_row (take 6 (drop 6 (read_lines t)))
