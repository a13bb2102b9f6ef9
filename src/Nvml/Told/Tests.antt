-- ===== src/Nvml/Told/Tests.antt =====
-- The output of the comparison tool on a concrete device.
use lkm_char_dev.Base.{◌≡◌, ◌↔◌, refl, arith, true, false, none, some, [], ◌∷◌, ◌++◌, map, All}
use lkm_char_dev.Base.Int.{pos}
use lkm_char_dev.Uapi.{GpuSample, zero_sample}
use lkm_char_dev.Uapi.Layout.{encode, decode}
use lkm_char_dev.Examples.{printing}
use lkm_char_dev.Examples.Printed.{printing-IsPrintf}
use lkm_char_dev.Sysfs.{bytes}
use lkm_char_dev.Printing.{Text}
use lkm_char_dev.Printing.Columns.{utf8, print_row}
use lkm_char_dev.Printing.Lines.{print_lines}
use lkm_char_dev.TelemReader.{received}
use lkm_char_dev.Nvml.{NvmlCalls, DeviceCalls, nvml_guard, read_kernel_sample, whole_sample}
use lkm_char_dev.Nvml.Main.{nvml_main}
use lkm_char_dev.Nvml.Cells.{is_absent}
use lkm_char_dev.Nvml.Table.{nvml_rows, plain_rows, opt_str, count_str, kernel_temp, kernel_power}
use lkm_char_dev.Nvml.Output.{
  texts, nvml_output, plain_output, read_nvml_rows, read_plain_rows, row_text, rows_text,
  plain_table, build_hint, lesson, sep,
}
use lkm_char_dev.Nvml.Legible.{IsNarrowRow}
use lkm_char_dev.Nvml.Told.{plain_table_told, nvml_table_told}
use lkm_char_dev.Nvml.Defined.{is_some, output_defined}

-- A card whose temperature NVML does not tell.
abbrev cold_card : NvmlCalls
cold_card = record {
  init = true;
  handle = true;
  temperature = none;
  fan_speed = some 30;
  power_usage = some 120500;
  graphics_clock = some 1500;
  mem_clock = none;
  gpu_rates = some (7, 3);
  mem_rates = some (7, 3);
  throttle_reasons = some 4;
  corrected = some 0;
  uncorrected = none;
  performance_state = some 8;
}

abbrev warm : GpuSample
warm = record zero_sample { temp_millideg = pos 45000; fan_rpm = 1200; power_uw = 98000000 }

abbrev device : DeviceCalls
device = record { open_ok = λ dev. true; read = λ dev size. received (encode warm) }

warm_read : (read_kernel_sample device (bytes "/dev/gpu_telem")).0 ≡ some warm
unfolding read_kernel_sample whole_sample encode decode
warm_read = refl

cold_card_held : (nvml_guard cold_card).0 ≡ true
unfolding nvml_guard
cold_card_held = refl

plain_narrow : All IsNarrowRow (plain_rows printing warm)
unfolding plain_rows opt_str count_str kernel_temp kernel_power
plain_narrow = omega arith

nvml_narrow : All IsNarrowRow (nvml_rows printing cold_card warm)
unfolding nvml_rows opt_str count_str kernel_temp kernel_power
nvml_narrow = omega arith

plain_table_told_example :
    (t : Text) × (plain_output printing device [] ≡ some t)
    × (read_plain_rows t ≡ map texts (plain_rows printing warm))
plain_table_told_example =
    plain_table_told printing device [] warm printing-IsPrintf refl warm_read plain_narrow

nvml_table_told_example :
    (t : Text) × (nvml_output printing (some (bytes "RTX 3080")) cold_card device [] ≡ some t)
    × (read_nvml_rows t ≡ map texts (nvml_rows printing cold_card warm))
nvml_table_told_example =
    nvml_table_told printing (some (bytes "RTX 3080")) cold_card device [] warm printing-IsPrintf
      refl refl cold_card_held warm_read refl nvml_narrow

output_defined_example :
    (is_some (plain_output printing device []) ≡ true)
    × ((is_some (nvml_output printing none cold_card device []) ≡ false) ↔ (
        ((nvml_main printing cold_card device []).status ≡ 0)
        × (is_absent cold_card.temperature ≡ false)))
output_defined_example = output_defined printing none cold_card device []

-- All that the build without NVML prints.
whole_plain_output :
    plain_output printing device []
    ≡ some (
        print_lines (
          bytes "NVML        : not available (built without -DHAVE_NVML)"
            ∷ bytes "             Showing kernel-driver snapshot only."
            ∷ bytes "Kernel dev  : /dev/gpu_telem"
            ∷ []
            ∷ bytes
                "  Metric                        Kernel driver           NVML                    Notes"
            ∷ sep
            ∷ utf8 "  Temperature                   45.0 °C                n/a                     "
            ∷ bytes
                "  Fan speed                     1200 RPM                n/a                     "
            ∷ bytes
                "  Power draw                    98.0 W                  n/a                     "
            ∷ bytes
                "  Core frequency                unavailable             n/a                     "
            ∷ bytes
                "  Memory frequency              unavailable             n/a                     "
            ∷ bytes
                "  GPU utilisation               unavailable             n/a                     nvidia.ko withholds from hwmon"
            ∷ build_hint
          ++ lesson))
unfolding plain_output plain_rows plain_table opt_str count_str kernel_temp kernel_power rows_text
    row_text print_row read_kernel_sample whole_sample encode decode
whole_plain_output = refl
