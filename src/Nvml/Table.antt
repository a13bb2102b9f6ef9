-- ===== src/Nvml/Table.antt =====
-- The comparison table of user/nvml_validate.cpp: its cells, and its rows in both builds. A cell is
-- `none` where its `snprintf` has undefined behaviour.
use lkm_char_dev.Base.{ℕ, ◌-◌, Option, none, some, List, [], ◌∷◌, ◌++◌, take, ◌==◌, if◌then◌else◌}
use lkm_char_dev.Base.Int.{is_minus_one}
use lkm_char_dev.Uapi.{GpuSample}
use lkm_char_dev.Sysfs.{bytes}
use lkm_char_dev.Printing.{
  Text, Printf, Arg, double, unsigned, long_long, Conversion, f, u, llu, print_arg,
}
use lkm_char_dev.Nvml.{NvmlCalls}

abbrev pub Cell : Type 0
Cell = Option Text

pub record Row : Type 0 where
  pub metric : Text
  pub kernel : Cell
  pub nvml : Cell
  pub note : Text

abbrev pub unavailable : Text
unavailable = bytes "unavailable"

-- " °C" in UTF-8.
abbrev pub celsius : Text
celsius = b' ' ∷ 0xC2 ∷ 0xB0 ∷ b'C' ∷ []

-- "Δ " in UTF-8.
abbrev pub delta : Text
delta = 0xCE ∷ 0x94 ∷ b' ' ∷ []

-- `snprintf` into a buffer of `size` bytes.
abbrev pub cut : ℕ → Option Text → Option Text
cut size none = none
cut size (some t) = some (take (size - 1) t)

abbrev pub followed : Option Text → Text → Option Text
followed none s = none
followed (some t) s = some (t ++ s)

abbrev pub withheld : Text
withheld = bytes "nvidia.ko withholds from hwmon"

abbrev pub gpu_util : NvmlCalls → Option ℕ
gpu_util n = elim n.gpu_rates [ none ↦ none | some (gpu, mem) ↦ some gpu ]

abbrev pub mem_util : NvmlCalls → Option ℕ
mem_util n = elim n.mem_rates [ none ↦ none | some (gpu, mem) ↦ some mem ]

module _ (p : Printf) where
  -- `opt_str(v, "<conversion><suffix>")`
  unfoldable pub opt_str : Option (Arg p) → Conversion → Text → Cell
  unfolding print_arg
  opt_str none c suffix = some unavailable
  opt_str (some a) c suffix = cut 64 (followed (print_arg p c a) suffix)

  -- `v ? to_string(v) + unit : "unavailable"`
  unfoldable pub count_str : ℕ → Text → Cell
  count_str n unit = if n == 0 then some unavailable else some (p.decimal n ++ unit)

  abbrev pub thousandth : p.Double → p.Double
  thousandth x = p.div x (p.of_nat 1000)

  unfoldable pub kernel_temp : GpuSample → Option p.Double
  kernel_temp s =
      if is_minus_one s.temp_millideg then none else some (thousandth (p.of_int s.temp_millideg))

  unfoldable pub kernel_power : GpuSample → Option p.Double
  kernel_power s =
      if s.power_uw == 0 then none else some (p.div (p.of_nat s.power_uw) (p.of_nat 1000000))

  abbrev pub as_double : Option p.Double → Option (Arg p)
  as_double none = none
  as_double (some x) = some (double x)

  abbrev pub as_unsigned : Option ℕ → Option (Arg p)
  as_unsigned none = none
  as_unsigned (some n) = some (unsigned n)

  abbrev pub as_long_long : Option ℕ → Option (Arg p)
  as_long_long none = none
  as_long_long (some n) = some (long_long n)

  -- `temp_c` and `power_w` of the guard; the other accessors return what NVML does.
  abbrev pub nvml_temp : NvmlCalls → Option p.Double
  nvml_temp n = elim n.temperature [ none ↦ none | some v ↦ some (p.of_nat v) ]

  abbrev pub nvml_power : NvmlCalls → Option p.Double
  nvml_power n = elim n.power_usage [ none ↦ none | some v ↦ some (thousandth (p.of_nat v)) ]

  -- `v ? buf : "unavailable"`, where `buf` is "0x%08llx" of the value.
  abbrev pub reasons_str : Option ℕ → Cell
  reasons_str none = some unavailable
  reasons_str (some v) = some (take 31 (bytes "0x" ++ p.hex 8 v))

  abbrev pub state_str : Option ℕ → Cell
  state_str none = some unavailable
  state_str (some v) = some (bytes "P" ++ p.decimal v)

  -- The note of a row whose two values are both there: their difference.
  abbrev pub difference : Option p.Double → Option p.Double → ℕ → Text → Text
  difference (some x) (some y) precision unit =
      take 31 (delta ++ p.fixed 0 precision (p.sub x y) ++ unit)
  difference none y precision unit = []
  difference (some x) none precision unit = []

  -- The kernel's cells that the two builds share.
  abbrev pub temp_cell : GpuSample → Cell
  temp_cell s = opt_str (as_double (kernel_temp s)) (f 1) celsius

  abbrev pub power_cell : GpuSample → Cell
  power_cell s = opt_str (as_double (kernel_power s)) (f 2) (bytes " W")

  -- The build with HAVE_NVML.
  unfoldable pub nvml_rows : NvmlCalls → GpuSample → List Row
  nvml_rows n s =
      record {
        metric = bytes "Temperature";
        kernel = temp_cell s;
        nvml = opt_str (as_double (nvml_temp n)) u celsius;
        note = difference (kernel_temp s) (nvml_temp n) 1 celsius;
      }
      ∷ record {
        metric = bytes "Fan speed";
        kernel = count_str s.fan_rpm (bytes " RPM");
        nvml = opt_str (as_unsigned n.fan_speed) u (bytes " %");
        note = bytes "kernel=RPM  NVML=percent";
      }
      ∷ record {
        metric = bytes "Power draw";
        kernel = power_cell s;
        nvml = opt_str (as_double (nvml_power n)) (f 2) (bytes " W");
        note = difference (kernel_power s) (nvml_power n) 2 (bytes " W");
      }
      ∷ record {
        metric = bytes "Core frequency";
        kernel = count_str s.core_freq_mhz (bytes " MHz");
        nvml = opt_str (as_unsigned n.graphics_clock) u (bytes " MHz");
        note = [];
      }
      ∷ record {
        metric = bytes "Memory frequency";
        kernel = count_str s.mem_freq_mhz (bytes " MHz");
        nvml = opt_str (as_unsigned n.mem_clock) u (bytes " MHz");
        note = bytes "kernel: often 0 on NVIDIA";
      }
      ∷ record {
        metric = bytes "GPU utilisation";
        kernel = some unavailable;
        nvml = opt_str (as_unsigned (gpu_util n)) u (bytes " %");
        note = withheld;
      }
      ∷ record {
        metric = bytes "Memory utilisation";
        kernel = some unavailable;
        nvml = opt_str (as_unsigned (mem_util n)) u (bytes " %");
        note = withheld;
      }
      ∷ record {
        metric = bytes "Throttle reasons";
        kernel = some unavailable;
        nvml = reasons_str n.throttle_reasons;
        note = bytes "proprietary bitmask";
      }
      ∷ record {
        metric = bytes "ECC single-bit errors";
        kernel = some unavailable;
        nvml = opt_str (as_long_long n.corrected) llu [];
        note = bytes "proprietary counter";
      }
      ∷ record {
        metric = bytes "ECC double-bit errors";
        kernel = some unavailable;
        nvml = opt_str (as_long_long n.uncorrected) llu [];
        note = bytes "proprietary counter";
      }
      ∷ record {
        metric = bytes "Performance state";
        kernel = some unavailable;
        nvml = state_str n.performance_state;
        note = bytes "P0=max perf, P8=idle";
      }
      ∷ []

  -- A row of the other build.
  abbrev pub plain_row : Text → Cell → Text → Row
  plain_row metric kernel note = record {
    metric = metric;
    kernel = kernel;
    nvml = some (bytes "n/a");
    note = note;
  }

  -- The build without.
  unfoldable pub plain_rows : GpuSample → List Row
  plain_rows s =
      plain_row (bytes "Temperature") (temp_cell s) []
      ∷ plain_row (bytes "Fan speed") (count_str s.fan_rpm (bytes " RPM")) []
      ∷ plain_row (bytes "Power draw") (power_cell s) []
      ∷ plain_row (bytes "Core frequency") (count_str s.core_freq_mhz (bytes " MHz")) []
      ∷ plain_row (bytes "Memory frequency") (count_str s.mem_freq_mhz (bytes " MHz")) []
      ∷ plain_row (bytes "GPU utilisation") (some unavailable) withheld
      ∷ []
