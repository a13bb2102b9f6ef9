-- ===== src/Nvml/Cells.antt =====
-- The cells of the comparison table: the kernel's column in both builds, and the undefined cell.
use lkm_char_dev.Base.{
  ℕ, ◌≡◌, refl, arith, Bool, true, false, List, [], ◌∷◌, Option, none, some, take, map, replicate,
}
use lkm_char_dev.Uapi.{GpuSample}
use lkm_char_dev.Device.{Device}
use lkm_char_dev.Sysfs.{FileCalls}
use lkm_char_dev.Collector.{collect_sample, attribute}
use lkm_char_dev.Printing.{Text, Printf, f, u, llu}
use lkm_char_dev.Nvml.{NvmlCalls, DeviceCalls}
use lkm_char_dev.Nvml.Main.{nvml_main, plain_main}
use lkm_char_dev.Nvml.Table.{
  Cell, Row, unavailable, opt_str, count_str, kernel_temp, kernel_power, as_double, as_unsigned,
  as_long_long, nvml_power, nvml_temp, reasons_str, state_str, nvml_rows, plain_rows,
}

-- A row's name and the kernel's cell.
abbrev pub kernel_column : Row → Text × Cell
kernel_column r = (r.metric, r.kernel)

-- The two builds of the comparison tool agree: where the build with NVML exits with 0, so does the
-- build without, on the same device and arguments, and its rows have the names and the kernel's
-- cells of the first six rows of the other, in order.
pub columns_agree :
    (p : Printf) (n : NvmlCalls) (k : DeviceCalls) (argv : List Text)
    → (nvml_main p n k argv).status ≡ 0
    → ((plain_main p k argv).status ≡ 0)
      × (map kernel_column (plain_main p k argv).rows
          ≡ take 6 (map kernel_column (nvml_main p n k argv).rows))
unfolding nvml_main plain_main nvml_rows plain_rows
columns_agree p n k argv ok = ground arith

abbrev pub is_defined : Cell → Bool
is_defined none = false
is_defined (some t) = true

abbrev pub is_absent : Option ℕ → Bool
is_absent none = true
is_absent (some n) = false

module _ (p : Printf) where
  pub unsigned_defined :
      (o : Option ℕ) (suffix : Text) → is_defined (opt_str p (as_unsigned p o) u suffix) ≡ true
  unfolding opt_str
  unsigned_defined none suffix = refl
  unsigned_defined (some v) suffix = refl

  pub long_long_defined :
      (o : Option ℕ) (suffix : Text) → is_defined (opt_str p (as_long_long p o) llu suffix) ≡ true
  unfolding opt_str
  long_long_defined none suffix = refl
  long_long_defined (some v) suffix = refl

  pub temp_defined :
      (n : NvmlCalls) (suffix : Text)
      → is_defined (opt_str p (as_double p (nvml_temp p n)) u suffix) ≡ is_absent n.temperature
  unfolding opt_str
  temp_defined n suffix = ground arith

  pub power_defined :
      (n : NvmlCalls) (suffix : Text)
      → is_defined (opt_str p (as_double p (nvml_power p n)) (f 2) suffix) ≡ true
  unfolding opt_str
  power_defined n suffix = ground arith

  pub reasons_defined : (o : Option ℕ) → is_defined (reasons_str p o) ≡ true
  reasons_defined none = refl
  reasons_defined (some v) = refl

  pub state_defined : (o : Option ℕ) → is_defined (state_str p o) ≡ true
  state_defined none = refl
  state_defined (some v) = refl

  -- Of the eleven cells of NVML's column, for any sample and any answers of NVML, all but the
  -- first are printed with a conversion that takes their value's type; the first, the temperature,
  -- is defined only where NVML reports none, since its format takes an `unsigned` and the value is
  -- a `double`.
  pub temperature_undefined :
      (n : NvmlCalls) (s : GpuSample)
      → map (λ r. is_defined r.nvml) (nvml_rows p n s)
        ≡ is_absent n.temperature
          ∷ true
          ∷ true
          ∷ true
          ∷ true
          ∷ true
          ∷ true
          ∷ true
          ∷ true
          ∷ true
          ∷ true
          ∷ []
  unfolding nvml_rows
  temperature_undefined n s = simp (
    temp_defined, power_defined, unsigned_defined, long_long_defined, reasons_defined,
    state_defined,
  )

  -- A sample that the collector took on a device with none of its four sensor paths is shown as
  -- such: the kernel's cell of each of the eleven rows is the text `unavailable`, whatever NVML
  -- answers and the struct held before.
  pub bare_unavailable :
      (n : NvmlCalls) (k : FileCalls) (now : ℕ) (d : Device) (old : GpuSample)
      → d.temp_path ≡ []
      → d.fan_path ≡ []
      → d.power_path ≡ []
      → d.freq_path ≡ []
      → map (λ r. r.kernel) (nvml_rows p n (collect_sample k now d old))
        ≡ replicate 11 (some unavailable)
  unfolding nvml_rows collect_sample attribute opt_str count_str kernel_temp kernel_power
  bare_unavailable n k now d old t fa po fr = rw (t, fa, po, fr) refl
