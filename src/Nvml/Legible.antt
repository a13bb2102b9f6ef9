-- ===== src/Nvml/Legible.antt =====
-- The rows of both builds are legible where their cells are narrow.
use lkm_char_dev.Base.{ℕ, ◌≡◌, refl, arith, none, All}
use lkm_char_dev.Uapi.{GpuSample}
use lkm_char_dev.Sysfs.{bytes}
use lkm_char_dev.Printing.{Text, Printf, u}
use lkm_char_dev.Printing.Documented.{IsPrintf, IsClean}
use lkm_char_dev.Nvml.{NvmlCalls}
use lkm_char_dev.Nvml.Table.{
  Row, celsius, opt_str, count_str, kernel_temp, kernel_power, as_double, nvml_power, nvml_temp,
  nvml_rows, plain_rows, gpu_util, mem_util, temp_cell, power_cell,
}
use lkm_char_dev.Nvml.Shown.{
  IsShown, IsNarrow, IsLegible, double-IsShown, unsigned-IsShown, long_long-IsShown, count-IsShown,
  reasons-IsShown, state-IsShown, difference-plain,
}

abbrev pub IsNarrowRow : Row → Type 0
IsNarrowRow r = IsNarrow r.kernel × IsNarrow r.nvml

infixr 4 ◌&◌
abbrev ◌&◌ {ℓ κ} : {A : Type ℓ} {B : Type κ} → A → B → A × B
a & b = (a, b)

module _ (p : Printf) (doc : IsPrintf p) (s : GpuSample) where
  temp-IsShown : IsNarrow (temp_cell p s) → IsShown (temp_cell p s)
  temp-IsShown = double-IsShown p doc (kernel_temp p s) 1 celsius (refl, refl)

  power-IsShown : IsNarrow (power_cell p s) → IsShown (power_cell p s)
  power-IsShown = double-IsShown p doc (kernel_power p s) 2 (bytes " W") (refl, refl)

  number-IsShown : (n : ℕ) (unit : Text) → IsClean unit → IsShown (count_str p n unit)
  number-IsShown = count-IsShown p doc

  pub plain_rows-IsLegible : All IsNarrowRow (plain_rows p s) → All IsLegible (plain_rows p s)
  unfolding plain_rows
  plain_rows-IsLegible (t, (fan, (w, (c, (m, (g, rest)))))) =
      (((refl, refl), omega arith), (temp-IsShown t.0, t.0), ((refl, refl), t.1), refl)
      & (
        ((refl, refl), omega arith),
        (number-IsShown s.fan_rpm (bytes " RPM") (refl, refl), fan.0),
        ((refl, refl), fan.1),
        refl,
      )
      & (((refl, refl), omega arith), (power-IsShown w.0, w.0), ((refl, refl), w.1), refl)
      & (
        ((refl, refl), omega arith),
        (number-IsShown s.core_freq_mhz (bytes " MHz") (refl, refl), c.0),
        ((refl, refl), c.1),
        refl,
      )
      & (
        ((refl, refl), omega arith),
        (number-IsShown s.mem_freq_mhz (bytes " MHz") (refl, refl), m.0),
        ((refl, refl), m.1),
        refl,
      )
      & (((refl, refl), omega arith), ((refl, refl), g.0), ((refl, refl), g.1), refl)
      & tt

  cold-IsShown :
      (n : NvmlCalls)
      → n.temperature ≡ none
      → IsShown (opt_str p (as_double p (nvml_temp p n)) u celsius)
  unfolding opt_str
  cold-IsShown n cold = rw cold (refl, refl)

  -- Without a temperature of NVML, whose cell is undefined.
  pub nvml_rows-IsLegible :
      (n : NvmlCalls)
      → n.temperature ≡ none
      → All IsNarrowRow (nvml_rows p n s)
      → All IsLegible (nvml_rows p n s)
  unfolding nvml_rows
  nvml_rows-IsLegible n cold (t, (fan, (w, (c, (m, (g, (h, (r, (a, (b, (e, rest))))))))))) =
      (
        ((refl, refl), omega arith),
        (temp-IsShown t.0, t.0),
        (cold-IsShown n cold, t.1),
        difference-plain p doc (kernel_temp p s) (nvml_temp p n) 1 celsius refl,
      )
      & (
        ((refl, refl), omega arith),
        (number-IsShown s.fan_rpm (bytes " RPM") (refl, refl), fan.0),
        (unsigned-IsShown p doc n.fan_speed (bytes " %") (refl, refl) fan.1, fan.1),
        refl,
      )
      & (
        ((refl, refl), omega arith),
        (power-IsShown w.0, w.0),
        (double-IsShown p doc (nvml_power p n) 2 (bytes " W") (refl, refl) w.1, w.1),
        difference-plain p doc (kernel_power p s) (nvml_power p n) 2 (bytes " W") refl,
      )
      & (
        ((refl, refl), omega arith),
        (number-IsShown s.core_freq_mhz (bytes " MHz") (refl, refl), c.0),
        (unsigned-IsShown p doc n.graphics_clock (bytes " MHz") (refl, refl) c.1, c.1),
        refl,
      )
      & (
        ((refl, refl), omega arith),
        (number-IsShown s.mem_freq_mhz (bytes " MHz") (refl, refl), m.0),
        (unsigned-IsShown p doc n.mem_clock (bytes " MHz") (refl, refl) m.1, m.1),
        refl,
      )
      & (
        ((refl, refl), omega arith),
        ((refl, refl), g.0),
        (unsigned-IsShown p doc (gpu_util n) (bytes " %") (refl, refl) g.1, g.1),
        refl,
      )
      & (
        ((refl, refl), omega arith),
        ((refl, refl), h.0),
        (unsigned-IsShown p doc (mem_util n) (bytes " %") (refl, refl) h.1, h.1),
        refl,
      )
      & (
        ((refl, refl), omega arith),
        ((refl, refl), r.0),
        (reasons-IsShown p doc n.throttle_reasons r.1, r.1),
        refl,
      )
      & (
        ((refl, refl), omega arith),
        ((refl, refl), a.0),
        (long_long-IsShown p doc n.corrected a.1, a.1),
        refl,
      )
      & (
        ((refl, refl), omega arith),
        ((refl, refl), b.0),
        (long_long-IsShown p doc n.uncorrected b.1, b.1),
        refl,
      )
      & (
        ((refl, refl), omega arith),
        ((refl, refl), e.0),
        (state-IsShown p doc n.performance_state, e.1),
        refl,
      )
      & tt
