-- ===== src/TelemReader/Main/Shows.antt =====
-- From the driver to the terminal: the standard output of the reader, read back.
use lkm_char_dev.Base.{
  ℕ, ◌+◌, ◌-◌, ◌^◌, ◌≤◌, ◌<◌, ◌≡◌, ◌∙◌, sym, ap, subst, arith, true, List, [], ◌∷◌, map, length,
  take, drop, All,
}
use lkm_char_dev.Base.Int.{ℤ, negsuc}
use mathlib.Core.List.{Sublist}
use native.Mathlib.Bridge.{le_prop}
use lkm_char_dev.Uapi.{GpuSample, IsSample}
use lkm_char_dev.Uapi.Selected.{IsSample-IsProp, Sublist-All}
use lkm_char_dev.Device.{Device, File}
use lkm_char_dev.Device.Files.{opened_file}
use lkm_char_dev.Log.{Log}
use lkm_char_dev.Ring.Invariant.{Represents}
use lkm_char_dev.Printing.{Text, Printf}
use lkm_char_dev.Printing.Documented.{IsPrintf}
use lkm_char_dev.Printing.Lines.{is_plain}
use lkm_char_dev.TelemReader.{numbered}
use lkm_char_dev.TelemReader.Session.{Driven}
use lkm_char_dev.TelemReader.Main.{go, parse_options, MainCalls, device_operand, print_sample}
use lkm_char_dev.TelemReader.Main.Output.{cells, main_output, read_output}
use lkm_char_dev.TelemReader.Main.Stream.{loop_given}
use lkm_char_dev.TelemReader.Main.Short.{IsShort}
use lkm_char_dev.TelemReader.Main.Tells.{output_tells_samples}

-- A sample that is short with a small index.
abbrev pub IsPrintable : Printf → GpuSample → Type 0
IsPrintable p s =
    IsSample s
    × (s.fan_rpm < 10 ^ 8)
    × (length (print_sample p (0, s)).temp ≤ 9)
    × (length (p.fixed 0 3 (print_sample p (0, s)).power) ≤ 10)

module _ (p : Printf) where
  IsPrintable-IsProp : (s : GpuSample) → IsProp (IsPrintable p s)
  IsPrintable-IsProp s = let sample = IsSample-IsProp s in hlevel (le_prop, sample)

  numbered-IsShort :
      (i : ℕ) (ss : List GpuSample)
      → i + length ss ≤ 10 ^ 7
      → All (IsPrintable p) ss
      → All (IsShort p) (numbered i ss)
  unfolding numbered print_sample
  numbered-IsShort i [] few ok = tt
  numbered-IsShort i (s ∷ ss) few ((sample, slow, warm, weak), ok) = (
    (sample, omega (arith, few), slow, warm, weak),
    numbered-IsShort (i + 1) ss (omega (arith, few)) ok,
  )

-- From the driver's `open` to the terminal: a run of the reader on a driven device, as in
-- TelemReader/Main/Stream, with options that make it go on, a `printf` that does what is
-- documented of it, and a program name and a device path without newlines, writes an output whose
-- lines between the header and the next empty line, cut by the widths of the columns, are the
-- texts of the samples that its file was given, numbered from 0. They are a selection, in order,
-- of what was pushed since the `open`, and if none was missed they are its first samples, each
-- once. Conditions: fewer than 2^64 samples are pushed, at most 10^7 of them since the `open`, and
-- these have their fields within their C types, a fan speed below 10^8, and a temperature and a
-- power that are printed in at most 9 and 10 bytes.
pub terminal_shows_stream :
    (p : Printf) (prog : Text) (c : MainCalls) (d : Device) (f : File) {most : ℤ} {h h' : Log}
    {given : List GpuSample} {missed : ℕ}
    → IsPrintf p
    → is_plain prog ≡ true
    → is_plain (device_operand c.operands) ≡ true
    → parse_options c.strtol (negsuc 0) c.options ≡ go most
    → c.open_ok (device_operand c.operands) ≡ true
    → Represents d.ring h
    → Driven most 0 (opened_file d f) h c.turns given missed h'
    → length h' < 2 ^ 64
    → length h' - length h ≤ 10 ^ 7
    → All (IsPrintable p) (drop (length h) h')
    → (read_output p (main_output p prog c)
        ≡ map (λ x. cells p (print_sample p x)) (numbered 0 given))
      × Sublist given (drop (length h) h')
      × (missed ≡ 0 → given ≡ take (length given) (drop (length h) h'))
terminal_shows_stream p prog c d f {most} {h} {h'} {given} doc called named wanted opens before run
      fits few ok =
    let (prints, part, counted, complete) = loop_given c d f before run fits in
    let printed = ap (λ y. y.0) prints in
    let printable = Sublist-All (IsPrintable-IsProp p) part ok in
    let short = numbered-IsShort p 0 given (omega (arith, counted, few)) printable in
    (
      output_tells_samples p prog c most doc called named wanted opens
            (subst (All (IsShort p)) (sym printed) short)
          ∙ ap (map (λ x. cells p (print_sample p x))) printed,
      part,
      complete,
    )
