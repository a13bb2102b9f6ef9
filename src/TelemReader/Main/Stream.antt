-- ===== src/TelemReader/Main/Stream.antt =====
-- A whole run of the reader, from the driver's `open` to the last line.
use lkm_char_dev.Base.{take-Sublist, ℕ, ◌+◌, ◌-◌, ◌^◌, ◌≤◌, ◌<◌, ◌≡◌, ◌∙◌, ap, refl, arith}
use lkm_char_dev.Base.{List, [], ◌∷◌, ◌++◌, map, true, length, take, drop}
use mathlib.Core.List.{Sublist, nil-sublist}
use mathlib.Core.List.Sublist
use lkm_char_dev.Base.Int.{ℤ, negsuc}
use lkm_char_dev.Uapi.{GpuSample}
use lkm_char_dev.Device.{get_ring_size, get_interval_ms}
use lkm_char_dev.Log.{Log}
use lkm_char_dev.Ring.Invariant.{Represents}
use lkm_char_dev.Device.{Device, File}
use lkm_char_dev.Device.Files.{opened_file, opened_file-next}
use lkm_char_dev.Printing.{Printf}
use lkm_char_dev.System.{Reader, pushed, idle}
use lkm_char_dev.System.Readers.{ReaderOk}
use lkm_char_dev.TelemReader.{numbered, main_loop}
use lkm_char_dev.TelemReader.Session.{Driven, Driven-ReaderOk, loop_prints}
use lkm_char_dev.TelemReader.Main.{
  go, parse_options, MainCalls, device_operand, ioctl_value, print_sample, Event, opened, banner,
  line, closed, delivered, session, main,
}

-- A reader at the end of the log, to which nothing was given yet.
abbrev at_end : Log → Reader
at_end h = record {
  pc = idle;
  next = length h;
  start = length h;
  missed = 0;
  given = [];
  faults = 0;
  unreported = 0;
}

at_end-ReaderOk : (h : Log) → ReaderOk h pushed (at_end h)
at_end-ReaderOk h = record {
  within = omega arith;
  counted = omega arith;
  complete = λ _ _. refl;
  ordered = nil-sublist (take (length h - length h) (drop (length h) h));
  place = tt;
}

-- What the program does from the opened device on, around what its loop does.
abbrev after_banner : (p : Printf) → MainCalls → List (ℕ × GpuSample) × ℕ → List (Event p)
after_banner p c (printed, total) =
    opened (device_operand c.operands)
      ∷ banner (ioctl_value c get_ring_size) (ioctl_value c get_interval_ms)
      ∷ map (λ x. line (print_sample p x)) printed
    ++ closed ∷ delivered total ∷ []

-- The loop of such a run prints what the file was given, numbered from 0.
pub loop_given :
    (c : MainCalls) (d : Device) (f : File) {most : ℤ} {h h' : Log} {given : List GpuSample}
    {missed : ℕ}
    → Represents d.ring h
    → Driven most 0 (opened_file d f) h c.turns given missed h'
    → length h' < 2 ^ 64
    → (main_loop most 0 c.turns ≡ (numbered 0 given, length given))
      × Sublist given (drop (length h) h')
      × (length given + missed ≤ length h' - length h)
      × (missed ≡ 0 → given ≡ take (length given) (drop (length h) h'))
loop_given c d f {most} {h} {h'} {given} {missed} before run fits =
    let (n, ok) =
      Driven-ReaderOk (at_end h) run (opened_file-next d f before) (at_end-ReaderOk h) in
    let small : 0 + length given < 2 ^ 64 = omega (arith, ok.counted, ok.within) in
    (
      loop_prints run small ∙ ap (λ total. (numbered 0 given, total)) (omega arith),
      Sublist.trans ok.ordered (take-Sublist (n - length h) (drop (length h) h')),
      omega (arith, ok.counted, ok.within),
      λ none_missed. ok.complete (omega (arith, none_missed)) refl,
    )

-- From the driver's `open` to the last line: a run of the reader, with any options that make it go
-- on, on a device that can be opened and whose ring represents the log `h` then, each of whose
-- turns leaves the loop, goes on with nothing, or reads by `gpu_telem_read` from a ring with what
-- was pushed meanwhile, exits with 0 after it printed, between the banner and the end, the samples
-- that its file was given, numbered from 0, and their number. They are a selection, in order, of
-- what was pushed since the `open`, they and the missed ones are no more than that, and if none
-- was missed they are its first samples, each once. Condition: fewer than 2^64 samples are pushed.
pub main_prints_stream :
    (p : Printf) (c : MainCalls) (d : Device) (f : File) {most : ℤ} {h h' : Log}
    {given : List GpuSample} {missed : ℕ}
    → parse_options c.strtol (negsuc 0) c.options ≡ go most
    → c.open_ok (device_operand c.operands) ≡ true
    → Represents d.ring h
    → Driven most 0 (opened_file d f) h c.turns given missed h'
    → length h' < 2 ^ 64
    → (main p c ≡ (
      0,
      opened (device_operand c.operands)
            ∷ banner (ioctl_value c get_ring_size) (ioctl_value c get_interval_ms)
            ∷ map (λ x. line (print_sample p x)) (numbered 0 given)
          ++ closed ∷ delivered (length given) ∷ [],
    ))
      × Sublist given (drop (length h) h')
      × (length given + missed ≤ length h' - length h)
      × (missed ≡ 0 → given ≡ take (length given) (drop (length h) h'))
unfolding main session
main_prints_stream p c d f wanted opens before run fits =
    let (prints, part, counted, complete) = loop_given c d f before run fits in
    (rw (wanted, opens, main) (ap (λ o. (0, after_banner p c o)) prints), part, counted, complete)
