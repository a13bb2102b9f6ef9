-- ===== src/TelemReader/Main/Output.antt =====
-- What user/gpu_telem_reader.c writes to its standard output, byte by byte, and a reading of it.
use lkm_char_dev.Base.{ℕ, ◌≡◌, true, List, [], ◌∷◌, ◌++◌, map, drop, All, ◌==◌, if◌then◌else◌}
use lkm_char_dev.Base.Int.{negsuc}
use lkm_char_dev.Sysfs.{bytes}
use lkm_char_dev.Printing.{Text, Printf}
use lkm_char_dev.Printing.Columns.{utf8, print_row, read_row, Fits}
use lkm_char_dev.Printing.Lines.{is_plain, print_lines, read_lines, until_empty}
use lkm_char_dev.TelemReader.Main.{
  exit, go, parse_options, MainCalls, Line, Event, opened, banner, line, closed, delivered, main,
}

-- The widths of the columns, in `print_header` and in `print_sample`.
abbrev pub widths : List ℕ
widths = 7 ∷ 20 ∷ 9 ∷ 8 ∷ 10 ∷ 10 ∷ []

abbrev pub titles : List Text
titles =
    bytes "idx"
    ∷ bytes "timestamp_ns"
    ∷ utf8 "temp_°C"
    ∷ bytes "fan_rpm"
    ∷ bytes "power_W"
    ∷ bytes "core_MHz"
    ∷ bytes "throttle"
    ∷ []

abbrev pub rules : List Text
rules =
    bytes "-------"
    ∷ bytes "--------------------"
    ∷ bytes "---------"
    ∷ bytes "--------"
    ∷ bytes "----------"
    ∷ bytes "----------"
    ∷ bytes "--------"
    ∷ []

unfoldable pub print_header : List Text
print_header = print_row widths titles ∷ print_row widths rules ∷ []

-- The line that says how to call the program.
abbrev pub usage : Text → Text
usage prog = bytes "Usage: " ++ (prog ++ bytes " [-n count] [device]")

module _ (p : Printf) where
  -- The texts that `printf` makes of the arguments of a line.
  abbrev pub cells : Line p → List Text
  cells l =
      p.decimal l.index
      ∷ p.decimal l.timestamp_ns
      ∷ l.temp
      ∷ p.decimal l.fan_rpm
      ∷ p.fixed 0 3 l.power
      ∷ p.decimal l.core_freq_mhz
      ∷ l.throttle
      ∷ []

  -- The lines of output of an event, in a program that was called by this name.
  unfoldable pub event_lines : Text → Event p → List Text
  event_lines prog (opened dev) = (bytes "Device   : " ++ dev) ∷ []
  event_lines prog (banner ring_sz interval) =
      (bytes "Ring     : "
        ++ (p.decimal ring_sz
            ++ (bytes " samples  Interval: " ++ (p.decimal interval ++ bytes " ms"))))
      ∷ []
      ∷ print_header
  event_lines prog (line l) = print_row widths (cells l) ∷ []
  event_lines prog closed = []
  event_lines prog (delivered total) =
      [] ∷ (prog ++ (bytes ": " ++ (p.decimal total ++ bytes " samples delivered."))) ∷ []

  unfoldable pub output_lines : Text → List (Event p) → List Text
  output_lines prog [] = []
  output_lines prog (e ∷ es) = event_lines prog e ++ output_lines prog es

  -- The output of a whole run; the usage line of a wrong option goes to the other stream.
  unfoldable pub main_output : Text → MainCalls → Text
  main_output prog c = elim (parse_options c.strtol (negsuc 0) c.options) [
    | exit status ↦ if status == 0 then print_lines (usage prog ∷ []) else []
    | go most ↦ print_lines (output_lines prog (main p c).1)
  ]

  -- The rows between the header and the last lines, each as its columns.
  abbrev pub read_output : Text → List (List Text)
  read_output text = map (read_row widths) (until_empty (drop 5 (read_lines text)))

  -- A line whose texts fit their columns.
  abbrev pub IsTidy : Line p → Type 0
  IsTidy l = Fits widths (cells l) × All (λ c. is_plain c ≡ true) (cells l)
