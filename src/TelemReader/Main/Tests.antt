-- ===== src/TelemReader/Main/Tests.antt =====
-- Runs of the reader, and its theorems at concrete ones.
use lkm_char_dev.Base.{
  ◌≤◌, ◌≡◌, refl, arith, true, false, none, List, [], ◌∷◌, ◌++◌, map, length, take, length-take,
  All, subst, sym,
}
use lkm_char_dev.Base.Int.{pos, negsuc}
use lkm_char_dev.Uapi.{GpuSample}
use lkm_char_dev.Printing.Lines.{print_lines}
use lkm_char_dev.Printing.Columns.{utf8, print_row}
use lkm_char_dev.Uapi.Layout.{encode_all, decode_all, encode, decode}
use lkm_char_dev.Device.{
  Device, IoctlCalls, gpu_telem_ioctl, put_u32, get_ring_size, get_interval_ms,
}
use lkm_char_dev.Examples.{sample, sample1-IsSample, empty_ring, bare_device, printing}
use lkm_char_dev.Sysfs.{bytes}
use lkm_char_dev.TelemReader.{Turn, main_loop, polled, received, turn_outcome, throttle_text}
use lkm_char_dev.TelemReader.Main.Output.{
  cells, print_header, event_lines, output_lines, main_output, read_output,
}
use lkm_char_dev.TelemReader.Main.Short.{IsShort}
use lkm_char_dev.TelemReader.Main.Tells.{output_tells_samples}
use lkm_char_dev.Examples.Printed.{printing-IsPrintf}
use lkm_char_dev.TelemReader.Loop.{KeepsSize}
use lkm_char_dev.TelemReader.Main.{
  count, help, unknown, exit, go, session, parse_options, MainCalls, ioctl_value, Line,
  print_sample, opened, banner, line, closed, delivered, main,
}
use lkm_char_dev.TelemReader.Main.Delivers.{main_delivers, banner_tells_settings}

abbrev set_device : Device
set_device = record bare_device { ring = empty_ring; interval_ms = 500 }

abbrev copying_ioctl : IoctlCalls
copying_ioctl = record { copy_to_user = λ bs. 0; copy_from_user = none }

abbrev two : List GpuSample
two = sample 1 ∷ record (sample 2) { temp_millideg = negsuc 0; throttle_reasons = 2 } ∷ []

abbrev serving : Turn
serving = record {
  running = true;
  poll = polled true;
  read = λ size. received (take size (encode_all two));
}

serving-KeepsSize : KeepsSize serving
serving-KeepsSize size bs e = grind (arith, length-take size (encode_all two))

-- `gpu_telem_reader -n 3`, where `strtol` reads the digit.
abbrev calls : MainCalls
calls = record {
  options = count (bytes "3") ∷ [];
  operands = [];
  strtol = λ t. pos 3;
  open_ok = λ dev. true;
  ioctl = λ cmd. (gpu_telem_ioctl copying_ioctl set_device cmd).sent;
  turns = serving ∷ serving ∷ [];
}

usage_statuses :
    (parse_options (λ t. pos 3) (negsuc 0) (help ∷ unknown ∷ []) ≡ exit 0)
    × (parse_options (λ t. pos 3) (negsuc 0) (count [] ∷ unknown ∷ help ∷ []) ≡ exit 1)
    × (main printing (record calls { open_ok = λ dev. false }) ≡ (1, []))
unfolding parse_options main
usage_statuses = (refl, refl, refl)

second_line :
    print_sample printing (1, record (sample 2) { temp_millideg = negsuc 0; throttle_reasons = 2 })
    ≡ record {
      index = 1;
      timestamp_ns = 2;
      temp = bytes "n/a";
      fan_rpm = 0;
      power = 0;
      core_freq_mhz = 0;
      throttle = bytes "THM ";
    }
unfolding print_sample throttle_text
second_line = refl

delivers_three :
    (lines : List (Line printing)) × (length lines ≤ 3)
    × (main printing calls ≡ (
      0,
      opened (bytes "/dev/gpu_telem")
            ∷ banner (ioctl_value calls get_ring_size) (ioctl_value calls get_interval_ms)
            ∷ map line lines
          ++ closed ∷ delivered (length lines) ∷ [],
    ))
unfolding parse_options
delivers_three =
    main_delivers printing calls 3 refl (omega arith) refl
      (serving-KeepsSize, (serving-KeepsSize, tt))

banner_of_500 : (ioctl_value calls get_ring_size ≡ 2) × (ioctl_value calls get_interval_ms ≡ 500)
banner_of_500 =
    banner_tells_settings calls copying_ioctl set_device (λ cmd. refl) (λ bs. refl) (omega arith)
      (omega arith)

abbrev hot : GpuSample
hot = record (sample 2) { temp_millideg = negsuc 0; throttle_reasons = 2 }

three_numbered : (main_loop (pos 3) 0 calls.turns).0 ≡ (0, sample 1) ∷ (1, hot) ∷ (2, sample 1) ∷ []
unfolding main_loop turn_outcome encode_all decode_all decode encode
three_numbered = refl

count_read : parse_options calls.strtol (negsuc 0) calls.options ≡ go (pos 3)
unfolding parse_options
count_read = refl

three-IsShort : All (IsShort printing) (main_loop (pos 3) 0 calls.turns).0
unfolding print_sample
three-IsShort =
    let shorts : All (IsShort printing) ((0, sample 1) ∷ (1, hot) ∷ (2, sample 1) ∷ []) = (
      (sample1-IsSample, omega arith, omega arith, omega arith, omega arith),
      (
        (omega arith, omega arith, omega arith, omega arith, omega arith),
        ((sample1-IsSample, omega arith, omega arith, omega arith, omega arith), tt),
      ),
    ) in
    subst (All (IsShort printing)) (sym three_numbered) shorts

output_tells_three :
    read_output printing (main_output printing (bytes "reader") calls)
    ≡ map (λ x. cells printing (print_sample printing x)) (main_loop (pos 3) 0 calls.turns).0
output_tells_three =
    output_tells_samples printing (bytes "reader") calls (pos 3) printing-IsPrintf refl refl
      count_read refl three-IsShort

-- The header's title `temp_°C` is eight bytes in nine columns, and `idx` is three in seven.
header_bytes :
    print_header
    ≡ (bytes "idx      timestamp_ns          "
        ++ utf8 "temp_°C"
        ++ bytes "   fan_rpm   power_W     core_MHz    throttle")
      ∷ bytes "-------  --------------------  ---------  --------  ----------  ----------  --------"
      ∷ []
unfolding print_header print_row
header_bytes = refl

-- All that the run prints.
whole_output :
    main_output printing (bytes "reader") calls
    ≡ print_lines (
        bytes "Device   : /dev/gpu_telem"
          ∷ bytes "Ring     : 2 samples  Interval: 500 ms"
          ∷ []
          ∷ print_header
        ++ bytes "0        1                     0.0        0         0.0         0           -"
          ∷ bytes "1        2                     n/a        0         0.0         0           THM "
          ∷ bytes "2        1                     0.0        0         0.0         0           -"
          ∷ []
          ∷ bytes "reader: 3 samples delivered."
          ∷ [])
unfolding main_output main session main_loop output_lines event_lines parse_options print_row
    print_header print_sample throttle_text turn_outcome encode_all decode_all decode encode
    gpu_telem_ioctl put_u32
whole_output = refl
