-- ===== src/TelemReader/Tests.antt =====
-- Turns of the reader's loop, and its theorems at concrete ones.
use lkm_char_dev.Base.{
  ◌%◌, ℕ, ◌+◌, ◌*◌, ◌≤◌, ◌≡◌, refl, arith, true, some, false, List, [], ◌∷◌, ◌++◌, length, take,
  map, replicate, none, length-take, max, All,
}
use lkm_char_dev.Base.Int.{pos, negsuc}
use lkm_char_dev.Uapi.{GpuSample, sample_size}
use lkm_char_dev.Uapi.Layout.{encode, encode_all, decode_all, decode}
use lkm_char_dev.Examples.{
  sample, sample1-IsSample, sample2-IsSample, sample3-IsSample, empty_ring, full_ring, three,
  full_ring-Represents, empty_ring-Represents, bare_device, printing, copying, at_start,
}
use lkm_char_dev.Ring.{ring_consume, ring_data_available}
use lkm_char_dev.Device.{Device, File, gpu_telem_open, gpu_telem_read, await, transfer, deliver}
use lkm_char_dev.Device.Read.{Served}
use lkm_char_dev.Sysfs.{bytes}
use lkm_char_dev.TelemReader.{
  Turn, polled, poll_error, received, throttle_text, want, turn_outcome, main_loop, numbered,
}
use lkm_char_dev.TelemReader.Throttle.{
  told_reasons, told_reasons-throttle_text, length-throttle_text, known_bits,
}
use lkm_char_dev.TelemReader.Loop.{KeepsSize, main_loop_bounded, main_loop_prints}
use lkm_char_dev.TelemReader.EndToEnd.{prints_log}
use lkm_char_dev.TelemReader.Session.{Driven, over, went_on, fed}
use lkm_char_dev.TelemReader.Main.{
  go, parse_options, MainCalls, print_sample, opened, banner, line, closed, delivered, main,
}
use lkm_char_dev.Device.Files.{opened_file}
use lkm_char_dev.Examples.Printed.{printing-IsPrintf}
use lkm_char_dev.TelemReader.Main.Output.{main_output, read_output}
use lkm_char_dev.TelemReader.Main.Shows.{IsPrintable, terminal_shows_stream}
use lkm_char_dev.TelemReader.Main.Stream.{main_prints_stream}
use mathlib.Core.List.{Sublist}

throttles : (throttle_text 0 ≡ bytes "-") × (throttle_text 10 ≡ bytes "THM UTL ")
unfolding throttle_text
throttles = (refl, refl)

abbrev two : List GpuSample
two = sample 1 ∷ sample 2 ∷ []

-- A device that has these two samples for every `read`, as far as there is room.
abbrev serving : Turn
serving = record {
  running = true;
  poll = polled true;
  read = λ size. received (take size (encode_all two));
}

serving-KeepsSize : KeepsSize serving
serving-KeepsSize size bs e = grind (arith, length-take size (encode_all two))

abbrev interrupted_turn : Turn
interrupted_turn = record serving { poll = poll_error true }

-- With `-n 3`, the second batch is cut to one sample, and the loop ends.
three_printed :
    main_loop (pos 3) 0 (serving ∷ interrupted_turn ∷ serving ∷ serving ∷ [])
    ≡ ((0, sample 1) ∷ (1, sample 2) ∷ (2, sample 1) ∷ [], 3)
unfolding main_loop turn_outcome encode_all decode_all decode encode
three_printed = refl

two_turns_bounded :
    let (printed, total') = main_loop (pos 3) 0 (serving ∷ serving ∷ []) in
    (total' ≤ 3) × (0 + length printed ≡ total')
two_turns_bounded =
    main_loop_bounded 3 0 (serving ∷ serving ∷ []) (omega arith) (omega arith)
      (serving-KeepsSize, (serving-KeepsSize, tt))

one_turn_printed :
    let (rest, total') = main_loop (pos 5) 2 [] in
    main_loop (pos 5) 0 (serving ∷ []) ≡ (numbered 0 two ++ rest, total')
unfolding turn_outcome encode_all encode
one_turn_printed =
    main_loop_prints (pos 5) 0 serving [] two (sample1-IsSample, (sample2-IsSample, tt)) refl

told_reasons-throttle_text_example : told_reasons (throttle_text 10) ≡ 10 % 16
told_reasons-throttle_text_example = told_reasons-throttle_text 10

thm_utl_length : length (throttle_text 10) ≡ max 1 (4 * known_bits 10)
thm_utl_length = length-throttle_text 10

-- A device that answers with what the driver sends, for a file at the start of the stream.
abbrev driven : Turn
driven = record serving { read = λ size. received (encode_all (sample 2 ∷ sample 3 ∷ [])) }

driver_read :
    gpu_telem_read copying empty_ring at_start (want (negsuc 0) 0 * sample_size)
    ≡ some (record {
      ret = pos 96;
      ring = record full_ring { dropped = 1 };
      file = record { private_data = some 3; nonblock = false };
      sent = encode_all (sample 2 ∷ sample 3 ∷ []);
    })
unfolding gpu_telem_read await transfer deliver ring_consume encode_all
driver_read = refl

driver-Served :
    Served copying empty_ring at_start (want (negsuc 0) 0 * sample_size) 0 full_ring three
unfolding await ring_data_available
driver-Served = record {
  fits = omega arith;
  opened = refl;
  waited = refl;
  same_size = refl;
  represents = full_ring-Represents;
  available = refl;
  memory = refl;
  samples = (sample1-IsSample, (sample2-IsSample, (sample3-IsSample, tt)));
}

driven_prints : main_loop (negsuc 0) 0 (driven ∷ []) ≡ ((0, sample 2) ∷ (1, sample 3) ∷ [], 2)
unfolding main_loop numbered
driven_prints = prints_log (negsuc 0) 0 driven [] refl refl refl driver-Served refl driver_read refl

-- `gpu_telem_reader` on a device that is opened while its ring is empty. The ring has room for two of
-- the three samples that are pushed before the first turn; a signal ends the second.
abbrev calls : MainCalls
calls = record {
  options = [];
  operands = [];
  strtol = λ t. pos 0;
  open_ok = λ dev. true;
  ioctl = λ cmd. replicate 4 0;
  turns = driven ∷ interrupted_turn ∷ [];
}

abbrev empty_device : Device
empty_device = record bare_device { ring = empty_ring }

abbrev unopened : File
unopened = record at_start { private_data = none }

calls-Driven :
    Driven
      (negsuc 0)
      0
      (opened_file empty_device unopened)
      []
      calls.turns
      (sample 2 ∷ sample 3 ∷ [])
      1
      three
unfolding gpu_telem_open turn_outcome
calls-Driven = fed three refl refl refl driver-Served refl driver_read refl (went_on refl over)

main_prints_stream_example :
    (main printing calls ≡ (
      0,
      opened (bytes "/dev/gpu_telem")
            ∷ banner 0 0
            ∷ map (λ x. line (print_sample printing x)) ((0, sample 2) ∷ (1, sample 3) ∷ [])
          ++ closed ∷ delivered 2 ∷ [],
    ))
    × Sublist (sample 2 ∷ sample 3 ∷ []) three
    × (2 + 1 ≤ 3)
    × (◌≡◌ {A = ℕ} 1 0 → sample 2 ∷ sample 3 ∷ [] ≡ take 2 three)
unfolding parse_options numbered
main_prints_stream_example =
    main_prints_stream printing calls empty_device unopened refl refl empty_ring-Represents
      calls-Driven (omega arith)

three-IsPrintable : All (IsPrintable printing) three
unfolding print_sample
three-IsPrintable = (
  (sample1-IsSample, omega arith, omega arith, omega arith),
  (
    (sample2-IsSample, omega arith, omega arith, omega arith),
    ((sample3-IsSample, omega arith, omega arith, omega arith), tt),
  ),
)

no_options : parse_options calls.strtol (negsuc 0) calls.options ≡ go (negsuc 0)
unfolding parse_options
no_options = refl

terminal_shows_stream_example :
    (read_output printing (main_output printing (bytes "reader") calls)
      ≡ (bytes "0" ∷ bytes "2" ∷ bytes "0.0" ∷ bytes "0" ∷ bytes "0.0" ∷ bytes "0" ∷ bytes "-" ∷ [])
        ∷ (bytes "1"
            ∷ bytes "3"
            ∷ bytes "0.0"
            ∷ bytes "0"
            ∷ bytes "0.0"
            ∷ bytes "0"
            ∷ bytes "-"
            ∷ [])
        ∷ [])
    × Sublist (sample 2 ∷ sample 3 ∷ []) three
    × (◌≡◌ {A = ℕ} 1 0 → sample 2 ∷ sample 3 ∷ [] ≡ take 2 three)
unfolding numbered print_sample throttle_text
terminal_shows_stream_example =
    terminal_shows_stream printing (bytes "reader") calls empty_device unopened printing-IsPrintf
      refl refl no_options refl empty_ring-Represents calls-Driven (omega arith) (omega arith)
      three-IsPrintable
