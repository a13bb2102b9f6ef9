-- ===== src/Consumer/Tests.antt =====
-- Runs of the script, and its theorems at concrete ones.
use lkm_char_dev.Base.{
  ℕ, ◌+◌, ◌≤◌, ◌<◌, ◌≡◌, ◌⊎◌, refl, arith, true, false, some, List, [], ◌∷◌, map, length, take,
  drop,
}
use mathlib.Core.List.{Sublist}
use lkm_char_dev.Base.Int.{pos, negsuc}
use lkm_char_dev.Uapi.{GpuSample, IsSample}
use lkm_char_dev.Uapi.Layout.{encode, encode_all, le_value, le_bytes}
use lkm_char_dev.Sysfs.{bytes}
use lkm_char_dev.Collector.{collect_sample, attribute}
use lkm_char_dev.Device.{
  IoctlCalls, gpu_telem_ioctl, set_interval_ms, get_ring_size, get_interval_ms, min_sample_ms,
}
use lkm_char_dev.Driver.Run.{run}
use lkm_char_dev.Examples.{bare_device, sample, printing}
use lkm_char_dev.Nvml.Table.{kernel_temp, kernel_power}
use lkm_char_dev.Consumer.{
  UnpackedSample, Answer, timeout, interrupt, received, samples, fresh_buffer, numbered_rows, join,
  unpack, ioctl_get_ring_size, ioctl_get_interval_ms, ioctl_set_interval_ms, throttle_names,
}
use lkm_char_dev.Consumer.Unpack.{view, unpack_agrees}
use lkm_char_dev.Consumer.Rows.{limited, indexed, rows_limited}
use lkm_char_dev.Consumer.Stream.{waits, sends, stops}
use lkm_char_dev.Consumer.Prints.{sample_lines, line_of, consumer_prints_stream}
use lkm_char_dev.Consumer.Interval.{answered, main_sets_interval}
use lkm_char_dev.Consumer.Main.{Args, Calls, interval_set, closed, uncaught, temp_c, power_w, main}

-- The numbers of the script are those of the header.
ioctl_numbers :
    (ioctl_get_ring_size ≡ get_ring_size)
    × (ioctl_get_interval_ms ≡ get_interval_ms)
    × (ioctl_set_interval_ms ≡ set_interval_ms)
ioctl_numbers = (refl, refl, refl)

join_two : join (bytes ",") (bytes "POWER" ∷ bytes "UTIL" ∷ []) ≡ bytes "POWER,UTIL"
join_two = refl

-- `consumer.py`, stopped by Ctrl-C after a timeout and a sample.
abbrev table_args : Args
table_args = record {
  device = bytes "/dev/gpu_telem";
  count = pos 0;
  json = false;
  csv = false;
  set_interval = pos 0;
}

abbrev table_calls : Calls
table_calls = record {
  open_ok = λ dev. true;
  ioctl = λ cmd buf. some (le_bytes 4 2);
  answers = timeout ∷ received (run.0.sent 0) ∷ interrupt ∷ [];
}

consumer_prints_stream_example :
    (given : List GpuSample) × (sample_lines printing (main printing table_args table_calls)
      ≡ map (line_of printing table_args) (indexed 0 (map view given)))
    × Sublist given (take 1 (drop 0 run.0.log))
    × (0 + length given ≡ 1 → given ≡ take 1 (drop 0 run.0.log))
unfolding run collect_sample attribute encode
consumer_prints_stream_example =
    consumer_prints_stream printing run.1 (omega arith) 0 refl table_args table_calls
      (waits (sends 1 (run.0.sent 0) (omega arith) refl stops)) refl refl refl refl

-- A negative `-n` prints a single sample.
one_of_two : limited {A = ℕ} (negsuc 4) (1 ∷ 2 ∷ []) ≡ 1 ∷ []
one_of_two = refl

abbrev two_answers : List Answer
two_answers = received (encode_all (sample 1 ∷ sample 2 ∷ [])) ∷ []

-- `-n 1`
rows_limited_example :
    (numbered_rows (pos 1) 0 (samples fresh_buffer two_answers)).0
    ≡ indexed 0 (limited (pos 1) (samples fresh_buffer two_answers).0)
rows_limited_example = rows_limited (pos 1) fresh_buffer two_answers

-- A sample whose numbers all differ, of a device that two reasons throttle.
abbrev throttled : GpuSample
throttled = record (sample 1) {
  temp_millideg = pos 45000;
  fan_rpm = 1200;
  power_uw = 90000000;
  core_freq_mhz = 2505;
  mem_freq_mhz = 1250;
  gpu_util_pct = 97;
  mem_util_pct = 42;
  throttle_reasons = 9;
}

throttled-IsSample : IsSample throttled
throttled-IsSample = omega arith

unpack_agrees_example :
    (t : UnpackedSample) × (unpack (encode throttled) ≡ some t)
    × (t.timestamp_ns ≡ 1)
    × (t.temp_millideg ≡ pos 45000)
    × (t.fan_rpm ≡ 1200)
    × (t.power_uw ≡ 90000000)
    × (t.core_freq_mhz ≡ 2505)
    × (t.mem_freq_mhz ≡ 1250)
    × (t.gpu_util_pct ≡ 97)
    × (t.mem_util_pct ≡ 42)
    × (t.throttle_reasons ≡ 9)
    × (temp_c printing t ≡ kernel_temp printing throttled)
    × (power_w printing t ≡ kernel_power printing throttled)
    × (throttle_names t ≡ bytes "POWER" ∷ bytes "UTIL" ∷ [])
unpack_agrees_example = unpack_agrees printing throttled throttled-IsSample

-- `consumer.py --set-interval 200`.
abbrev kernel : List ℕ → IoctlCalls
kernel buf = record { copy_to_user = λ bs. 0; copy_from_user = some (le_value buf) }

abbrev interval_args : Args
interval_args = record table_args { set_interval = pos 200 }

abbrev interval_calls : Calls
interval_calls = record {
  open_ok = λ dev. true;
  ioctl = λ cmd buf. answered (gpu_telem_ioctl (kernel buf) bare_device cmd);
  answers = [];
}

main_sets_interval_example :
    let after = (gpu_telem_ioctl (kernel (le_bytes 4 200)) bare_device set_interval_ms).device in
    ((min_sample_ms ≤ 200)
      × (after ≡ record bare_device { interval_ms = 200 })
      × (main printing interval_args interval_calls ≡ interval_set (pos 200) ∷ closed ∷ []))
    ⊎ ((200 < min_sample_ms)
        × (after ≡ bare_device)
        × (main printing interval_args interval_calls ≡ uncaught ∷ []))
main_sets_interval_example =
    main_sets_interval printing interval_args interval_calls kernel bare_device 200 refl
      (omega arith) (omega arith) refl (λ cmd buf. refl) (λ buf. refl)
