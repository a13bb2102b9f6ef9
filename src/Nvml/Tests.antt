-- ===== src/Nvml/Tests.antt =====
-- Runs of the comparison tool, and its theorems at concrete ones.
use lkm_char_dev.Base.{
  ◌≡◌, ◌⊎◌, ◌↔◌, refl, arith, true, false, none, some, [], ◌∷◌, ◌++◌, map, take, replicate,
}
use lkm_char_dev.Base.Int.{pos}
use lkm_char_dev.Uapi.{GpuSample, zero_sample}
use lkm_char_dev.Uapi.Layout.{encode, encode_all}
use lkm_char_dev.Ring.{ring_consume, ring_data_available}
use lkm_char_dev.Device.{Device, gpu_telem_open, gpu_telem_read, await, transfer, deliver}
use lkm_char_dev.Device.Read.{Served}
use lkm_char_dev.Collector.{collect_sample}
use lkm_char_dev.Examples.{
  at_start, sample, sample1-IsSample, sample2-IsSample, sample3-IsSample, empty_ring,
  empty_ring-Represents, full_ring, three, full_ring-Represents, bare_device, copying, quiet_files,
  printing,
}
use lkm_char_dev.Sysfs.{bytes}
use lkm_char_dev.TelemReader.{received}
use lkm_char_dev.Nvml.{
  NvmlCalls, DeviceCalls, nvml_init, nvml_shutdown, open_device, close_device, nvml_guard,
  drop_guard, read_kernel_sample, whole_sample,
}
use lkm_char_dev.Nvml.Table.{
  unavailable, opt_str, count_str, kernel_temp, kernel_power, nvml_rows, plain_rows,
}
use lkm_char_dev.Nvml.Main.{nvml_main, plain_main}
use lkm_char_dev.Nvml.Runs.{replay, Reads, nvml_main_lem}
use lkm_char_dev.Nvml.Cells.{
  kernel_column, is_defined, columns_agree, temperature_undefined, bare_unavailable,
}
use lkm_char_dev.Nvml.Snapshot.{snapshot_fresh}

abbrev card : NvmlCalls
card = record {
  init = true;
  handle = true;
  temperature = some 45;
  fan_speed = some 30;
  power_usage = some 120500;
  graphics_clock = none;
  mem_clock = none;
  gpu_rates = some (7, 3);
  mem_rates = some (7, 3);
  throttle_reasons = none;
  corrected = some 0;
  uncorrected = none;
  performance_state = some 8;
}

abbrev warm : GpuSample
warm = record zero_sample { temp_millideg = pos 45000; fan_rpm = 1200 }

abbrev device : DeviceCalls
device = record { open_ok = λ dev. true; read = λ dev size. received (encode warm) }

-- A device that is read short, as by a signal.
abbrev short_device : DeviceCalls
short_device = record device { read = λ dev size. received (take 47 (encode warm)) }

plain_column :
    map kernel_column (plain_rows printing warm)
    ≡ (bytes "Temperature", some (bytes "45.0 " ++ (0xC2 ∷ 0xB0 ∷ b'C' ∷ [])))
      ∷ (bytes "Fan speed", some (bytes "1200 RPM"))
      ∷ (bytes "Power draw", some unavailable)
      ∷ (bytes "Core frequency", some unavailable)
      ∷ (bytes "Memory frequency", some unavailable)
      ∷ (bytes "GPU utilisation", some unavailable)
      ∷ []
unfolding plain_rows opt_str count_str kernel_temp kernel_power
plain_column = refl

short_read : nvml_main printing card short_device [] ≡ record {
  status = 1;
  rows = [];
  trace = nvml_init ∷ open_device (bytes "/dev/gpu_telem") ∷ close_device ∷ nvml_shutdown ∷ [];
}
unfolding nvml_main nvml_guard drop_guard read_kernel_sample whole_sample encode
short_read = refl

nvml_main_lem_example :
    let run = nvml_main printing card short_device [] in
    (replay [] run.trace ≡ some [])
    × ((run.status ≡ 0)
        ↔ ((card.init ≡ true) × (card.handle ≡ true) × Reads short_device (bytes "/dev/gpu_telem")))
    × ((run.status ≡ 0) ⊎ ((run.status ≡ 1) × (run.rows ≡ [])))
nvml_main_lem_example = nvml_main_lem printing card short_device []

columns_alike :
    ((plain_main printing device []).status ≡ 0)
    × (map kernel_column (plain_main printing device []).rows
        ≡ take 6 (map kernel_column (nvml_main printing card device []).rows))
unfolding nvml_main nvml_guard read_kernel_sample whole_sample encode
columns_alike = columns_agree printing card device [] refl

-- NVML reports a temperature, and the cell that is to show it has undefined behaviour.
temperature_unprintable :
    map (λ r. is_defined r.nvml) (nvml_rows printing card warm) ≡ false ∷ replicate 10 true
temperature_unprintable = temperature_undefined printing card warm

bare_device-unavailable :
    map
      (λ r. r.kernel)
      (nvml_rows printing card (collect_sample quiet_files 5 bare_device zero_sample))
    ≡ replicate 11 (some unavailable)
bare_device-unavailable =
    bare_unavailable printing card quiet_files 5 bare_device zero_sample refl refl refl refl

-- The driver's answer to the tool's read, on a file opened when the ring was empty.
driver_read :
    gpu_telem_read copying empty_ring at_start 48
    ≡ some (record {
      ret = pos 48;
      ring = record full_ring { dropped = 1 };
      file = record { private_data = some 2; nonblock = false };
      sent = encode_all (sample 2 ∷ []);
    })
unfolding gpu_telem_read await transfer deliver ring_consume encode_all
driver_read = refl

driver-Served : Served copying empty_ring at_start 48 0 full_ring three
unfolding await ring_data_available
driver-Served = record {
  fits = omega arith;
  opened = refl;
  waited = refl;
  same_size = refl;
  represents = full_ring-Represents;
  available = refl;
  memory = refl;
  samples = (sample1-IsSample, (sample2-IsSample, (sample3-IsSample, tt)));
}

abbrev empty_device : Device
empty_device = record bare_device { ring = empty_ring }

abbrev driven : DeviceCalls
driven = record { open_ok = λ dev. true; read = λ dev size. received (encode_all (sample 2 ∷ [])) }

snapshot_fresh_example :
    (a : GpuSample) × ((read_kernel_sample driven (bytes "/dev/gpu_telem")).0 ≡ some a)
    × (some (sample 2) ≡ some a)
unfolding gpu_telem_open
snapshot_fresh_example =
    snapshot_fresh empty_device (record at_start { private_data = none }) driven
      (bytes "/dev/gpu_telem") three empty_ring-Represents driver-Served refl driver_read refl refl
