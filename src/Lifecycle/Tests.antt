-- ===== src/Lifecycle/Tests.antt =====
-- Loads and unloads, and their theorems at concrete ones.
use lkm_char_dev.Base.{
  ℕ, ◌*◌, ◌≤◌, ◌<◌, ◌≡◌, refl, arith, inl, [], ◌∷◌, ◌++◌, some, none, replicate, true, map, All,
}
use lkm_char_dev.Base.Int.{pos}
use lkm_char_dev.Uapi.{zero_sample, IsSample}
use lkm_char_dev.Examples.{bare_device, willing, plenty-IsVzalloc}
use lkm_char_dev.Ring.{RingBuf, ring_init, ring_destroy, enomem}
use lkm_char_dev.Ring.Init.{IsRingSize}
use lkm_char_dev.Ring.Invariant.{Represents}
use lkm_char_dev.Sysfs.{probe_hwmon_paths}
use lkm_char_dev.Lifecycle.{
  InitCalls, Params, Loaded, acquire, release, ring_memory, region, cdev, class, device_node,
  collector, gpu_telem_init, gpu_telem_exit, init_ring, alloc_region, rounded, next_pow2,
  next_pow2_from,
}
use lkm_char_dev.Lifecycle.Pow2.{IsNextPow2, next_pow2-IsNextPow2, next_pow2_diverges}
use lkm_char_dev.Lifecycle.Balance.{
  IsInitCalls, AllOrNothing, replay, init-AllOrNothing, exit_releases_all,
}
use lkm_char_dev.Lifecycle.Success.{init_returns, init_device}
use lkm_char_dev.Base.Steps.{Steps, step, stop}
use lkm_char_dev.Unload.{Module, collecting, exit_calls, Step, Calm, test, begin_exit}
use lkm_char_dev.Unload.Finish.{IsUnloaded}
use lkm_char_dev.Device.{gpu_telem_open}
use lkm_char_dev.Driver.{Driver, Call, Used, opens, loaded_driver}
use lkm_char_dev.Driver.Counts.{Counted, load-Counted}
use lkm_char_dev.Driver.Load.{IsHealthy, load-IsHealthy}
use lkm_char_dev.Unload.Life.{loaded_module, releases, module_life}

-- A ring size that is no power of two, and an interval that is too short.
abbrev params : Params
params = record { hwmon_path = []; sample_ms = 5; ring_size = 6 }

-- A kernel in which `device_create` fails.
abbrev refusing : InitCalls
refusing = record willing { device_create_fails = true }

willing-IsInitCalls : IsInitCalls willing
willing-IsInitCalls = record {
  vzalloc_zeroes = plenty-IsVzalloc;
  cdev_code = inl refl;
  class_code = λ e found. ground arith;
  thread_code = λ e found. ground arith;
}

refusing-IsInitCalls : IsInitCalls refusing
refusing-IsInitCalls = record {
  vzalloc_zeroes = plenty-IsVzalloc;
  cdev_code = inl refl;
  class_code = λ e found. ground arith;
  thread_code = λ e found. ground arith;
}

abbrev fresh_ring : RingBuf
fresh_ring = record {
  samples = some (replicate 8 zero_sample);
  size = 8;
  mask = 7;
  head_seq = 0;
  dropped = 0;
}

abbrev started : Loaded
started = record {
  ret = pos 0;
  device = record bare_device { ring = fresh_ring; interval_ms = 10 };
  trace =
      acquire ring_memory
      ∷ acquire region
      ∷ acquire cdev
      ∷ acquire class
      ∷ acquire device_node
      ∷ acquire collector
      ∷ [];
}

abbrev refused : Loaded
refused = record {
  ret = enomem;
  device = record bare_device { ring = record fresh_ring { samples = none }; interval_ms = 10 };
  trace =
      acquire ring_memory
      ∷ acquire region
      ∷ acquire cdev
      ∷ acquire class
      ∷ release class
      ∷ release cdev
      ∷ release region
      ∷ release ring_memory
      ∷ [];
}

starts : gpu_telem_init willing params bare_device ≡ some started
unfolding gpu_telem_init rounded init_ring alloc_region ring_init probe_hwmon_paths
starts = refl

refuses : gpu_telem_init refusing params bare_device ≡ some refused
unfolding gpu_telem_init rounded init_ring alloc_region ring_init probe_hwmon_paths ring_destroy
refuses = refl

powers : (next_pow2 1 ≡ some 1) × (next_pow2 5 ≡ some 8) × (next_pow2 2147483648 ≡ some 2147483648)
unfolding next_pow2
powers = (refl, refl, refl)

init-AllOrNothing_example : AllOrNothing refused
init-AllOrNothing_example = init-AllOrNothing refusing-IsInitCalls params bare_device refl refuses

exit_releases :
    (replay [] (started.trace ++ (gpu_telem_exit started.device).1) ≡ some [])
    × ((gpu_telem_exit started.device).0.ring.samples ≡ none)
exit_releases = exit_releases_all params bare_device willing-IsInitCalls refl starts refl

init_device_example :
    Represents fresh_ring []
    × IsRingSize 8
    × (6 ≤ 8)
    × (8 < 2 * 6)
    × (started.device.interval_ms ≡ 10)
    × (started.device.open_count ≡ 0)
init_device_example = init_device willing-IsInitCalls params bare_device starts refl

init_returns_example : (res : Loaded) × (gpu_telem_init refusing params bare_device ≡ some res)
init_returns_example = init_returns refusing params bare_device

next_pow2_run : (p : ℕ) × (next_pow2 600 ≡ some p) × IsNextPow2 600 p
next_pow2_run = next_pow2-IsNextPow2 600 (omega arith)

above_2_31 : next_pow2_from 1000 1 2147483649 ≡ none
above_2_31 = next_pow2_diverges 1000 2147483649 (omega arith)

-- The module is told to unload while its collector is in its first round.
abbrev leaving : Module
leaving = record (loaded_module started.device) { collector = collecting; exiting = some 0 }

left_in_round : Steps Step (loaded_module started.device) leaving
left_in_round = step (test refl) (step (begin_exit refl refl) stop)

module_life_example :
    ((t : Module) × Steps Calm leaving t × IsUnloaded t)
    × (replay [] (started.trace ++ map releases exit_calls) ≡ some [])
module_life_example =
    module_life params bare_device 0 willing-IsInitCalls refl starts refl left_in_round
      (omega arith) refl

-- A file is opened on the device that was loaded.
abbrev opened_driver : (s : Driver) × Steps Call (loaded_driver started.device) s
unfolding gpu_telem_open
opened_driver = (_, step (opens 0 refl refl) stop)

load-IsHealthy_example :
    Used opened_driver.0
    × IsHealthy 8 opened_driver.0
    × Represents fresh_ring []
    × All IsSample []
    × IsRingSize 8
    × (6 ≤ 8)
    × (8 < 2 * 6)
unfolding opened_driver
load-IsHealthy_example =
    load-IsHealthy willing-IsInitCalls params bare_device starts refl opened_driver.1 (omega arith)

load-Counted_example : (bound : ℕ) × Counted bound opened_driver.0.device opened_driver.0.files
unfolding opened_driver
load-Counted_example =
    load-Counted willing-IsInitCalls params bare_device starts refl opened_driver.1
