-- ===== src/Nvml.antt =====
-- user/nvml_validate.cpp: the guard of the NVML library and the snapshot of the kernel's device; the
-- comparison table and `main` are in the children. NVML, the device and `printf` are arguments.
pub mod Table
pub mod Main
pub mod Runs
pub mod Cells
pub mod Snapshot
pub mod Output
pub mod Shown
pub mod Legible
pub mod Told
pub mod Defined
mod Tests
use lkm_char_dev.Base.{ℕ, Bool, true, false, Option, none, some, List, [], ◌∷◌}
use lkm_char_dev.Base.{length, take, ◌==◌, if◌then◌else◌}
use lkm_char_dev.Uapi.{GpuSample, sample_size}
use lkm_char_dev.Uapi.Layout.{decode}
use lkm_char_dev.Sysfs.{bytes}
use lkm_char_dev.Printing.{Text}
use lkm_char_dev.TelemReader.{ReadAnswer, read_error, received}

-- What NVML answers: a value where the call returns NVML_SUCCESS. `gpu_rates` and `mem_rates` are the
-- answers to the two calls of `nvmlDeviceGetUtilizationRates`.
pub record NvmlCalls : Type 0 where
  pub init : Bool
  pub handle : Bool
  pub temperature : Option ℕ
  pub fan_speed : Option ℕ
  pub power_usage : Option ℕ
  pub graphics_clock : Option ℕ
  pub mem_clock : Option ℕ
  pub gpu_rates : Option (ℕ × ℕ)
  pub mem_rates : Option (ℕ × ℕ)
  pub throttle_reasons : Option ℕ
  pub corrected : Option ℕ
  pub uncorrected : Option ℕ
  pub performance_state : Option ℕ

-- What the program acquires and releases.
pub data Effect : Type 0 where
  nvml_init nvml_shutdown : Effect
  open_device : Text → Effect
  close_device : Effect

-- The constructor of `NvmlGuard`: `ok`, and what it did.
unfoldable pub nvml_guard : NvmlCalls → Bool × List Effect
nvml_guard n =
    if n.init
    then if n.handle then (true, nvml_init ∷ []) else (false, nvml_init ∷ nvml_shutdown ∷ [])
    else (false, [])

-- Its destructor.
unfoldable pub drop_guard : Bool → List Effect
drop_guard ok = if ok then nvml_shutdown ∷ [] else []

-- `open` succeeds or not; `read` answers to a path and a size.
pub record DeviceCalls : Type 0 where
  pub open_ok : Text → Bool
  pub read : Text → ℕ → ReadAnswer

-- `n != sizeof(s)`, where `n` is negative on an error.
unfoldable pub whole_sample : ReadAnswer → Option GpuSample
whole_sample (read_error eintr) = none
whole_sample (received bs) = if length bs == sample_size then some (decode bs) else none

-- `none` is the result -1.
unfoldable pub read_kernel_sample : DeviceCalls → Text → Option GpuSample × List Effect
read_kernel_sample k dev =
    if k.open_ok dev
    then (whole_sample (k.read dev sample_size), open_device dev ∷ close_device ∷ [])
    else (none, [])

abbrev pub default_device : Text
default_device = bytes "/dev/gpu_telem"

abbrev pub device_path : List Text → Text
device_path [] = default_device
device_path (program ∷ []) = default_device
device_path (program ∷ dev ∷ rest) = dev
