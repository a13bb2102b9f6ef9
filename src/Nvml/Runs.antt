-- ===== src/Nvml/Runs.antt =====
-- Runs of the comparison tool: exit status, what is acquired and released, and when there is a table.
use lkm_char_dev.Base.{ℕ, ◌≡◌, ◌⊎◌, ◌↔◌, arith, true}
use lkm_char_dev.Base.{List, [], ◌∷◌, Option, none, some, length}
use lkm_char_dev.Uapi.{sample_size}
use lkm_char_dev.Printing.{Text, Printf}
use lkm_char_dev.TelemReader.{received}
use lkm_char_dev.Nvml.{
  NvmlCalls, DeviceCalls, Effect, nvml_init, nvml_shutdown, open_device, close_device, nvml_guard,
  drop_guard, whole_sample, read_kernel_sample, device_path,
}
use lkm_char_dev.Nvml.Main.{nvml_main}

pub data Held : Type 0 where
  library device : Held

-- What is held after a trace, the last acquired first; the release of anything else is an error.
abbrev pub replay : List Held → List Effect → Option (List Held)
replay held [] = some held
replay held (nvml_init ∷ es) = replay (library ∷ held) es
replay held (open_device path ∷ es) = replay (device ∷ held) es
replay (library ∷ held) (nvml_shutdown ∷ es) = replay held es
replay (device ∷ held) (close_device ∷ es) = replay held es
replay _ _ = none

-- The device can be opened, and a read of it gives a whole sample.
abbrev pub Reads : DeviceCalls → Text → Type 0
Reads k dev =
    (k.open_ok dev ≡ true)
    × ((bs : List ℕ) × (k.read dev sample_size ≡ received bs) × (length bs ≡ sample_size))

-- Every run of the comparison tool in the build with NVML, whatever NVML and the device answer,
-- releases all that it acquired, the last acquired first, before it ends; it exits with 0 exactly
-- where NVML is initialised and gives a handle, the device can be opened, and a read of it gives a
-- whole sample; otherwise it exits with 1 and prints no row.
pub nvml_main_lem :
    (p : Printf) (n : NvmlCalls) (k : DeviceCalls) (argv : List Text)
    → let run = nvml_main p n k argv in
      (replay [] run.trace ≡ some [])
      × ((run.status ≡ 0) ↔ ((n.init ≡ true) × (n.handle ≡ true) × Reads k (device_path argv)))
      × ((run.status ≡ 0) ⊎ ((run.status ≡ 1) × (run.rows ≡ [])))
unfolding nvml_main nvml_guard drop_guard read_kernel_sample whole_sample
nvml_main_lem p n k argv = ground arith
