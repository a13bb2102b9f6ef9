-- ===== src/Nvml/Main.antt =====
-- `main` of user/nvml_validate.cpp, in both builds: the exit status, the table, and what is acquired
-- and released on the way. The destructor of the guard runs on every return.
use lkm_char_dev.Base.{ℕ, none, some, List, [], ◌++◌, if◌then◌else◌}
use lkm_char_dev.Printing.{Text, Printf}
use lkm_char_dev.Nvml.{
  NvmlCalls, DeviceCalls, Effect, nvml_guard, drop_guard, read_kernel_sample, device_path,
}
use lkm_char_dev.Nvml.Table.{Row, nvml_rows, plain_rows}

pub record Run : Type 0 where
  pub status : ℕ
  pub rows : List Row
  pub trace : List Effect

module _ (p : Printf) where
  unfoldable pub nvml_main : NvmlCalls → DeviceCalls → List Text → Run
  nvml_main n k argv =
      let (ok, made) = nvml_guard n in
      if ok
      then (let (sample, used) = read_kernel_sample k (device_path argv) in
          let trace = made ++ used ++ drop_guard ok in
          elim sample [
            | none ↦ record { status = 1; rows = []; trace = trace }
            | some ks ↦ record { status = 0; rows = nvml_rows p n ks; trace = trace }
          ])
      else record { status = 1; rows = []; trace = made ++ drop_guard ok }

  unfoldable pub plain_main : DeviceCalls → List Text → Run
  plain_main k argv =
      let (sample, used) = read_kernel_sample k (device_path argv) in
      elim sample [
        | none ↦ record { status = 1; rows = []; trace = used }
        | some ks ↦ record { status = 0; rows = plain_rows p ks; trace = used }
      ]
