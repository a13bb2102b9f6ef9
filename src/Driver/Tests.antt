-- ===== src/Driver/Tests.antt =====
-- The theorems on the driver's calls at a run.
use lkm_char_dev.Base.{refl, arith, inl, [], some, ◌≡◌, ℕ, inr}
use lkm_char_dev.Uapi.{zero_sample}
use lkm_char_dev.Uapi.Layout.{encode_all, encode}
use lkm_char_dev.Examples.{empty_ring-Represents, quiet_files}
use lkm_char_dev.Ring.{ring_push, ring_consume, ring_data_available, RingBuf}
use lkm_char_dev.Device.{
  gpu_telem_open, gpu_telem_read, await, transfer, deliver, ReadResult, gpu_telem_poll,
}
use lkm_char_dev.Device.Errno.{erestartsys}
use lkm_char_dev.Collector.{collect_sample, attribute}
use lkm_char_dev.Driver.{Driver, Used, loaded, next, opens, collects, reads}
use lkm_char_dev.Driver.Run.{start_device, zero_sample-IsSample, run, prompt}
use lkm_char_dev.System.{System, Reach}
use lkm_char_dev.Driver.Shows.{Sim}
use lkm_char_dev.Driver.Streams.{Stream, driver_refines, driver-Stream, calls_return}

driver_refines_example : (u : System) × Reach u × Sim run.0 u
unfolding run
driver_refines_example = driver_refines run.1 (omega arith)

-- The file has read the sample.
driver-Stream_example : Stream run.0.log 0 1 (run.0.sent 0)
unfolding run
driver-Stream_example = driver-Stream run.1 (omega arith) 0 refl

-- After the read there is no data, and a signal ends the wait.
calls_return_example :
    ((res : ReadResult) × (gpu_telem_read prompt run.0.device.ring (run.0.files 0) 96 ≡ some res))
    × ((mask : ℕ) × (gpu_telem_poll run.0.device.ring (run.0.files 0) ≡ some mask))
    × ((r : RingBuf) × (ring_push run.0.device.ring zero_sample ≡ some r))
unfolding run ring_data_available
calls_return_example =
    calls_return run.1 (omega arith) 0 prompt 96 zero_sample refl (inr (erestartsys, refl, refl))

-- After a copy that fails: the position has moved, and nothing was reported.
abbrev failed_read : (s : Driver) × Used s
unfolding gpu_telem_open gpu_telem_read transfer await deliver ring_push ring_consume
    ring_data_available encode_all encode collect_sample attribute
failed_read = (
  _,
  next
      (next (next (loaded {d = start_device} empty_ring-Represents) (opens 0 refl refl))
        (collects quiet_files 5 zero_sample refl (omega arith) zero_sample-IsSample refl))
      (reads 0 (record prompt { copy_to_user = λ bs. 1 }) 96 refl (inl (refl, refl)) refl),
)

lost_by_fault : (failed_read.0.sent 0 ≡ []) × ((failed_read.0.files 0).private_data ≡ some 1)
unfolding failed_read
lost_by_fault = (refl, refl)
