-- ===== src/Driver/Run.antt =====
-- A run of the driver for the tests: a file is opened, a sample is collected, and the file is read by
-- a thread that need not wait.
use lkm_char_dev.Base.{refl, arith, inl, true, if◌then◌else◌}
use lkm_char_dev.Base.Int.{pos}
use lkm_char_dev.Uapi.{zero_sample, IsSample}
use lkm_char_dev.Uapi.Layout.{encode_all}
use lkm_char_dev.Examples.{empty_ring, empty_ring-Represents, bare_device, quiet_files}
use lkm_char_dev.Ring.{ring_push, ring_consume, ring_data_available}
use lkm_char_dev.Device.{
  Device, ReadCalls, gpu_telem_open, gpu_telem_read, await, transfer, deliver,
}
use lkm_char_dev.Device.Errno.{erestartsys}
use lkm_char_dev.Collector.{collect_sample, attribute}
use lkm_char_dev.Driver.{Driver, Used, loaded, next, opens, collects, wakes, reads}

abbrev pub start_device : Device
start_device = record bare_device { ring = empty_ring }

abbrev pub prompt : ReadCalls
prompt = record {
  wait_event = λ r n. (if ring_data_available r n then pos 0 else erestartsys, r);
  kmalloc_array = λ n size. true;
  copy_to_user = λ bs. 0;
}

pub zero_sample-IsSample : IsSample zero_sample
zero_sample-IsSample = omega arith

unfoldable pub run : (s : Driver) × Used s
unfolding gpu_telem_open gpu_telem_read transfer await deliver ring_push ring_consume
    ring_data_available encode_all collect_sample attribute
run = (
  _,
  next
      (next
        (next (next (loaded {d = start_device} empty_ring-Represents) (opens 0 refl refl))
          (collects quiet_files 5 zero_sample refl (omega arith) zero_sample-IsSample refl))
        (wakes refl))
      (reads 0 prompt 96 refl (inl (refl, refl)) refl),
)
