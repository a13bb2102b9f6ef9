-- ===== src/Driver.antt =====
-- The driver as its callers use it: the handlers of `gpu_telem_fops` in kernel/gpu_telem_core.c called
-- for any number of files, in any order, beside the collector. A call is one step, taken where its
-- wait ends, since a wait changes nothing.
pub mod Run
pub mod Reads
pub mod Shows
pub mod Changes
pub mod Serves
pub mod Refines
pub mod Streams
pub mod Load
pub mod Counts
pub mod KeepsUp
mod Tests
use lkm_char_dev.Base.{
  ℕ, ◌+◌, ◌^◌, ◌<◌, ◌≡◌, ◌⊎◌, Bool, true, false, Option, none, some, List, [], ◌∷◌, ◌++◌, length,
  ◌==◌, if◌then◌else◌,
}
use lkm_char_dev.Base.Int.{ℤ, pos, negsuc, is_neg, is_zero}
use lkm_char_dev.Uapi.{GpuSample, IsSample}
use lkm_char_dev.Log.{Log}
use lkm_char_dev.Ring.{RingBuf, ring_push, ring_data_available}
use lkm_char_dev.Ring.Invariant.{Represents}
use lkm_char_dev.Device.{
  Device, File, ReadCalls, ReadResult, IoctlCalls, IoctlResult, gpu_telem_open, gpu_telem_release,
  gpu_telem_read, gpu_telem_poll, gpu_telem_ioctl,
}
use lkm_char_dev.Sysfs.{FileCalls}
use lkm_char_dev.Collector.{collect_sample}
use lkm_char_dev.System.{CollectorPc, collecting, pushed}

-- `gpu_telem_fops`: what the kernel calls for a file of the device.
pub record FileOperations : Type 0 where
  pub open_file : Bool → Device → File → ℤ × Device × File
  pub release : Device → File → ℤ × Device × File
  pub read : ReadCalls → RingBuf → File → ℕ → Option ReadResult
  pub poll : RingBuf → File → Option ℕ
  pub unlocked_ioctl : IoctlCalls → Device → ℕ → IoctlResult

abbrev pub gpu_telem_fops : FileOperations
gpu_telem_fops = record {
  open_file = gpu_telem_open;
  release = gpu_telem_release;
  read = gpu_telem_read;
  poll = gpu_telem_poll;
  unlocked_ioctl = gpu_telem_ioctl;
}

-- A read's part in the count of those that returned -EFAULT.
abbrev pub faulted : ℤ → ℕ
faulted (pos n) = 0
faulted (negsuc n) = if n == 13 then 1 else 0

-- The last four fields record what happened, and are tested by no call: the samples pushed, and for
-- each file the length of the log when it was opened, the bytes that its reads reported since, and
-- how many of them returned -EFAULT.
pub record Driver : Type 0 where
  pub device : Device
  pub collector : CollectorPc
  pub files : ℕ → File
  pub log : Log
  pub start : ℕ → ℕ
  pub sent : ℕ → List ℕ
  pub faults : ℕ → ℕ

abbrev pub update {ℓ} : {A : Type ℓ} → (ℕ → A) → ℕ → A → ℕ → A
update m i x j = if i == j then x else m j

abbrev pub IsOpen : File → Type 0
IsOpen f = (next : ℕ) × (f.private_data ≡ some next)

-- `wait_event_interruptible` as documented: it returns 0 only with its condition true, or the code of
-- a signal. The ring is the one at the moment of the return.
abbrev pub IsWait : ReadCalls → RingBuf → ℕ → Type 0
IsWait k r next =
    ((ring_data_available r next ≡ true) × (k.wait_event r next ≡ (pos 0, r)))
    ⊎ ((ret : ℤ) × (is_zero ret ≡ false) × (k.wait_event r next ≡ (ret, r)))

-- The bytes that a read reports to its caller: an error reports none, whatever was copied.
abbrev pub reported : ReadResult → List ℕ
reported res = if is_neg res.ret then [] else res.sent

-- A call of a handler, a round of the collector, or its wake-up. The memory of the collector's struct
-- is as its C types allow.
pub data Call (s : Driver) : Driver → Type 0 where
  collects :
      (k : FileCalls) (now : ℕ) (old : GpuSample) {r : RingBuf}
      → s.collector ≡ collecting
      → now < 2 ^ 64
      → IsSample old
      → ring_push s.device.ring (collect_sample k now s.device old) ≡ some r
      → Call s (record s {
        device = record s.device { ring = r };
        collector = pushed;
        log = s.log ++ collect_sample k now s.device old ∷ [];
      })
  wakes : s.collector ≡ pushed → Call s (record s { collector = collecting })
  opens :
      (i : ℕ) {ret : ℤ} {d : Device} {f : File}
      → (s.files i).private_data ≡ none
      → gpu_telem_fops.open_file true s.device (s.files i) ≡ (ret, d, f)
      → Call s (record s {
        device = d;
        files = update s.files i f;
        start = update s.start i (length s.log);
        sent = update s.sent i [];
        faults = update s.faults i 0;
      })
  fails_to_open :
      (i : ℕ) {ret : ℤ} {d : Device} {f : File}
      → (s.files i).private_data ≡ none
      → gpu_telem_fops.open_file false s.device (s.files i) ≡ (ret, d, f)
      → Call s (record s { device = d; files = update s.files i f })
  releases :
      (i : ℕ) {ret : ℤ} {d : Device} {f : File}
      → IsOpen (s.files i)
      → gpu_telem_fops.release s.device (s.files i) ≡ (ret, d, f)
      → Call s (record s { device = d; files = update s.files i f })
  reads :
      (i : ℕ) (k : ReadCalls) (count : ℕ) {next : ℕ} {res : ReadResult}
      → (s.files i).private_data ≡ some next
      → IsWait k s.device.ring next
      → gpu_telem_fops.read k s.device.ring (s.files i) count ≡ some res
      → Call s (record s {
        device = record s.device { ring = res.ring };
        files = update s.files i res.file;
        sent = update s.sent i (s.sent i ++ reported res);
        faults = update s.faults i (s.faults i + faulted res.ret);
      })
  polls : (i : ℕ) {mask : ℕ} → gpu_telem_fops.poll s.device.ring (s.files i) ≡ some mask → Call s s
  controls :
      (i cmd : ℕ) (k : IoctlCalls)
      → IsOpen (s.files i)
      → Call s (record s { device = (gpu_telem_fops.unlocked_ioctl k s.device cmd).device })
  sets_nonblock :
      (i : ℕ) (on : Bool)
      → Call s (record s { files = update s.files i (record (s.files i) { nonblock = on }) })

-- The device as `gpu_telem_init` leaves it, with no file open.
abbrev pub loaded_driver : Device → Driver
loaded_driver d = record {
  device = d;
  collector = collecting;
  files = λ i. record { private_data = none; nonblock = false };
  log = [];
  start = λ i. 0;
  sent = λ i. [];
  faults = λ i. 0;
}

-- What can happen once `gpu_telem_init` has returned 0.
pub data Used : Driver → Type 0 where
  loaded : {d : Device} → Represents d.ring [] → Used (loaded_driver d)
  next : {s t : Driver} → Used s → Call s t → Used t
