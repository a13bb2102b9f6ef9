-- ===== src/Device/Tests.antt =====
-- Runs of the file operations, and their theorems at concrete calls.
use lkm_char_dev.Base.{ℕ, ◌-◌, ◌<◌, ◌≤◌, ◌≡◌, ◌⊎◌, ◌↔◌, refl, arith, true, false}
use lkm_char_dev.Base.{List, [], ◌∷◌, some, none, length}
use lkm_char_dev.Base.Int.{pos}
use lkm_char_dev.Uapi.{IsSample}
use lkm_char_dev.Uapi.Layout.{encode_all, encode, le_value}
use lkm_char_dev.Examples.{
  sample, sample1-IsSample, sample2-IsSample, sample3-IsSample, empty_ring, empty_ring-Represents,
  full_ring, three, full_ring-Represents, bare_device, copying, at_start,
}
use lkm_char_dev.Ring.{Consumed, ring_consume, ring_data_available, einval, enomem}
use lkm_char_dev.Ring.Invariant.{Represents}
use lkm_char_dev.Device.Errno.{eagain, efault, erestartsys, enotty}
use lkm_char_dev.Device.{
  File, ReadCalls, ReadResult, gpu_telem_open, gpu_telem_release, gpu_telem_read, gpu_telem_poll,
  IoctlCalls, gpu_telem_ioctl, get_ring_size, get_interval_ms, set_interval_ms, await, transfer,
  deliver, put_u32, set_interval,
}
use lkm_char_dev.Device.Read.{
  Served, read_delivers, read_fault_loses, read_error_keeps, poll_agrees_read,
}
use lkm_char_dev.Device.Files.{release-open, open_starts_at_head}
use lkm_char_dev.Device.Ioctl.{ioctl_interval-ge, ioctl_changes, set-get_interval}

-- `copying` with a user buffer of which only the first 10 bytes can be written.
abbrev faulting : ReadCalls
faulting = record copying { copy_to_user = λ bytes. length bytes - 10 }

abbrev interrupted : ReadCalls
interrupted = record copying { wait_event = λ r next. (erestartsys, r) }

abbrev polling : ℕ → File
polling n = record { private_data = some n; nonblock = true }

-- A blocking read of room for one sample on a ring that is empty when it is called.
read_one :
    gpu_telem_read copying empty_ring at_start 95
    ≡ some (record {
      ret = pos 48;
      ring = record full_ring { dropped = 1 };
      file = record { private_data = some 2; nonblock = false };
      sent = encode_all (sample 2 ∷ []);
    })
unfolding gpu_telem_read await transfer deliver ring_consume encode_all
read_one = refl

read_errors :
    (gpu_telem_read copying full_ring at_start 47
      ≡ some (record { ret = einval; ring = full_ring; file = at_start; sent = [] }))
    × (gpu_telem_read interrupted full_ring at_start 48
        ≡ some (record { ret = erestartsys; ring = full_ring; file = at_start; sent = [] }))
    × (gpu_telem_read (record copying { kmalloc_array = λ n size. false }) full_ring at_start 48
        ≡ some (record { ret = enomem; ring = full_ring; file = at_start; sent = [] }))
    × (gpu_telem_read copying full_ring (polling 3) 48
        ≡ some (record { ret = eagain; ring = full_ring; file = polling 3; sent = [] }))
unfolding gpu_telem_read await transfer deliver ring_consume ring_data_available
read_errors = (refl, refl, refl, refl)

poll_mask :
    (gpu_telem_poll full_ring (polling 2) ≡ some 0x41)
    × (gpu_telem_poll full_ring (polling 3) ≡ some 0)
unfolding gpu_telem_poll ring_data_available
poll_mask = (refl, refl)

-- The numbers that the ioctl macros of Linux give for these commands.
ioctl_numbers :
    (get_ring_size ≡ 0x80044700) × (get_interval_ms ≡ 0x80044701) × (set_interval_ms ≡ 0x40044702)
ioctl_numbers = (refl, refl, refl)

abbrev setting : ℕ → IoctlCalls
setting n = record { copy_to_user = λ bytes. 0; copy_from_user = some n }

ioctl_codes :
    ((gpu_telem_ioctl (setting 9) bare_device set_interval_ms).ret ≡ einval)
    × ((gpu_telem_ioctl (setting 10) bare_device set_interval_ms).ret ≡ pos 0)
    × ((gpu_telem_ioctl (setting 10) bare_device 7).ret ≡ enotty)
    × ((gpu_telem_ioctl
          (record { copy_to_user = λ bytes. 4; copy_from_user = none })
          bare_device
          get_ring_size).ret
        ≡ efault)
unfolding gpu_telem_ioctl put_u32 set_interval
ioctl_codes = (refl, refl, refl, refl)

three-IsSample :
    (IsSample (sample 1)) × ((IsSample (sample 2)) × ((IsSample (sample 3)) × Unit {0}))
three-IsSample = (sample1-IsSample, (sample2-IsSample, (sample3-IsSample, tt)))

copying-Served : Served copying empty_ring at_start 100 0 full_ring three
unfolding await ring_data_available
copying-Served = record {
  fits = omega arith;
  opened = refl;
  waited = refl;
  same_size = refl;
  represents = full_ring-Represents;
  available = refl;
  memory = refl;
  samples = three-IsSample;
}

faulting-Served : Served faulting empty_ring at_start 100 0 full_ring three
unfolding await ring_data_available
faulting-Served = record {
  fits = omega arith;
  opened = refl;
  waited = refl;
  same_size = refl;
  represents = full_ring-Represents;
  available = refl;
  memory = refl;
  samples = three-IsSample;
}

read_delivers_example :
    (res : ReadResult) × (gpu_telem_read copying empty_ring at_start 100 ≡ some res)
    × (res.sent ≡ encode_all (sample 2 ∷ sample 3 ∷ []))
    × (res.ret ≡ pos (length res.sent))
    × (48 ≤ length res.sent)
    × (length res.sent ≤ 100)
    × (res.file.private_data ≡ some 3)
    × Represents res.ring three
read_delivers_example = read_delivers copying-Served refl

read_fault_loses_example :
    (res : ReadResult) × (gpu_telem_read faulting empty_ring at_start 100 ≡ some res)
    × (res.ret ≡ efault)
    × (res.file.private_data ≡ some 3)
    × (0 < 3)
unfolding encode_all encode
read_fault_loses_example = read_fault_loses faulting-Served (omega arith)

read_error_keeps_example :
    (erestartsys ≡ efault) ⊎ ((at_start ≡ at_start) × (◌≡◌ {A = List ℕ} [] []))
unfolding gpu_telem_read await transfer
read_error_keeps_example = read_error_keeps interrupted full_ring at_start 48 refl refl

poll_agrees_read_example : (gpu_telem_poll full_ring (polling 3) ≡ some 0) ↔ (
    gpu_telem_read copying full_ring (polling 3) 48
    ≡ some (record { ret = eagain; ring = full_ring; file = polling 3; sent = [] }))
poll_agrees_read_example = poll_agrees_read copying full_ring 3 48 (omega arith)

opened_and_closed :
    let (_, d, f) = gpu_telem_open true bare_device at_start in
    gpu_telem_release d f ≡ (pos 0, bare_device, record at_start { private_data = none })
opened_and_closed = release-open bare_device at_start (omega arith)

-- A file opened on the empty ring sees the last two of the three samples pushed since.
first_read :
    (c : Consumed) × (ring_consume full_ring 0 16 ≡ some c) × (c.out ≡ sample 2 ∷ sample 3 ∷ [])
unfolding gpu_telem_open
first_read =
    open_starts_at_head (record bare_device { ring = empty_ring }) at_start three
      empty_ring-Represents full_ring-Represents 0 16 (omega arith) refl

refused_interval :
    10
    ≤ (gpu_telem_ioctl
        (setting 5)
        (record bare_device { interval_ms = 20 })
        set_interval_ms).device.interval_ms
refused_interval =
    ioctl_interval-ge (setting 5) (record bare_device { interval_ms = 20 }) set_interval_ms
      (omega arith)

set-get_interval_example :
    let set = gpu_telem_ioctl (setting 300) bare_device set_interval_ms in
    let got = gpu_telem_ioctl (setting 0) set.device get_interval_ms in
    (set.ret ≡ pos 0) × (got.ret ≡ pos 0) × (le_value got.sent ≡ 300)
set-get_interval_example =
    set-get_interval (setting 300) (setting 0) bare_device 300 refl (omega arith) (omega arith) refl

ioctl_changes_example :
    let res = gpu_telem_ioctl (setting 300) bare_device set_interval_ms in
    (res.device ≡ bare_device)
    ⊎ ((set_interval_ms ≡ set_interval_ms)
        × (res.ret ≡ pos 0)
        × (res.device ≡ record bare_device { interval_ms = res.device.interval_ms })
        × (some 300 ≡ some (res.device.interval_ms)))
ioctl_changes_example = ioctl_changes (setting 300) bare_device set_interval_ms
