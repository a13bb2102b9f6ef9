-- ===== src/Device/Ioctl.antt =====
-- `gpu_telem_ioctl`.
use lkm_char_dev.Base.{ℕ, ◌^◌, ◌≤◌, ◌<◌, ◌≡◌, ◌⊎◌, refl, arith}
use lkm_char_dev.Base.{some, [], le→not_ltb}
use lkm_char_dev.Base.Int.{pos}
use lkm_char_dev.Uapi.Layout.{le_bytes, le_value}
use lkm_char_dev.Device.{
  Device, IoctlCalls, put_u32, set_interval, gpu_telem_ioctl, get_interval_ms, set_interval_ms,
  min_sample_ms,
}

-- Where the interval is at least 10 ms, it is so after any command, whatever the user passes.
pub ioctl_interval-ge :
    (k : IoctlCalls) (d : Device) (cmd : ℕ)
    → min_sample_ms ≤ d.interval_ms
    → min_sample_ms ≤ (gpu_telem_ioctl k d cmd).device.interval_ms
unfolding gpu_telem_ioctl put_u32 set_interval
ioctl_interval-ge k d cmd ok = ground arith

-- The only command that changes anything is a GPU_TELEM_SET_INTERVAL_MS that returns 0, and it
-- changes the interval alone: the device after any command is the device before, or the command
-- was that one, returned 0, and the device has just the interval that was fetched from the user in
-- place of its own.
pub ioctl_changes :
    (k : IoctlCalls) (d : Device) (cmd : ℕ)
    → ((gpu_telem_ioctl k d cmd).device ≡ d)
      ⊎ ((cmd ≡ set_interval_ms)
          × ((gpu_telem_ioctl k d cmd).ret ≡ pos 0)
          × ((gpu_telem_ioctl k d cmd).device
              ≡ record d { interval_ms = (gpu_telem_ioctl k d cmd).device.interval_ms })
          × (k.copy_from_user ≡ some ((gpu_telem_ioctl k d cmd).device.interval_ms)))
unfolding gpu_telem_ioctl put_u32 set_interval
ioctl_changes k d cmd = ground arith

set_interval_ok :
    (d : Device) (val : ℕ)
    → min_sample_ms ≤ val
    → set_interval d (some val)
      ≡ record { ret = pos 0; device = record d { interval_ms = val }; sent = [] }
unfolding set_interval
set_interval_ok d val ok = rw (le→not_ltb val min_sample_ms ok)

put_u32_ok :
    (k : IoctlCalls) (d : Device) (val : ℕ)
    → k.copy_to_user (le_bytes 4 val) ≡ 0
    → put_u32 k d val ≡ record { ret = pos 0; device = d; sent = le_bytes 4 val }
unfolding put_u32
put_u32_ok k d val copied = rw copied

-- An interval that is set can be got back: for a `u32` of at least 10, where the user's memory can
-- be read and written, GPU_TELEM_SET_INTERVAL_MS returns 0, and GPU_TELEM_GET_INTERVAL_MS then
-- returns 0 and sends the bytes of that value.
pub set-get_interval :
    (k k' : IoctlCalls) (d : Device) (val : ℕ)
    → k.copy_from_user ≡ some val
    → min_sample_ms ≤ val
    → val < 2 ^ 32
    → k'.copy_to_user (le_bytes 4 val) ≡ 0
    → let set = gpu_telem_ioctl k d set_interval_ms in
      let got = gpu_telem_ioctl k' set.device get_interval_ms in
      (set.ret ≡ pos 0) × (got.ret ≡ pos 0) × (le_value got.sent ≡ val)
unfolding gpu_telem_ioctl
set-get_interval k k' d val fetched ok fits copied =
    rw
      (fetched, set_interval_ok d val ok, put_u32_ok k' (record d { interval_ms = val }) val copied)
      (refl, refl, omega arith)
