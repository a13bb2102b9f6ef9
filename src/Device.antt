-- ===== src/Device.antt =====
-- kernel/gpu_telem.h and the file operations of kernel/gpu_telem_core.c.
-- An operation returns its code beside the state that it leaves. Kernel functions are arguments:
-- what the operation is told by them, not how they work.
pub mod Errno
pub mod Files
pub mod Read
pub mod Ioctl
mod Tests
use lkm_char_dev.Base.{ℕ, ◌+◌, ◌-◌, ◌*◌, ◌/◌, ◌^◌, min, Bool, true, false, Option, none, some}
use lkm_char_dev.Base.{List, [], length, take, ltb, ◌==◌, if◌then◌else◌, ◌>>=◌, u32}
use lkm_char_dev.Base.Int.{ℤ, pos, is_zero}
use lkm_char_dev.Uapi.{sample_size}
use lkm_char_dev.Uapi.Layout.{le_bytes, encode_all}
use lkm_char_dev.Ring.{RingBuf, Consumed, ring_data_available, ring_consume, einval, enomem}
use Errno.{eagain, efault, enotty}

-- `struct gpu_telem_device`, less the handles of kernel objects. A path is its bytes before the NUL.
pub record Device : Type 0 where
  pub ring : RingBuf
  pub open_count : ℕ
  pub interval_ms : ℕ
  pub temp_path : List ℕ
  pub fan_path : List ℕ
  pub power_path : List ℕ
  pub freq_path : List ℕ

-- `struct file`: `private_data` is NULL, or points to a `struct reader_ctx` with this `next_seq`.
pub record File : Type 0 where
  pub private_data : Option ℕ
  pub nonblock : Bool

abbrev pub min_sample_ms : ℕ
min_sample_ms = 10

-- `atomic_inc` and `atomic_dec` on the bit pattern of an `int`.
abbrev pub atomic_inc : ℕ → ℕ
atomic_inc n = u32 (n + 1)

abbrev pub atomic_dec : ℕ → ℕ
atomic_dec n = u32 (n + (2 ^ 32 - 1))

-- The Boolean says whether `kzalloc` returned memory.
unfoldable pub gpu_telem_open : Bool → Device → File → ℤ × Device × File
gpu_telem_open allocated d f =
    if allocated
    then (
      pos 0,
      record d { open_count = atomic_inc d.open_count },
      record f { private_data = some d.ring.head_seq },
    )
    else (enomem, d, f)

unfoldable pub gpu_telem_release : Device → File → ℤ × Device × File
gpu_telem_release d f =
    (pos 0, record d { open_count = atomic_dec d.open_count }, record f { private_data = none })

-- What `gpu_telem_read` is told by the kernel: the result of `wait_event_interruptible` with the
-- ring as it is when the wait ends (the collector and other readers run meanwhile), whether
-- `kmalloc_array` returns memory, and how many bytes `copy_to_user` could not copy.
pub record ReadCalls : Type 0 where
  pub wait_event : RingBuf → ℕ → ℤ × RingBuf
  pub kmalloc_array : ℕ → ℕ → Bool
  pub copy_to_user : List ℕ → ℕ

-- `sent` holds the bytes that arrived in the user's buffer.
pub record ReadResult : Type 0 where
  pub ret : ℤ
  pub ring : RingBuf
  pub file : File
  pub sent : List ℕ

-- The test for data, or the wait for it.
unfoldable pub await : ReadCalls → RingBuf → File → ℕ → ℤ × RingBuf
await k r f next =
    if f.nonblock
    then (if ring_data_available r next then pos 0 else eagain, r)
    else k.wait_event r next

-- The end of `gpu_telem_read`, from `copy_to_user` on.
unfoldable pub deliver : ReadCalls → File → Consumed → ReadResult
deliver k f c =
    let bytes = encode_all c.out in
    let left = k.copy_to_user bytes in
    let f' : File = record f { private_data = some c.next_seq } in
    if left == 0
    then record { ret = pos (length c.out * sample_size); ring = c.ring; file = f'; sent = bytes }
    else record { ret = efault; ring = c.ring; file = f'; sent = take (length bytes - left) bytes }

-- The middle of `gpu_telem_read`, once the wait has returned `ret` and left the ring `r`.
unfoldable pub transfer : ReadCalls → File → ℕ → ℕ → ℤ × RingBuf → Option ReadResult
transfer k f next most (ret, r) =
    if is_zero ret
    then (if k.kmalloc_array most sample_size
        then (ring_consume r next (u32 most) >>= λ c. some (deliver k f c))
        else some (record { ret = enomem; ring = r; file = f; sent = [] }))
    else some (record { ret = ret; ring = r; file = f; sent = [] })

-- `none` is a fault: a NULL `private_data`, or a fault of the ring.
unfoldable pub gpu_telem_read : ReadCalls → RingBuf → File → ℕ → Option ReadResult
gpu_telem_read k r f count =
    if ltb count sample_size
    then some (record { ret = einval; ring = r; file = f; sent = [] })
    else f.private_data >>= λ next.
        transfer k f next (min (count / sample_size) r.size) (await k r f next)

abbrev pub epollin : ℕ
epollin = 0x1

abbrev pub epollrdnorm : ℕ
epollrdnorm = 0x40

-- The mask that `poll` returns; `poll_wait` only registers the caller.
unfoldable pub gpu_telem_poll : RingBuf → File → Option ℕ
gpu_telem_poll r f = f.private_data >>= λ next.
    some (if ring_data_available r next then epollin + epollrdnorm else 0)

-- `_IOR` and `_IOW` of a `__u32` with the magic byte 'G'.
abbrev pub ioc : ℕ → ℕ → ℕ
ioc direction nr = direction * 2 ^ 30 + 4 * 2 ^ 16 + 0x47 * 2 ^ 8 + nr

abbrev pub get_ring_size : ℕ
get_ring_size = ioc 2 0

abbrev pub get_interval_ms : ℕ
get_interval_ms = ioc 2 1

abbrev pub set_interval_ms : ℕ
set_interval_ms = ioc 1 2

-- What `gpu_telem_ioctl` is told: the bytes that `copy_to_user` could not copy, and the `u32` that
-- `copy_from_user` fetches (`none` where it cannot copy all of it).
pub record IoctlCalls : Type 0 where
  pub copy_to_user : List ℕ → ℕ
  pub copy_from_user : Option ℕ

pub record IoctlResult : Type 0 where
  pub ret : ℤ
  pub device : Device
  pub sent : List ℕ

-- Both reading commands send a `u32`.
unfoldable pub put_u32 : IoctlCalls → Device → ℕ → IoctlResult
put_u32 k d val =
    let left = k.copy_to_user (le_bytes 4 val) in
    record {
      ret = if left == 0 then pos 0 else efault;
      device = d;
      sent = take (4 - left) (le_bytes 4 val);
    }

unfoldable pub set_interval : Device → Option ℕ → IoctlResult
set_interval d none = record { ret = efault; device = d; sent = [] }
set_interval d (some val) =
    if ltb val min_sample_ms
    then record { ret = einval; device = d; sent = [] }
    else record { ret = pos 0; device = record d { interval_ms = val }; sent = [] }

unfoldable pub gpu_telem_ioctl : IoctlCalls → Device → ℕ → IoctlResult
gpu_telem_ioctl k d cmd =
    if cmd == get_ring_size
    then put_u32 k d d.ring.size
    else if cmd == get_interval_ms
    then put_u32 k d d.interval_ms
    else if cmd == set_interval_ms
    then set_interval d k.copy_from_user
    else record { ret = enotty; device = d; sent = [] }
