-- ===== src/Unload.antt =====
-- Unloading the module in kernel/gpu_telem_core.c while it is in use: the calls of `gpu_telem_exit`,
-- interleaved with the collector and with the threads that hold files open.
pub mod Invariant
pub mod Safety
pub mod Finish
pub mod Life
mod Tests
use lkm_char_dev.Base.{ℕ, suc, ◌+◌, ◌^◌, ◌≤◌, ◌<◌, ◌≡◌, Bool, true, false, Option, none, some}
use lkm_char_dev.Base.{List, [], ◌∷◌, ◌++◌, get_elem?, if◌then◌else◌, not}
use lkm_char_dev.Uapi.{GpuSample}
use lkm_char_dev.Log.{Log}
use lkm_char_dev.Ring.{RingBuf, Consumed, ring_push, ring_consume, ring_destroy}
use lkm_char_dev.Ring.Invariant.{Represents}

-- Where the collector's thread stands in its loop.
pub data CollectorAt : Type 0 where
  testing : CollectorAt  -- before `kthread_should_stop`
  collecting : CollectorAt  -- before `ring_push`
  waking : CollectorAt  -- before `wake_up_interruptible`
  sleeping : CollectorAt  -- in `msleep_interruptible`
  returned : CollectorAt

pub data ExitCall : Type 0 where
  kthread_stop device_destroy class_destroy cdev_del unregister_chrdev_region destroy_ring :
      ExitCall

-- The calls of `gpu_telem_exit`, in its order.
unfoldable pub exit_calls : List ExitCall
exit_calls =
    kthread_stop ∷ device_destroy ∷ class_destroy ∷ cdev_del ∷ unregister_chrdev_region
    ∷ destroy_ring ∷ []

abbrev pub joins : ExitCall → Bool
joins kthread_stop = true
joins device_destroy = false
joins class_destroy = false
joins cdev_del = false
joins unregister_chrdev_region = false
joins destroy_ring = false

-- What a call does to the ring.
unfoldable pub ring_after : ExitCall → RingBuf → RingBuf
ring_after kthread_stop r = r
ring_after device_destroy r = r
ring_after class_destroy r = r
ring_after cdev_del r = r
ring_after unregister_chrdev_region r = r
ring_after destroy_ring r = ring_destroy r

-- `exiting` is `none` until `gpu_telem_exit` is called, and then the number of its calls that have
-- returned. `log` records every sample that was pushed, and is tested by no step. `signalled` is
-- whether the collector's thread was sent a signal.
pub record Module : Type 0 where
  pub ring : RingBuf
  pub collector : CollectorAt
  pub should_stop : Bool
  pub signalled : Bool
  pub open_files : ℕ
  pub exiting : Option ℕ
  pub log : Log

-- One step of one thread. The kernel calls `gpu_telem_exit` only when no file is open, since each
-- holds a reference to the module, and opens no file from then on. `kthread_stop` sets the flag, and
-- returns once the thread has. `msleep_interruptible` comes back early only where the thread was
-- sent a signal; setting the flag sends none.
pub data Step (s : Module) : Module → Type 0 where
  test :
      s.collector ≡ testing
      → Step s (record s { collector = if s.should_stop then returned else collecting })
  push :
      {r : RingBuf} (x : GpuSample)
      → s.collector ≡ collecting
      → ring_push s.ring x ≡ some r
      → Step s (record s { ring = r; collector = waking; log = s.log ++ x ∷ [] })
  wake : s.collector ≡ waking → Step s (record s { collector = sleeping })
  sleep :
      (interrupted : Bool)
      → (interrupted ≡ true → s.signalled ≡ true)
      → s.collector ≡ sleeping
      → Step s (record s { collector = if interrupted then returned else testing })
  signal : Step s (record s { signalled = true })
  open_file : s.exiting ≡ none → Step s (record s { open_files = s.open_files + 1 })
  close_file : {n : ℕ} → s.open_files ≡ suc n → Step s (record s { open_files = n })
  consume :
      (next most : ℕ) {c : Consumed}
      → 1 ≤ s.open_files
      → most < 2 ^ 32
      → ring_consume s.ring next most ≡ some c
      → Step s (record s { ring = c.ring })
  begin_exit : s.exiting ≡ none → s.open_files ≡ 0 → Step s (record s { exiting = some 0 })
  request_stop :
      {n : ℕ} {c : ExitCall}
      → s.exiting ≡ some n
      → get_elem? exit_calls n ≡ some c
      → joins c ≡ true
      → Step s (record s { should_stop = true })
  join :
      {n : ℕ} {c : ExitCall}
      → s.exiting ≡ some n
      → get_elem? exit_calls n ≡ some c
      → joins c ≡ true
      → s.should_stop ≡ true
      → s.collector ≡ returned
      → Step s (record s { exiting = some (suc n) })
  call :
      {n : ℕ} {c : ExitCall}
      → s.exiting ≡ some n
      → get_elem? exit_calls n ≡ some c
      → joins c ≡ false
      → Step s (record s { ring = ring_after c s.ring; exiting = some (suc n) })

-- What can happen once `gpu_telem_init` has returned 0.
pub data Reach : Module → Type 0 where
  loaded :
      {r : RingBuf}
      → Represents r []
      → Reach (record {
        ring = r;
        collector = testing;
        should_stop = false;
        signalled = false;
        open_files = 0;
        exiting = none;
        log = [];
      })
  next : {s t : Module} → Reach s → Step s t → Reach t

-- A step other than a signal to the collector, and a sleep that a signal ends.
abbrev pub is_calm : {s t : Module} → Step s t → Bool
is_calm (test at) = true
is_calm (push x at pushes) = true
is_calm (wake at) = true
is_calm (sleep interrupted early at) = not interrupted
is_calm signal = false
is_calm (open_file none_begun) = true
is_calm (close_file some_open) = true
is_calm (consume from most opened small takes) = true
is_calm (begin_exit none_begun none_open) = true
is_calm (request_stop at here joining) = true
is_calm (join at here joining asked back) = true
is_calm (call at here goes) = true

abbrev pub Calm : Module → Module → Type 0
Calm s t = (st : Step s t) × (is_calm st ≡ true)
