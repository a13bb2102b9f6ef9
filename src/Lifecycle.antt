-- ===== src/Lifecycle.antt =====
-- Loading and unloading the module: `next_pow2`, `gpu_telem_init` and `gpu_telem_exit` of
-- kernel/gpu_telem_core.c. A call that acquires or releases a kernel resource is an entry of a
-- trace; the kernel's answers are arguments.
pub mod Pow2
pub mod Balance
pub mod Success
mod Tests
use lkm_char_dev.Base.{
  ℕ, zero, suc, ◌+◌, ◌-◌, ◌*◌, max, bit_and, Bool, true, false, ◌||◌, Option, none, some, u32,
}
use lkm_char_dev.Base.{List, [], ◌∷◌, ◌++◌, ltb, ◌==◌, if◌then◌else◌, ◌>>=◌}
use lkm_char_dev.Base.Int.{ℤ, pos, is_neg, is_zero}
use lkm_char_dev.Ring.{RingBuf, Vzalloc, max_ring_size, ring_init, ring_destroy, einval, enomem}
use lkm_char_dev.Device.{Device, min_sample_ms}
use lkm_char_dev.Sysfs.{FileCalls, probe_hwmon_paths}

-- `while (p < n) p <<= 1` on a `u32`, with fuel; `none` means that the fuel ran out.
pub next_pow2_from : ℕ → ℕ → ℕ → Option ℕ
next_pow2_from zero p n = none
next_pow2_from (suc fuel) p n =
    let rest = next_pow2_from fuel (u32 (p * 2)) n in if ltb p n then rest else some p

-- 32 tests are enough wherever the loop ends: see Lifecycle/Pow2.
unfoldable pub next_pow2 : ℕ → Option ℕ
unfolding next_pow2_from
next_pow2 n = next_pow2_from 32 1 n

pub data Resource : Type 0 where
  ring_memory region cdev class device_node collector : Resource

pub data Effect : Type 0 where
  acquire : Resource → Effect
  release : Resource → Effect

-- The kernel's answers to the calls of `gpu_telem_init`. `class_create` and `kthread_run` give the
-- code of an error pointer, or `none` for a valid one; of `device_create` only `IS_ERR` is asked.
pub record InitCalls : Type 0 where
  pub vzalloc : Vzalloc
  pub files : FileCalls
  pub alloc_chrdev_region : ℤ
  pub cdev_add : ℤ
  pub class_create : Option ℤ
  pub device_create_fails : Bool
  pub kthread_run : Option ℤ

-- The module parameters.
pub record Params : Type 0 where
  pub hwmon_path : List ℕ
  pub sample_ms : ℕ
  pub ring_size : ℕ

pub record Loaded : Type 0 where
  pub ret : ℤ
  pub device : Device
  pub trace : List Effect

-- The labels at the end of `gpu_telem_init`, each of which falls through to the next.
pub err_ring : ℤ → Device → List Effect → Loaded
err_ring ret d t = record {
  ret = ret;
  device = record d { ring = ring_destroy d.ring };
  trace = t ++ release ring_memory ∷ [];
}

pub err_unregister : ℤ → Device → List Effect → Loaded
unfolding err_ring
err_unregister ret d t = err_ring ret d (t ++ release region ∷ [])

pub err_cdev : ℤ → Device → List Effect → Loaded
unfolding err_unregister
err_cdev ret d t = err_unregister ret d (t ++ release cdev ∷ [])

pub err_class : ℤ → Device → List Effect → Loaded
unfolding err_cdev
err_class ret d t = err_cdev ret d (t ++ release class ∷ [])

pub err_device : ℤ → Device → List Effect → Loaded
unfolding err_class
err_device ret d t = err_class ret d (t ++ release device_node ∷ [])

-- The calls from `kthread_run` back to `alloc_chrdev_region`, each with those that follow it.
pub start_collector : InitCalls → Device → List Effect → Loaded
unfolding err_device
start_collector k d t = elim k.kthread_run [
  | some e ↦ err_device e d t
  | none ↦ record { ret = pos 0; device = d; trace = t ++ acquire collector ∷ [] }
]

pub create_device : InitCalls → Device → List Effect → Loaded
unfolding start_collector err_class
create_device k d t =
    if k.device_create_fails
    then err_class enomem d t
    else start_collector k d (t ++ acquire device_node ∷ [])

pub create_class : InitCalls → Device → List Effect → Loaded
unfolding create_device err_cdev
create_class k d t = elim k.class_create [
  | some e ↦ err_cdev e d t
  | none ↦ create_device k d (t ++ acquire class ∷ [])
]

pub add_cdev : InitCalls → Device → List Effect → Loaded
unfolding create_class err_unregister
add_cdev k d t =
    if is_zero k.cdev_add
    then create_class k d (t ++ acquire cdev ∷ [])
    else err_unregister k.cdev_add d t

pub alloc_region : InitCalls → Device → List Effect → Loaded
unfolding add_cdev err_ring
alloc_region k d t =
    if is_neg k.alloc_chrdev_region
    then err_ring k.alloc_chrdev_region d t
    else add_cdev k d (t ++ acquire region ∷ [])

-- `sz`, rounded up where it is no power of two; `none` where `next_pow2` does not end.
pub rounded : ℕ → Option ℕ
unfolding next_pow2
rounded sz = if bit_and sz (sz - 1) == 0 then some sz else next_pow2 sz

-- From `ring_init` on.
pub init_ring : InitCalls → Params → Device → ℕ → Loaded
init_ring k ps d sz =
    let (ret, ring) = ring_init k.vzalloc d.ring sz in
    if is_zero ret
    then alloc_region k
        (probe_hwmon_paths ps.hwmon_path k.files
          (record d { ring = ring; interval_ms = max ps.sample_ms min_sample_ms; open_count = 0 }))
        (acquire ring_memory ∷ [])
    else record { ret = ret; device = record d { ring = ring }; trace = [] }

-- `none` means that the call does not return.
unfoldable pub gpu_telem_init : InitCalls → Params → Device → Option Loaded
gpu_telem_init k ps d =
    if ltb ps.ring_size 2 || ltb max_ring_size ps.ring_size
    then some (record { ret = einval; device = d; trace = [] })
    else rounded ps.ring_size >>= λ sz. some (init_ring k ps d sz)

-- The device, and what `gpu_telem_exit` releases, in its order.
unfoldable pub gpu_telem_exit : Device → Device × List Effect
gpu_telem_exit d = (
  record d { ring = ring_destroy d.ring },
  release collector
      ∷ release device_node
      ∷ release class
      ∷ release cdev
      ∷ release region
      ∷ release ring_memory
      ∷ [],
)
