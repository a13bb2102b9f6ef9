-- ===== src/Unload/Safety.antt =====
-- The calls of the ring while a module of kernel/gpu_telem_core.c is unloaded.
use lkm_char_dev.Base.{ℕ, ◌+◌, ◌^◌, ◌≤◌, ◌<◌, ◌≡◌, refl, none, length}
use lkm_char_dev.Uapi.{GpuSample}
use lkm_char_dev.Ring.{ring_push, ring_consume}
use lkm_char_dev.Ring.Push.{ring_push_refines}
use lkm_char_dev.Ring.Consume.{ring_consume_refines}
use lkm_char_dev.Unload.{Module, collecting, Reach}
use lkm_char_dev.Unload.Invariant.{alive, held, Reach-Inv}

-- A thread is at a call of the ring that faults: the collector at its push, or the holder of an
-- open file at a `ring_consume`.
pub data Faults (s : Module) : Type 0 where
  push_faults : (x : GpuSample) → s.collector ≡ collecting → ring_push s.ring x ≡ none → Faults s
  consume_faults :
      (next most : ℕ)
      → 1 ≤ s.open_files
      → most < 2 ^ 32
      → ring_consume s.ring next most ≡ none
      → Faults s

-- Unloading is safe: in every state that a loaded module can reach with fewer than 2^64 - 1
-- samples pushed, `gpu_telem_exit` begun or not, no thread stands at a call of the ring that
-- faults, be it the collector at `ring_push` or the holder of an open file at `ring_consume`.
pub no_use_after_free : {s : Module} → Reach s → length s.log + 1 < 2 ^ 64 → ¬ Faults s
no_use_after_free reach fits (push_faults x at bad) =
    let (r, pushes, _) = ring_push_refines (alive (Reach-Inv reach fits) (rw at refl)) x fits in cc
no_use_after_free reach fits (consume_faults from most some_open small bad) =
    let (returns, _) =
      ring_consume_refines (held (Reach-Inv reach fits) some_open) from most small in
    cc
