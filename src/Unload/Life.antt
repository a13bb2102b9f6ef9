-- ===== src/Unload/Life.antt =====
-- A module's whole life: `gpu_telem_init`, whatever is done with the module, and `gpu_telem_exit`.
use lkm_char_dev.Base.{
  ℕ, ◌+◌, ◌^◌, ◌<◌, ◌≡◌, ◌∙◌, refl, ap, sym, List, [], ◌∷◌, ◌++◌, map, none, some, false, length,
}
use lkm_char_dev.Base.Int.{pos}
use lkm_char_dev.Base.Steps.{Steps}
use lkm_char_dev.Ring.{RingBuf}
use lkm_char_dev.Device.{Device}
use lkm_char_dev.Lifecycle.{
  InitCalls, Params, Loaded, Effect, release, ring_memory, region, cdev, class, device_node,
  collector, gpu_telem_init, gpu_telem_exit,
}
use lkm_char_dev.Lifecycle.Balance.{IsInitCalls, replay, exit_releases_all}
use lkm_char_dev.Lifecycle.Success.{init_device}
use lkm_char_dev.Unload.{
  Module, testing, ExitCall, kthread_stop, device_destroy, class_destroy, cdev_del,
  unregister_chrdev_region, destroy_ring, exit_calls, ring_after, Step, Calm, loaded,
}
use lkm_char_dev.Unload.Finish.{IsUnloaded, Reach-Steps, unload_finishes}

-- The module as `gpu_telem_init` leaves it, its collector at the start.
abbrev pub loaded_module : Device → Module
loaded_module d = record {
  ring = d.ring;
  collector = testing;
  should_stop = false;
  signalled = false;
  open_files = 0;
  exiting = none;
  log = [];
}

-- What a call of `gpu_telem_exit` releases.
abbrev pub releases : ExitCall → Effect
releases kthread_stop = release collector
releases device_destroy = release device_node
releases class_destroy = release class
releases cdev_del = release cdev
releases unregister_chrdev_region = release region
releases destroy_ring = release ring_memory

-- The calls, one by one, are what `gpu_telem_exit` does.
abbrev pub ring_after_calls : List ExitCall → RingBuf → RingBuf
ring_after_calls [] r = r
ring_after_calls (c ∷ cs) r = ring_after_calls cs (ring_after c r)

exit-calls :
    (d : Device)
    → gpu_telem_exit d
      ≡ (record d { ring = ring_after_calls exit_calls d.ring }, map releases exit_calls)
unfolding gpu_telem_exit exit_calls ring_after
exit-calls d = refl

-- A module's whole life, with a kernel whose calls fail as documented and no ring storage to begin
-- with: where `gpu_telem_init` returned 0, then, in every state that its module can reach once
-- `gpu_telem_exit` has begun, with fewer than 2^64 - 2 samples pushed, there are steps, none of
-- them a signal or a sleep that a signal ends, to a state where all the calls of `gpu_telem_exit`
-- have returned, the collector's thread has ended, and the ring's storage is released; what these
-- calls release is all that the load acquired, the last acquired first.
pub module_life :
    {k : InitCalls} (ps : Params) (d : Device) {res : Loaded} {s : Module} (n : ℕ)
    → IsInitCalls k
    → d.ring.samples ≡ none
    → gpu_telem_init k ps d ≡ some res
    → res.ret ≡ pos 0
    → Steps Step (loaded_module res.device) s
    → length s.log + 2 < 2 ^ 64
    → s.exiting ≡ some n
    → ((t : Module) × Steps Calm s t × IsUnloaded t)
      × (replay [] (res.trace ++ map releases exit_calls) ≡ some [])
module_life ps d {res} n kernel empty makes ok did fits leaving =
    let (fresh, _, _, _, _, _) = init_device kernel ps d makes ok in
    (
      unload_finishes n (Reach-Steps (loaded fresh) did) fits leaving,
      ap (λ o. replay [] (res.trace ++ o.1)) (sym (exit-calls res.device))
          ∙ (exit_releases_all ps d kernel empty makes ok).0,
    )
