-- ===== src/Unload/Tests.antt =====
-- A module is unloaded while its collector is about to push: states with the proofs that they can be
-- reached.
use lkm_char_dev.Base.{refl, arith, none, some, [], false}
use lkm_char_dev.Base.Steps.{Steps}
use lkm_char_dev.Examples.{empty_ring, empty_ring-Represents}
use lkm_char_dev.Unload.{Module, testing, collecting, Calm, test, begin_exit, Reach, loaded, next}
use lkm_char_dev.Unload.Safety.{Faults, no_use_after_free}
use lkm_char_dev.Unload.Finish.{IsUnloaded, unload_finishes}

abbrev at_load : Module
at_load = record {
  ring = empty_ring;
  collector = testing;
  should_stop = false;
  signalled = false;
  open_files = 0;
  exiting = none;
  log = [];
}

abbrev in_round : Module
in_round = record at_load { collector = collecting }

abbrev at_exit : Module
at_exit = record in_round { exiting = some 0 }

at_exit-Reach : Reach at_exit
at_exit-Reach = next (next (loaded empty_ring-Represents) (test refl)) (begin_exit refl refl)

no_use_after_free_example : ¬ Faults at_exit
no_use_after_free_example = no_use_after_free at_exit-Reach (omega arith)

finishes_from_round : (t : Module) × Steps Calm at_exit t × IsUnloaded t
finishes_from_round = unload_finishes 0 at_exit-Reach (omega arith) refl
