-- ===== src/System/Tests.antt =====
-- A run of the system: a file is opened, its reader sleeps, is woken by a push, and reads. Each state
-- is followed by the proof that it can be reached.
use lkm_char_dev.Base.{
  ◌-◌, ◌+◌, ◌≤◌, ◌≡◌, ◌⊎◌, refl, arith, [], ◌∷◌, some, false, length, take, drop,
}
use lkm_char_dev.Base.Steps.{Steps}
use lkm_char_dev.Uapi.{zero_sample}
use lkm_char_dev.Examples.{sample, empty_ring, empty_ring-Represents}
use lkm_char_dev.Ring.{RingBuf, Consumed, ring_push, ring_consume, ring_data_available}
use lkm_char_dev.System.{
  System, Reach, Reader, collecting, pushed, idle, testing, asleep, polling, polling_asleep,
  call_poll, poll_sleeps, ready, no_readers, set_reader, opened, woken, push, wake, open_file,
  call_read, find_data, go_to_sleep, consume, loaded, next,
}
use mathlib.Core.List.{Sublist}
use lkm_char_dev.System.Turns.{Undisturbed, Served}
use lkm_char_dev.System.Progress.{sleeper-Served, poller-Served}
use lkm_char_dev.System.Safety.{no_lost_wakeup, ready_gets_data, stream_in_order, stream_complete}

abbrev at_load : System
at_load = record { ring = empty_ring; collector = collecting; readers = no_readers; log = [] }

abbrev at_open : System
at_open = set_reader at_load 0 (opened at_load)

at_open-Reach : Reach at_open
at_open-Reach = next (loaded empty_ring-Represents) (open_file 0 refl)

abbrev in_read : System
in_read = set_reader at_open 0 (record (opened at_load) { pc = testing 16 })

in_read-Reach : Reach in_read
in_read-Reach = next at_open-Reach (call_read 0 16 refl (omega arith) (omega arith))

abbrev in_sleep : System
in_sleep = set_reader in_read 0 (record (opened at_load) { pc = asleep 16 })

in_sleep-Reach : Reach in_sleep
unfolding ring_data_available
in_sleep-Reach = next in_read-Reach (go_to_sleep 0 refl refl)

abbrev one_ring : RingBuf
one_ring = record empty_ring { samples = some (sample 1 ∷ zero_sample ∷ []); head_seq = 1 }

abbrev at_push : System
at_push = record in_sleep { ring = one_ring; collector = pushed; log = sample 1 ∷ [] }

at_push-Reach : Reach at_push
unfolding ring_push
at_push-Reach = next in_sleep-Reach (push (sample 1) refl refl)

abbrev at_wake : System
at_wake = record at_push { collector = collecting; readers = λ i. woken (at_push.readers i) }

at_wake-Reach : Reach at_wake
at_wake-Reach = next at_push-Reach (wake refl)

abbrev at_ready : System
at_ready = set_reader at_wake 0 (record (opened at_load) { pc = ready 16 })

at_ready-Reach : Reach at_ready
unfolding ring_data_available
at_ready-Reach = next at_wake-Reach (find_data 0 refl refl)

abbrev after_read : Reader
after_read = record {
  pc = idle;
  next = 1;
  start = 0;
  missed = 0;
  given = sample 1 ∷ [];
  faults = 0;
  unreported = 0;
}

abbrev at_return : System
at_return = set_reader at_ready 0 after_read

at_return-Reach : Reach at_return
unfolding ring_consume
at_return-Reach = next at_ready-Reach (consume 0 refl refl)

no_lost_wakeup_example : (ring_data_available one_ring 0 ≡ false) ⊎ (pushed ≡ pushed)
no_lost_wakeup_example = no_lost_wakeup at_push-Reach (omega arith) 0 refl

one_ready_reader :
    (c : Consumed) × (ring_consume one_ring 0 16 ≡ some c)
    × (1 ≤ length c.out)
    × (length c.out ≤ 16)
one_ready_reader = ready_gets_data at_ready-Reach (omega arith) 0 refl

stream_in_order_example :
    (0 + 1 + 0 + 0 ≡ 1) × (1 ≤ 1) × Sublist (sample 1 ∷ []) (take (1 - 0) (drop 0 (sample 1 ∷ [])))
stream_in_order_example = stream_in_order at_return-Reach (omega arith) 0

complete_at_return : sample 1 ∷ [] ≡ take (1 - 0) (drop 0 (sample 1 ∷ []))
complete_at_return = stream_complete at_return-Reach (omega arith) 0 refl refl

sleeper-Served_example :
    (t : System) × Steps Undisturbed in_sleep t × Served in_sleep (sample 1) 0 16 t
sleeper-Served_example = sleeper-Served in_sleep-Reach (omega arith) (sample 1) 0 refl

-- The thread of the file polls, and finds nothing.
abbrev at_poll : System
at_poll = set_reader at_open 0 (record (opened at_load) { pc = polling })

abbrev in_poll : System
in_poll = set_reader at_poll 0 (record (opened at_load) { pc = polling_asleep })

in_poll-Reach : Reach in_poll
unfolding ring_data_available
in_poll-Reach = next (next at_open-Reach (call_poll 0 refl)) (poll_sleeps 0 refl refl)

poller-Served_example :
    (t : System) × Steps Undisturbed in_poll t × Served in_poll (sample 1) 0 16 t
poller-Served_example =
    poller-Served in_poll-Reach (omega arith) (sample 1) 0 16 (omega arith) (omega arith) refl
