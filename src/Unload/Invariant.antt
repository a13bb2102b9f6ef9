-- ===== src/Unload/Invariant.antt =====
-- The invariant of the module while it is loaded and unloaded.
use lkm_char_dev.Base.{ℕ, zero, suc, ◌+◌, ◌^◌, ◌≤◌, ◌<◌, ◌≡◌, ◌∙◌, refl, sym, subst, arith}
use lkm_char_dev.Base.{
  Bool, true, false, none, some, some_inj, [], ◌∷◌, ◌++◌, length, length-append, get_elem?,
}
use lkm_char_dev.Log.{Log}
use lkm_char_dev.Ring.{RingBuf, ring_destroy}
use lkm_char_dev.Ring.Invariant.{Represents}
use lkm_char_dev.Ring.Push.{ring_push_refines}
use lkm_char_dev.Ring.Consume.{ring_consume_refines}
use lkm_char_dev.Unload.{
  Module, CollectorAt, testing, collecting, waking, sleeping, returned, ExitCall, exit_calls, joins,
  ring_after, Step, test, push, wake, sleep, signal, open_file, close_file, consume, begin_exit,
  request_stop, join, call, Reach, loaded, next,
}

-- The thread is joined by the first of the six calls, and the storage released by the last.
pub data Placed (n : ℕ) (c : ExitCall) : Type 0 where
  first : n ≡ 0 → joins c ≡ true → Placed n c
  middle : 1 ≤ n → n ≤ 4 → joins c ≡ false → ((r : RingBuf) → ring_after c r ≡ r) → Placed n c
  last : n ≡ 5 → joins c ≡ false → ((r : RingBuf) → ring_after c r ≡ ring_destroy r) → Placed n c

pub call-Placed : (n : ℕ) {c : ExitCall} → get_elem? exit_calls n ≡ some c → Placed n c
unfolding exit_calls ring_after
call-Placed zero e = subst (Placed 0) (some_inj e) (first refl refl)
call-Placed (suc zero) e =
    subst (Placed 1) (some_inj e) (middle (omega arith) (omega arith) refl (λ r. refl))
call-Placed (suc (suc zero)) e =
    subst (Placed 2) (some_inj e) (middle (omega arith) (omega arith) refl (λ r. refl))
call-Placed (suc (suc (suc zero))) e =
    subst (Placed 3) (some_inj e) (middle (omega arith) (omega arith) refl (λ r. refl))
call-Placed (suc (suc (suc (suc zero)))) e =
    subst (Placed 4) (some_inj e) (middle (omega arith) (omega arith) refl (λ r. refl))
call-Placed (suc (suc (suc (suc (suc zero))))) e =
    subst (Placed 5) (some_inj e) (last refl refl (λ r. refl))
call-Placed (suc (suc (suc (suc (suc (suc n)))))) e = cc

-- What `n` returned calls of `gpu_telem_exit` say of the ring and the collector.
pub data Phase (s : Module) (n : ℕ) : Type 0 where
  stopping : n ≡ 0 → Represents s.ring s.log → Phase s n
  joined : 1 ≤ n → n ≤ 5 → s.collector ≡ returned → Represents s.ring s.log → Phase s n
  finished : n ≡ 6 → s.collector ≡ returned → s.ring.samples ≡ none → Phase s n

pub data Inv (s : Module) : Type 0 where
  in_use : s.exiting ≡ none → Represents s.ring s.log → Inv s
  exiting : {n : ℕ} → s.exiting ≡ some n → s.open_files ≡ 0 → Phase s n → Inv s

-- A call that returns leaves the module in the next phase.
call-Phase :
    (s : Module) (n : ℕ) {c : ExitCall}
    → Phase s n
    → Placed n c
    → joins c ≡ false
    → Phase (record s { ring = ring_after c s.ring; exiting = some (suc n) }) (suc n)
unfolding ring_destroy
call-Phase s n ph (first at stops) e = cc
call-Phase s n (stopping start p) (middle from to goes keeps) e = absurd (omega arith)
call-Phase s n (joined lo hi back p) (middle from to goes keeps) e =
    joined (omega arith) (omega arith) back (rw keeps p)
call-Phase s n (finished end back gone) (middle from to goes keeps) e = absurd (omega arith)
call-Phase s n (stopping start p) (last at goes frees) e = absurd (omega arith)
call-Phase s n (joined lo hi back p) (last at goes frees) e =
    finished (omega arith) back (rw frees refl)
call-Phase s n (finished end back gone) (last at goes frees) e = absurd (omega arith)

abbrev pub is_back : CollectorAt → Bool
is_back testing = false
is_back collecting = false
is_back waking = false
is_back sleeping = false
is_back returned = true

-- While the collector has not returned, the ring is there.
pub alive : {s : Module} → Inv s → is_back s.collector ≡ false → Represents s.ring s.log
alive (in_use e p) out = p
alive (exiting e z (stopping start p)) out = p
alive (exiting e z (joined lo hi back p)) out = p
alive (exiting e z (finished end back gone)) out = cc

-- So it is while a file is open.
pub held : {s : Module} → Inv s → 1 ≤ s.open_files → Represents s.ring s.log
held (in_use e p) some_open = p
held (exiting e z ph) some_open = absurd (omega arith)

-- A step of the collector, which leaves a ring that represents the log it leaves.
move-Inv :
    {s : Module} (r : RingBuf) (c : CollectorAt) (h : Log)
    → Inv s
    → is_back s.collector ≡ false
    → Represents r h
    → Inv (record s { ring = r; collector = c; log = h })
move-Inv r c h (in_use e p) out p' = in_use e p'
move-Inv r c h (exiting e z (stopping start p)) out p' = exiting e z (stopping start p')
move-Inv r c h (exiting e z (joined lo hi back p)) out p' = cc
move-Inv r c h (exiting e z (finished end back gone)) out p' = cc

-- Phases do not tell whether the flag is set.
flag-Phase : {s : Module} {n : ℕ} → Phase s n → Phase (record s { should_stop = true }) n
flag-Phase (stopping start p) = stopping start p
flag-Phase (joined lo hi back p) = joined lo hi back p
flag-Phase (finished end back gone) = finished end back gone

-- The thread is joined where it has returned.
join-Phase :
    {s : Module} {n : ℕ} {c : ExitCall}
    → Phase s n
    → Placed n c
    → joins c ≡ true
    → s.collector ≡ returned
    → Phase (record s { exiting = some (suc n) }) (suc n)
join-Phase (stopping start p) at stops back = joined (omega arith) (omega arith) back p
join-Phase (joined lo hi _ p) (first at _) stops back = absurd (omega arith)
join-Phase (joined lo hi _ p) (middle from to goes keeps) stops back = cc
join-Phase (joined lo hi _ p) (last at goes frees) stops back = cc
join-Phase (finished end _ gone) (first at _) stops back = absurd (omega arith)
join-Phase (finished end _ gone) (middle from to goes keeps) stops back = cc
join-Phase (finished end _ gone) (last at goes frees) stops back = cc

-- A `Phase` at the number that a step finds.
pub at-Phase : {s : Module} {n : ℕ} → Inv s → s.exiting ≡ some n → (s.open_files ≡ 0) × Phase s n
at-Phase (in_use e p) at = cc
at-Phase {s} (exiting e z ph) at = (z, subst (Phase s) (some_inj (sym e ∙ at)) ph)

pub Step-Inv : {s t : Module} → Step s t → length s.log + 1 < 2 ^ 64 → Inv s → Inv t
Step-Inv {s} (test at) fits inv =
    let out : is_back s.collector ≡ false = rw at refl in
    move-Inv s.ring _ s.log inv out (alive inv out)
Step-Inv {s} (push x at done) fits inv =
    let out : is_back s.collector ≡ false = rw at refl in
    let (r', pushes, p) = ring_push_refines (alive inv out) x fits in
    move-Inv _ waking (s.log ++ x ∷ []) inv out
      (subst (λ r. Represents r (s.log ++ x ∷ [])) (some_inj (sym pushes ∙ done)) p)
Step-Inv {s} (wake at) fits inv =
    let out : is_back s.collector ≡ false = rw at refl in
    move-Inv s.ring sleeping s.log inv out (alive inv out)
Step-Inv {s} (sleep interrupted early at) fits inv =
    let out : is_back s.collector ≡ false = rw at refl in
    move-Inv s.ring _ s.log inv out (alive inv out)
Step-Inv signal fits (in_use e p) = in_use e p
Step-Inv signal fits (exiting e z (stopping start p)) = exiting e z (stopping start p)
Step-Inv signal fits (exiting e z (joined lo hi back p)) = exiting e z (joined lo hi back p)
Step-Inv signal fits (exiting e z (finished end back gone)) = exiting e z (finished end back gone)
Step-Inv (open_file free) fits (in_use e p) = in_use e p
Step-Inv (open_file free) fits (exiting e z ph) = cc
Step-Inv (close_file some_open) fits (in_use e p) = in_use e p
Step-Inv (close_file some_open) fits (exiting e z ph) = cc
Step-Inv {s} (consume from most some_open small done) fits (in_use e p) =
    let (returns, p') = ring_consume_refines p from most small in
    in_use e (subst (λ c. Represents c.ring s.log) (some_inj (sym returns ∙ done)) p')
Step-Inv (consume from most some_open small done) fits (exiting e z ph) = absurd (omega arith)
Step-Inv (begin_exit free none_open) fits (in_use e p) = exiting refl none_open (stopping refl p)
Step-Inv (begin_exit free none_open) fits (exiting e z ph) = cc
Step-Inv (request_stop at here stops) fits inv =
    let (z, ph) = at-Phase inv at in exiting at z (flag-Phase ph)
Step-Inv (join {n} at here stops asked back) fits inv =
    let (z, ph) = at-Phase inv at in exiting refl z (join-Phase ph (call-Placed n here) stops back)
Step-Inv {s} (call {n} at here goes) fits inv =
    let (z, ph) = at-Phase inv at in exiting refl z (call-Phase s n ph (call-Placed n here) goes)

log-grows : {s t : Module} → Step s t → length s.log ≤ length t.log
log-grows {s} (push x at done) = omega (arith, length-append s.log (x ∷ []))
log-grows (test at) = omega arith
log-grows (wake at) = omega arith
log-grows (sleep interrupted early at) = omega arith
log-grows signal = omega arith
log-grows (open_file free) = omega arith
log-grows (close_file some_open) = omega arith
log-grows (consume from most some_open small done) = omega arith
log-grows (begin_exit free none_open) = omega arith
log-grows (request_stop at here stops) = omega arith
log-grows (join at here stops asked back) = omega arith
log-grows (call at here goes) = omega arith

-- The invariant holds in every state that can be reached with fewer than 2^64 - 1 samples pushed.
pub Reach-Inv : {s : Module} → Reach s → length s.log + 1 < 2 ^ 64 → Inv s
Reach-Inv (loaded p) fits = in_use refl p
Reach-Inv (next r st) fits =
    Step-Inv st (omega (arith, log-grows st)) (Reach-Inv r (omega (arith, log-grows st)))
