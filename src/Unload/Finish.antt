-- ===== src/Unload/Finish.antt =====
-- The steps from a call of `gpu_telem_exit` to its end.
use lkm_char_dev.Base.{ℕ, zero, suc, ◌+◌, ◌-◌, ◌^◌, ◌≤◌, ◌<◌, ◌≡◌, ◌∙◌, refl, ap, arith}
use lkm_char_dev.Base.{true, false, none, some, [], ◌∷◌, ◌++◌, length, length-append, get_elem?}
use lkm_char_dev.Base.Steps.{Steps, stop, step, Steps-trans}
use lkm_char_dev.Uapi.{zero_sample}
use lkm_char_dev.Ring.Invariant.{Represents}
use lkm_char_dev.Ring.Push.{ring_push_refines}
use lkm_char_dev.Unload.{
  Module, CollectorAt, testing, collecting, waking, sleeping, returned, ExitCall, joins, exit_calls,
  Step, Calm, test, push, wake, sleep, request_stop, join, call, Reach, next,
}
use lkm_char_dev.Unload.Invariant.{
  Inv, Phase, stopping, joined, finished, alive, at-Phase, Reach-Inv,
}

pub Reach-Steps : {s t : Module} → Reach s → Steps Step s t → Reach t
Reach-Steps reach stop = reach
Reach-Steps reach (step st steps) = Reach-Steps (next reach st) steps

Calm-Reach : {s t : Module} → Reach s → Steps Calm s t → Reach t
Calm-Reach reach stop = reach
Calm-Reach reach (step (st, calm) steps) = Calm-Reach (next reach st) steps

-- The collector comes back, with at most `extra` samples more, and the exit waits.
record Back (extra : ℕ) (s t : Module) : Type 0 where
  steps : Steps Calm s t
  back : t.collector ≡ returned
  waits : t.exiting ≡ s.exiting
  asked : t.should_stop ≡ true
  logged : length t.log ≤ length s.log + extra

-- A step before.
after :
    {s u : Module} (k extra : ℕ)
    → Calm s u
    → u.exiting ≡ s.exiting
    → length u.log ≤ length s.log + k
    → (t : Module) × Back extra u t
    → (t : Module) × Back (k + extra) s t
after k extra st same grown (t, b) = (
  t,
  record {
    steps = step st b.steps;
    back = b.back;
    waits = b.waits ∙ same;
    asked = b.asked;
    logged = omega (arith, b.logged, grown);
  },
)

testing-Back :
    (s : Module) → s.should_stop ≡ true → s.collector ≡ testing → (t : Module) × Back 0 s t
testing-Back s asked at = (
  _,
  record {
    steps = step (test at, refl) stop;
    back = rw asked refl;
    waits = refl;
    asked = asked;
    logged = omega arith;
  },
)

sleeping-Back :
    (s : Module) → s.should_stop ≡ true → s.collector ≡ sleeping → (t : Module) × Back 0 s t
sleeping-Back s asked at =
    after 0 0 (sleep false (λ e. cc) at, refl) refl (omega arith)
      (testing-Back (record s { collector = testing }) asked refl)

waking-Back : (s : Module) → s.should_stop ≡ true → s.collector ≡ waking → (t : Module) × Back 0 s t
waking-Back s asked at =
    after 0 0 (wake at, refl) refl (omega arith)
      (sleeping-Back (record s { collector = sleeping }) asked refl)

collecting-Back :
    (s : Module)
    → s.should_stop ≡ true
    → s.collector ≡ collecting
    → Represents s.ring s.log
    → length s.log + 1 < 2 ^ 64
    → (t : Module) × Back 1 s t
collecting-Back s asked at p fits =
    let (r, pushes, _) = ring_push_refines p zero_sample fits in
    after 1 0 (push zero_sample at pushes, refl) refl
      (omega (arith, length-append s.log (zero_sample ∷ [])))
      (waking-Back (record s { ring = r; collector = waking; log = s.log ++ zero_sample ∷ [] })
        asked refl)

weaken : {s : Module} → (t : Module) × Back 0 s t → (t : Module) × Back 1 s t
weaken (t, b) = (
  t,
  record {
    steps = b.steps;
    back = b.back;
    waits = b.waits;
    asked = b.asked;
    logged = omega (arith, b.logged);
  },
)

-- Wherever the collector is, it comes back once it is asked to.
comes-Back :
    (s : Module) (c : CollectorAt)
    → Inv s
    → length s.log + 1 < 2 ^ 64
    → s.should_stop ≡ true
    → s.collector ≡ c
    → (t : Module) × Back 1 s t
comes-Back s testing inv fits asked at = weaken (testing-Back s asked at)
comes-Back s collecting inv fits asked at = collecting-Back s asked at (alive inv (rw at refl)) fits
comes-Back s waking inv fits asked at = weaken (waking-Back s asked at)
comes-Back s sleeping inv fits asked at = weaken (sleeping-Back s asked at)
comes-Back s returned inv fits asked at =
    (s, record { steps = stop; back = at; waits = refl; asked = asked; logged = omega arith })

-- The calls after `kthread_stop` are there, and none of them waits.
call_there :
    (n : ℕ) → 1 ≤ n → n ≤ 5 → (c : ExitCall) × (get_elem? exit_calls n ≡ some c) × (joins c ≡ false)
unfolding exit_calls
call_there zero lo hi = absurd (omega arith)
call_there (suc zero) lo hi = (_, refl, refl)
call_there (suc (suc zero)) lo hi = (_, refl, refl)
call_there (suc (suc (suc zero))) lo hi = (_, refl, refl)
call_there (suc (suc (suc (suc zero)))) lo hi = (_, refl, refl)
call_there (suc (suc (suc (suc (suc zero))))) lo hi = (_, refl, refl)
call_there (suc (suc (suc (suc (suc (suc n)))))) lo hi = absurd (omega arith)

-- The calls that are left, one after another.
rest_of_calls :
    (left : ℕ) {s : Module} (n : ℕ)
    → s.exiting ≡ some n
    → 1 ≤ n
    → n + left ≡ 6
    → (t : Module) × Steps Calm s t × (t.exiting ≡ some 6) × (t.log ≡ s.log)
rest_of_calls zero {s} n at lo six = (s, stop, at ∙ ap some (omega arith), refl)
rest_of_calls (suc left) {s} n at lo six =
    let (c, here, goes) = call_there n lo (omega arith) in
    let (t, steps, done, same) = rest_of_calls left (suc n) refl (omega arith) (omega arith) in
    (t, step (call at here goes, refl) steps, done, same)

first_call : (c : ExitCall) × (get_elem? exit_calls 0 ≡ some c) × (joins c ≡ true)
unfolding exit_calls
first_call = (_, refl, refl)

Phase-le : {s : Module} (n : ℕ) → Phase s n → n ≤ 6
Phase-le n (stopping start p) = omega arith
Phase-le n (joined lo hi back p) = omega arith
Phase-le n (finished end back gone) = omega arith

ended : {s : Module} → Phase s 6 → (s.collector ≡ returned) × (s.ring.samples ≡ none)
ended (stopping start p) = absurd (omega arith)
ended (joined lo hi back p) = absurd (omega arith)
ended (finished end back gone) = (back, gone)

-- `gpu_telem_exit` has returned.
abbrev pub IsUnloaded : Module → Type 0
IsUnloaded t = (t.exiting ≡ some 6) × (t.collector ≡ returned) × (t.ring.samples ≡ none)

-- From behind `kthread_stop`.
joined_finishes :
    {s : Module} (n : ℕ)
    → Reach s
    → length s.log + 1 < 2 ^ 64
    → s.exiting ≡ some n
    → 1 ≤ n
    → n ≤ 6
    → (t : Module) × Steps Calm s t × IsUnloaded t
joined_finishes {s} n reach fits at lo hi =
    let (t, steps, done, same) = rest_of_calls (6 - n) n at lo (omega arith) in
    let inv = Reach-Inv (Calm-Reach reach steps) (rw same fits) in
    let (back, gone) = ended (at-Phase inv done).1 in (t, steps, (done, back, gone))

-- Unloading never gets stuck: from every state that a loaded module can reach once
-- `gpu_telem_exit` has begun, with fewer than 2^64 - 2 samples pushed, there are steps, none of
-- them a signal or a sleep that a signal ends, to a state where all its calls have returned, the
-- collector's thread has ended, and the ring's storage is released.
pub unload_finishes :
    {s : Module} (n : ℕ)
    → Reach s
    → length s.log + 2 < 2 ^ 64
    → s.exiting ≡ some n
    → (t : Module) × Steps Calm s t × IsUnloaded t
unload_finishes {s} zero reach fits at =
    let (c, here, stops) = first_call in
    let s' = record s { should_stop = true } in
    let asking : Step s s' = request_stop at here stops in
    let reach' = next reach asking in
    let (t, b) =
      comes-Back s' s'.collector (Reach-Inv reach' (omega arith)) (omega arith) refl refl in
    let joining = join (b.waits ∙ at) here stops b.asked b.back in
    let reach'' = next (Calm-Reach reach' b.steps) joining in
    let (u, steps, done) =
      joined_finishes 1 reach'' (omega (arith, b.logged)) refl (omega arith) (omega arith) in
    (u, step (asking, refl) (Steps-trans b.steps (step (joining, refl) steps)), done)
unload_finishes {s} (suc n) reach fits at =
    let inv = Reach-Inv reach (omega arith) in
    joined_finishes (suc n) reach (omega arith) at (omega arith)
      (Phase-le (suc n) (at-Phase inv at).1)
