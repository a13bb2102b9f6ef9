-- ===== src/System/Progress.antt =====
-- The steps by which a thread that sleeps in `read` or in `poll` gets a sample.
use lkm_char_dev.Base.{ℕ, ◌+◌, ◌^◌, ◌<◌, ◌≤◌, ◌≡◌, ◌∙◌, ap, ap₂, arith, refl, true}
use lkm_char_dev.Base.{[], ◌∷◌, ◌++◌, length, length-append}
use lkm_char_dev.Base.Steps.{Steps, step, Steps-trans}
use lkm_char_dev.Uapi.{GpuSample}
use lkm_char_dev.Ring.{ring_data_available}
use lkm_char_dev.System.{
  System, Step, Reach, Reader, set_reader, testing, asleep, polling, polling_asleep, idle,
  poll_finds, call_read, idle, woken_pc, next,
}
use lkm_char_dev.Log
use lkm_char_dev.Log.{lost}
use lkm_char_dev.System.Turns.{
  Undisturbed, Taken, Served, own_reader, testing-Taken, collector_turn,
}

-- What is taken once the collector has had its turn.
Taken-Served :
    (s u t : System) (x : GpuSample) (i most : ℕ)
    → u.log ≡ s.log ++ x ∷ []
    → (u.readers i).next ≡ (s.readers i).next
    → (u.readers i).given ≡ (s.readers i).given
    → Taken u i most t
    → Served s x i most t
Taken-Served s u t x i most grown here had (log, back, given, some_out) =
    let same = ap₂ (λ h n. Log.read t.ring.size h n most) grown here in
    (
      log ∙ grown,
      back,
      given ∙ ap₂ (λ a b. a ++ b) had same,
      omega (arith, some_out, ap length same),
    )

turn-fits :
    (s u : System) (x : GpuSample)
    → u.log ≡ s.log ++ x ∷ []
    → length s.log + 2 < 2 ^ 64
    → length u.log + 1 < 2 ^ 64
turn-fits s u x grown fits = omega (arith, fits, ap length grown, length-append s.log (x ∷ []))

-- A thread that sleeps in `read` is served by the collector's next round: in every reachable state
-- with fewer than 2^64 - 2 samples pushed, and for any sample `x`, there are steps, in which no
-- wait ends early, no read fails and no file is opened or closed, that push `x` and nothing else,
-- and after which the thread is back from its `read`. It was then given, on top of what it had,
-- what a reading of the log with `x` returns from its position on: one sample at least, and at
-- most as many as it has room for.
pub sleeper-Served :
    {s : System}
    → Reach s
    → length s.log + 2 < 2 ^ 64
    → (x : GpuSample) (i : ℕ) {most : ℕ} → (s.readers i).pc ≡ asleep most
    → (t : System) × Steps Undisturbed s t × Served s x i most t
sleeper-Served {s} reach fits x i {most} at =
    let (u, steps, reach', grown, woke, there) = collector_turn reach fits x in
    let own = woke i in
    let (t, more, taken) =
      testing-Taken reach' (turn-fits s u x grown fits) i (ap (λ y. y.pc) own ∙ ap woken_pc at)
        (ap (λ y. ring_data_available u.ring y.next) own ∙ there i) in
    (
      t,
      Steps-trans steps more,
      Taken-Served s u t x i most grown (ap (λ y. y.next) own) (ap (λ y. y.given) own) taken,
    )

-- A poll that finds data, and the read after it.
polling-Taken :
    {s : System}
    → Reach s
    → length s.log + 1 < 2 ^ 64
    → (i most : ℕ) → 1 ≤ most
    → most < 2 ^ 32
    → (s.readers i).pc ≡ polling
    → ring_data_available s.ring (s.readers i).next ≡ true
    → (t : System) × Steps Undisturbed s t × Taken s i most t
polling-Taken {s} reach fits i most some_room small at there =
    let told : Reader = record (s.readers i) { pc = idle } in
    let s1 = set_reader s i told in
    let own1 = own_reader s i told in
    let calls : Reader = record (s1.readers i) { pc = testing most } in
    let s2 = set_reader s1 i calls in
    let own2 = own_reader s1 i calls in
    let here : (s2.readers i).next ≡ (s.readers i).next =
      ap (λ y. y.next) own2 ∙ ap (λ y. y.next) own1 in
    let had : (s2.readers i).given ≡ (s.readers i).given =
      ap (λ y. y.given) own2 ∙ ap (λ y. y.given) own1 in
    let reach1 = next reach (poll_finds i at there) in
    let read : Step s1 s2 = call_read i most (ap (λ y. y.pc) own1) some_room small in
    let (t, steps, taken) =
      testing-Taken (next reach1 read) fits i (ap (λ y. y.pc) own2)
        (ap (ring_data_available s.ring) here ∙ there) in
    let (log, back, given, some_out) = taken in
    let same = ap (λ n. Log.read t.ring.size s.log n most) here in
    (
      t,
      step (poll_finds i at there, refl) (step (read, refl) steps),
      (log, back, given ∙ ap₂ (λ a b. a ++ b) had same, omega (arith, some_out, ap length same)),
    )

-- A thread that sleeps in `poll` is served by the collector's next round, as in the loop of the
-- reader: in every reachable state with fewer than 2^64 - 2 samples pushed, for any sample `x` and
-- any room from 1 to 2^32 - 1, there are steps, in which no wait ends early, no read fails and no
-- file is opened or closed, that push `x` and nothing else, and after which the thread is back
-- from a `read` with that room. It was then given, on top of what it had, what a reading of the
-- log with `x` returns from its position on: one sample at least, and at most as many as it has
-- room for.
pub poller-Served :
    {s : System}
    → Reach s
    → length s.log + 2 < 2 ^ 64
    → (x : GpuSample) (i most : ℕ) → 1 ≤ most
    → most < 2 ^ 32
    → (s.readers i).pc ≡ polling_asleep
    → (t : System) × Steps Undisturbed s t × Served s x i most t
poller-Served {s} reach fits x i most some_room small at =
    let (u, steps, reach', grown, woke, there) = collector_turn reach fits x in
    let own = woke i in
    let (t, more, taken) =
      polling-Taken reach' (turn-fits s u x grown fits) i most some_room small
        (ap (λ y. y.pc) own ∙ ap woken_pc at)
        (ap (λ y. ring_data_available u.ring y.next) own ∙ there i) in
    (
      t,
      Steps-trans steps more,
      Taken-Served s u t x i most grown (ap (λ y. y.next) own) (ap (λ y. y.given) own) taken,
    )
