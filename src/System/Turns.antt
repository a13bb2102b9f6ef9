-- ===== src/System/Turns.antt =====
-- A turn of the collector, and of a reader that finds data.
use lkm_char_dev.Base.{
  ℕ, ◌+◌, ◌^◌, ◌<◌, ◌≤◌, ◌≡◌, ◌∙◌, ap, ap₂, arith, inl, inr, refl, ◌⊎◌, lt→ltb, true, false, Bool,
}
use lkm_char_dev.Base.{[], ◌∷◌, ◌++◌, length, length-append, ◌==◌, ==_iff}
use lkm_char_dev.Base.Steps.{Steps, stop, step}
use lkm_char_dev.Uapi.{GpuSample}
use lkm_char_dev.Ring.{RingBuf, ring_data_available}
use lkm_char_dev.Ring.Invariant.{Represents}
use lkm_char_dev.Ring.Push.{ring_push_refines}
use lkm_char_dev.System.{
  System, Step, Reach, Reader, set_reader, CollectorPc, collecting, pushed, testing, ready, idle,
  poll_finds, call_read, idle, open_file, close_file, go_to_sleep, would_block, no_memory, signal,
  call_poll, poll_sleeps, poll_gives_up, consume_fault, woken, push, wake, find_data, consume, next,
}
use lkm_char_dev.System.Invariant.{Inv, Reach-Inv, after_consume}
use lkm_char_dev.System.Safety.{ready_takes}
use lkm_char_dev.Log
use lkm_char_dev.Log.{lost}

-- A step that ends no wait early, lets no read fail, and opens or closes no file.
abbrev pub is_undisturbed : {s t : System} → Step s t → Bool
is_undisturbed (push x at done) = true
is_undisturbed (wake at) = true
is_undisturbed (open_file i at) = false
is_undisturbed (close_file i at) = false
is_undisturbed (call_read i most at some_room small) = true
is_undisturbed (find_data i at there) = true
is_undisturbed (go_to_sleep i at none_there) = true
is_undisturbed (would_block i at none_there) = false
is_undisturbed (no_memory i at) = false
is_undisturbed (signal i at) = false
is_undisturbed (call_poll i at) = true
is_undisturbed (poll_finds i at there) = true
is_undisturbed (poll_sleeps i at none_there) = true
is_undisturbed (poll_gives_up i at) = false
is_undisturbed (consume i at done) = true
is_undisturbed (consume_fault i at done) = false

abbrev pub Undisturbed : System → System → Type 0
Undisturbed s t = (st : Step s t) × (is_undisturbed st ≡ true)

-- The thread of file `i` is back from a read of at most `most` samples, and was given what the log
-- holds for it: one sample at least.
abbrev pub Taken : System → ℕ → ℕ → System → Type 0
Taken s i most t =
    let more = Log.read t.ring.size s.log (s.readers i).next most in
    (t.log ≡ s.log)
    × ((t.readers i).pc ≡ idle)
    × ((t.readers i).given ≡ (s.readers i).given ++ more)
    × (1 ≤ length more)

-- The same, once `x` was pushed and nothing else.
abbrev pub Served : System → GpuSample → ℕ → ℕ → System → Type 0
Served s x i most t =
    let more = Log.read t.ring.size (s.log ++ x ∷ []) (s.readers i).next most in
    (t.log ≡ s.log ++ x ∷ [])
    × ((t.readers i).pc ≡ idle)
    × ((t.readers i).given ≡ (s.readers i).given ++ more)
    × (1 ≤ length more)

pub own_reader : (s : System) (i : ℕ) (x : Reader) → (set_reader s i x).readers i ≡ x
own_reader s i x = let same : (i == i) ≡ true = (==_iff i i).1 refl in rw same refl

collector-cases : (c : CollectorPc) → (c ≡ collecting) ⊎ (c ≡ pushed)
collector-cases collecting = inl refl
collector-cases pushed = inr refl

-- The last two steps: the data is found, and taken.
pub testing-Taken :
    {s : System}
    → Reach s
    → length s.log + 1 < 2 ^ 64
    → (i : ℕ) {most : ℕ} → (s.readers i).pc ≡ testing most
    → ring_data_available s.ring (s.readers i).next ≡ true
    → (t : System) × Steps Undisturbed s t × Taken s i most t
testing-Taken {s} reach fits i {most} at there =
    let x : Reader = record (s.readers i) { pc = ready most } in
    let s' = set_reader s i x in
    let own = own_reader s i x in
    let at' = ap (λ y. y.pc) own in
    let reach' = next reach (find_data i at there) in
    let (c, taken, out, some_out, _) = ready_takes reach' fits i at' in
    let after : Reader = record (s'.readers i) {
      pc = idle;
      next = c.next_seq;
      missed = (s'.readers i).missed + lost s'.ring.size s'.log (s'.readers i).next;
      given = (s'.readers i).given ++ c.out;
    } in
    let here : (s'.readers i).next ≡ (s.readers i).next = ap (λ y. y.next) own in
    let same = ap (λ n. Log.read c.ring.size s.log n most) here in
    let own' = own_reader (record s' { ring = c.ring }) i after in
    (
      after_consume s' i c,
      step (find_data i at there, refl) (step (consume i at' taken, refl) stop),
      (
        refl,
        ap (λ y. y.pc) own',
        ap (λ y. y.given) own' ∙ ap₂ (λ a b. a ++ b) (ap (λ y. y.given) own) (out ∙ same),
        omega (arith, some_out, ap length same),
      ),
    )

-- The ring after a push has data for a file that is not past the log's end.
push-available :
    {s : System}
    → Inv s
    → (x : GpuSample) (i : ℕ) {r : RingBuf} → Represents r (s.log ++ x ∷ [])
    → ring_data_available r (s.readers i).next ≡ true
unfolding ring_data_available
push-available {s} inv x i p =
    lt→ltb _ _ (omega (arith, p.head, (inv.readers i).within, length-append s.log (x ∷ [])))

-- The collector pushes a sample and wakes all that sleep, in the order that its place asks for.
pub collector_turn :
    {s : System}
    → Reach s
    → length s.log + 2 < 2 ^ 64
    → (x : GpuSample)
    → (u : System) × Steps Undisturbed s u
      × Reach u
      × (u.log ≡ s.log ++ x ∷ [])
      × ((i : ℕ) → u.readers i ≡ woken (s.readers i))
      × ((i : ℕ) → ring_data_available u.ring (s.readers i).next ≡ true)
collector_turn {s} reach fits x =
    let inv = Reach-Inv reach (omega arith) in
    let (r, pushes, p) = ring_push_refines inv.represents x (omega arith) in
    let there : (i : ℕ) → ring_data_available r (s.readers i).next ≡ true =
      λ i. push-available inv x i p in
    elim (collector-cases s.collector) [
      | inl free ↦ (
        _,
        step (push x free pushes, refl) (step (wake refl, refl) stop),
        next (next reach (push x free pushes)) (wake refl),
        refl,
        λ i. refl,
        there,
      )
      | inr busy ↦ (
        _,
        step (wake busy, refl) (step (push x refl pushes, refl) stop),
        next (next reach (wake busy)) (push x refl pushes),
        refl,
        λ i. refl,
        there,
      )
    ]
