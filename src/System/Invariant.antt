-- ===== src/System/Invariant.antt =====
-- The system's invariant: the ring represents the log, and every reader is where it should be.
use lkm_char_dev.Base.{
  ℕ, ◌+◌, ◌^◌, ◌≤◌, ◌<◌, ◌≡◌, ◌∙◌, inl, inr, refl, sym, subst, arith, Bool-cases,
}
use lkm_char_dev.Base.{[], ◌∷◌, ◌++◌, length, length-append, ◌==◌, some_inj}
use mathlib.Core.List.{nil-sublist}
use lkm_char_dev.Log.{lost}
use lkm_char_dev.Ring.{Consumed}
use lkm_char_dev.Ring.Invariant.{Represents, lt_of_available, le_of_unavailable}
use lkm_char_dev.Ring.Push.{ring_push_refines}
use lkm_char_dev.Ring.Consume.{ring_consume_refines}
use lkm_char_dev.System.{
  System, Step, Reach, Reader, set_reader, opened, CollectorPc, collecting, push, wake, open_file,
  close_file, call_read, find_data, go_to_sleep, would_block, no_memory, signal, call_poll,
  poll_finds, poll_sleeps, poll_gives_up, polling, polling_asleep, consume, consume_fault, loaded,
  next, ReaderPc, closed, idle, testing, asleep, ready, no_readers,
}
use lkm_char_dev.System.Readers.{
  ReaderOk, PcOk, push-ReaderOk, wake-ReaderOk, move-ReaderOk, consume-ReaderOk, fault-ReaderOk,
}

pub record Inv (s : System) : Type 0 where
  pub represents : Represents s.ring s.log
  pub readers : (i : ℕ) → ReaderOk s.log s.collector (s.readers i)

set_reader-ok :
    (s : System) (i : ℕ) (x : Reader)
    → ((j : ℕ) → ReaderOk s.log s.collector (s.readers j))
    → ReaderOk s.log s.collector x
    → (j : ℕ) → ReaderOk s.log s.collector ((set_reader s i x).readers j)
set_reader-ok s i x all ok j = elim (Bool-cases (i == j)) [
  | inl same ↦ rw same ok
  | inr other ↦ rw other (all j)
]

-- One reader moves to another place in its call.
move-Inv :
    (s : System) (i : ℕ) (pc : ReaderPc)
    → Inv s
    → PcOk s.log s.collector (s.readers i).next pc
    → Inv (set_reader s i (record (s.readers i) { pc = pc }))
move-Inv s i pc inv p = record {
  represents = inv.represents;
  readers = set_reader-ok s i _ inv.readers (move-ReaderOk (s.readers i) pc (inv.readers i) p);
}

-- What holds of a reader at the place that a step finds it.
pub place_at :
    {s : System} (i : ℕ) {pc : ReaderPc}
    → Inv s
    → (s.readers i).pc ≡ pc
    → PcOk s.log s.collector (s.readers i).next pc
place_at {s} i inv e = subst (PcOk s.log s.collector (s.readers i).next) e (inv.readers i).place

opened-ReaderOk : {s : System} → Inv s → ReaderOk s.log s.collector (opened s)
opened-ReaderOk inv = record {
  within = omega (arith, inv.represents.head);
  counted = omega arith;
  complete = λ _ _. refl;
  ordered = nil-sublist _;
  place = tt;
}

-- The system once a reader has what `ring_consume` returned.
abbrev pub after_consume : System → ℕ → Consumed → System
after_consume s i c =
    set_reader (record s { ring = c.ring }) i
      (record (s.readers i) {
        pc = idle;
        next = c.next_seq;
        missed = (s.readers i).missed + lost s.ring.size s.log (s.readers i).next;
        given = (s.readers i).given ++ c.out;
      })

-- The system once what a reader took did not reach the user.
abbrev pub after_fault : System → ℕ → Consumed → System
after_fault s i c =
    set_reader (record s { ring = c.ring }) i
      (record (s.readers i) {
        pc = idle;
        next = c.next_seq;
        missed = (s.readers i).missed + lost s.ring.size s.log (s.readers i).next;
        faults = (s.readers i).faults + 1;
        unreported = (s.readers i).unreported + length c.out;
      })

-- Every step keeps the invariant, as long as fewer than 2^64 - 1 samples have been pushed.
pub Step-Inv : {s t : System} → Step s t → length s.log + 1 < 2 ^ 64 → Inv s → Inv t
Step-Inv {s} (push x at done) fits inv =
    let (r', pushes, p) = ring_push_refines inv.represents x fits in
    record {
      represents = subst (λ r. Represents r (s.log ++ x ∷ [])) (some_inj (sym pushes ∙ done)) p;
      readers = λ i. push-ReaderOk x (s.readers i) (inv.readers i);
    }
Step-Inv {s} (wake at) fits inv = record {
  represents = inv.represents;
  readers = λ i. wake-ReaderOk (s.readers i) (inv.readers i);
}
Step-Inv {s} (open_file i at) fits inv = record {
  represents = inv.represents;
  readers = set_reader-ok s i (opened s) inv.readers (opened-ReaderOk inv);
}
Step-Inv {s} (close_file i at) fits inv = move-Inv s i closed inv tt
Step-Inv {s} (call_read i most at some_room small) fits inv =
    move-Inv s i (testing most) inv (some_room, small)
Step-Inv {s} (find_data i {most} at there) fits inv =
    let p = place_at i inv at in
    move-Inv s i (ready most) inv
      (p.0, p.1, lt_of_available inv.represents (s.readers i).next there)
Step-Inv {s} (go_to_sleep i {most} at none_there) fits inv =
    let p = place_at i inv at in
    move-Inv s i (asleep most) inv
      (p.0, p.1, inl (le_of_unavailable inv.represents (s.readers i).next none_there))
Step-Inv {s} (would_block i at none_there) fits inv = move-Inv s i idle inv tt
Step-Inv {s} (no_memory i at) fits inv = move-Inv s i idle inv tt
Step-Inv {s} (signal i at) fits inv = move-Inv s i idle inv tt
Step-Inv {s} (call_poll i at) fits inv = move-Inv s i polling inv tt
Step-Inv {s} (poll_finds i at there) fits inv = move-Inv s i idle inv tt
Step-Inv {s} (poll_sleeps i at none_there) fits inv =
    move-Inv s i polling_asleep inv
      (inl (le_of_unavailable inv.represents (s.readers i).next none_there))
Step-Inv {s} (poll_gives_up i at) fits inv = move-Inv s i idle inv tt
Step-Inv {s} (consume i {most} {c} at done) fits inv =
    let (returns, p) =
      ring_consume_refines inv.represents (s.readers i).next most (place_at i inv at).1 in
    subst (λ c'. Inv (after_consume s i c')) (some_inj (sym returns ∙ done))
      (record {
        represents = p;
        readers =
            set_reader-ok s i _ inv.readers
              (consume-ReaderOk s.ring.size most (s.readers i) (inv.readers i));
      })
Step-Inv {s} (consume_fault i {most} {c} at done) fits inv =
    let (returns, p) =
      ring_consume_refines inv.represents (s.readers i).next most (place_at i inv at).1 in
    subst (λ c'. Inv (after_fault s i c')) (some_inj (sym returns ∙ done))
      (record {
        represents = p;
        readers =
            set_reader-ok s i _ inv.readers
              (fault-ReaderOk s.ring.size most (s.readers i) (inv.readers i));
      })

closed-ReaderOk : (c : CollectorPc) (i : ℕ) → ReaderOk [] c (no_readers i)
closed-ReaderOk c i = record {
  within = omega arith;
  counted = omega arith;
  complete = λ _ _. refl;
  ordered = nil-sublist _;
  place = tt;
}

pub log-grows : {s t : System} → Step s t → length s.log ≤ length t.log
log-grows {s} (push x at done) = omega (arith, length-append s.log (x ∷ []))
log-grows (wake at) = omega arith
log-grows (open_file i at) = omega arith
log-grows (close_file i at) = omega arith
log-grows (call_read i most at some_room small) = omega arith
log-grows (find_data i at there) = omega arith
log-grows (go_to_sleep i at none_there) = omega arith
log-grows (would_block i at none_there) = omega arith
log-grows (no_memory i at) = omega arith
log-grows (signal i at) = omega arith
log-grows (call_poll i at) = omega arith
log-grows (poll_finds i at there) = omega arith
log-grows (poll_sleeps i at none_there) = omega arith
log-grows (poll_gives_up i at) = omega arith
log-grows (consume i at done) = omega arith
log-grows (consume_fault i at done) = omega arith

-- The invariant holds in every state that can be reached with fewer than 2^64 - 1 samples pushed.
pub Reach-Inv : {s : System} → Reach s → length s.log + 1 < 2 ^ 64 → Inv s
Reach-Inv (loaded p) fits = record { represents = p; readers = closed-ReaderOk collecting }
Reach-Inv (next r st) fits =
    Step-Inv st (omega (arith, log-grows st)) (Reach-Inv r (omega (arith, log-grows st)))
