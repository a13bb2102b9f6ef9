-- ===== src/System.antt =====
-- The driver in motion: the collector of kernel/gpu_telem_core.c beside any number of open files,
-- each read by one thread, interleaved at the calls of the ring buffer and of the wait queue.
pub mod Readers
pub mod Invariant
pub mod Safety
pub mod Turns
pub mod Progress
pub mod Dropped
pub mod KeepsUp
mod Tests
use lkm_char_dev.Base.{
  ℕ, Bool, suc, ◌+◌, ◌-◌, ◌^◌, ◌≤◌, ◌<◌, ◌≡◌, true, false, Option, some, List, [], ◌∷◌, ◌++◌,
  length, ◌==◌, if◌then◌else◌,
}
use lkm_char_dev.Uapi.{GpuSample}
use lkm_char_dev.Log.{Log, lost}
use lkm_char_dev.Ring.{RingBuf, Consumed, ring_push, ring_consume, ring_data_available}
use lkm_char_dev.Ring.Invariant.{Represents}

-- Where the collector's loop stands: before `ring_push`, or between it and `wake_up_interruptible`.
pub data CollectorPc : Type 0 where
  collecting pushed : CollectorPc

-- Where the thread of a file stands. `most` is `max_samples`.
pub data ReaderPc : Type 0 where
  closed : ReaderPc
  idle : ReaderPc  -- open, in no call
  testing : (most : ℕ) → ReaderPc  -- in `wait_event_interruptible`, before its condition is tested
  asleep : (most : ℕ) → ReaderPc  -- on the wait queue
  ready : (most : ℕ) → ReaderPc  -- the wait has returned 0, before `ring_consume`
  polling : ReaderPc  -- in `poll`, behind `poll_wait`
  polling_asleep : ReaderPc  -- in `poll`, on the wait queue

-- `next` is `next_seq`. The fields behind it are a record of what happened, which no step tests: the
-- first number that the file could see, how many samples it has missed by falling behind, what it
-- was given, how many of its reads failed in `copy_to_user`, and how many samples these had taken.
pub record Reader : Type 0 where
  pub pc : ReaderPc
  pub next : ℕ
  pub start : ℕ
  pub missed : ℕ
  pub given : List GpuSample
  pub faults : ℕ
  pub unreported : ℕ

-- `log` records every sample that was pushed, and is tested by no step either.
pub record System : Type 0 where
  pub ring : RingBuf
  pub collector : CollectorPc
  pub readers : ℕ → Reader
  pub log : Log

abbrev pub set_reader : System → ℕ → Reader → System
set_reader s i x = record s { readers = λ j. if i == j then x else s.readers j }

-- A thread on the wait queue.
abbrev pub sleeps : ReaderPc → Bool
sleeps closed = false
sleeps idle = false
sleeps (testing most) = false
sleeps (asleep most) = true
sleeps (ready most) = false
sleeps polling = false
sleeps polling_asleep = true

-- `wake_up_interruptible`: a sleeper tests its condition again.
abbrev pub woken_pc : ReaderPc → ReaderPc
woken_pc (asleep most) = testing most
woken_pc closed = closed
woken_pc idle = idle
woken_pc (testing most) = testing most
woken_pc (ready most) = ready most
woken_pc polling = polling
woken_pc polling_asleep = polling

abbrev pub woken : Reader → Reader
woken x = record x { pc = woken_pc x.pc }

abbrev pub opened : System → Reader
opened s = record {
  pc = idle;
  next = s.ring.head_seq;
  start = s.ring.head_seq;
  missed = 0;
  given = [];
  faults = 0;
  unreported = 0;
}

-- One step of one thread. A wait goes to sleep only where its condition is false at that moment, as
-- `wait_event_interruptible` promises; a signal ends it early. A read of a file that is not to block
-- returns instead, and a read for which there is no memory returns without taking anything. `poll`
-- calls `gpu_telem_poll`, which puts the thread on the wait queue before its test, and again each
-- time that the thread is woken, until there is data, a signal, or the end of its time. Where
-- `copy_to_user` fails, a read has taken its samples and moved the file's position all the same.
pub data Step (s : System) : System → Type 0 where
  push :
      {r : RingBuf} (x : GpuSample)
      → s.collector ≡ collecting
      → ring_push s.ring x ≡ some r
      → Step s (record s { ring = r; collector = pushed; log = s.log ++ x ∷ [] })
  wake :
      s.collector ≡ pushed
      → Step s (record s { collector = collecting; readers = λ i. woken (s.readers i) })
  open_file : (i : ℕ) → (s.readers i).pc ≡ closed → Step s (set_reader s i (opened s))
  close_file :
      (i : ℕ)
      → (s.readers i).pc ≡ idle
      → Step s (set_reader s i (record (s.readers i) { pc = closed }))
  call_read :
      (i most : ℕ)
      → (s.readers i).pc ≡ idle
      → 1 ≤ most
      → most < 2 ^ 32
      → Step s (set_reader s i (record (s.readers i) { pc = testing most }))
  find_data :
      (i : ℕ) {most : ℕ}
      → (s.readers i).pc ≡ testing most
      → ring_data_available s.ring (s.readers i).next ≡ true
      → Step s (set_reader s i (record (s.readers i) { pc = ready most }))
  go_to_sleep :
      (i : ℕ) {most : ℕ}
      → (s.readers i).pc ≡ testing most
      → ring_data_available s.ring (s.readers i).next ≡ false
      → Step s (set_reader s i (record (s.readers i) { pc = asleep most }))
  would_block :
      (i : ℕ) {most : ℕ}
      → (s.readers i).pc ≡ testing most
      → ring_data_available s.ring (s.readers i).next ≡ false
      → Step s (set_reader s i (record (s.readers i) { pc = idle }))
  no_memory :
      (i : ℕ) {most : ℕ}
      → (s.readers i).pc ≡ ready most
      → Step s (set_reader s i (record (s.readers i) { pc = idle }))
  signal :
      (i : ℕ) {most : ℕ}
      → (s.readers i).pc ≡ asleep most
      → Step s (set_reader s i (record (s.readers i) { pc = idle }))
  call_poll :
      (i : ℕ)
      → (s.readers i).pc ≡ idle
      → Step s (set_reader s i (record (s.readers i) { pc = polling }))
  poll_finds :
      (i : ℕ)
      → (s.readers i).pc ≡ polling
      → ring_data_available s.ring (s.readers i).next ≡ true
      → Step s (set_reader s i (record (s.readers i) { pc = idle }))
  poll_sleeps :
      (i : ℕ)
      → (s.readers i).pc ≡ polling
      → ring_data_available s.ring (s.readers i).next ≡ false
      → Step s (set_reader s i (record (s.readers i) { pc = polling_asleep }))
  poll_gives_up :
      (i : ℕ)
      → (s.readers i).pc ≡ polling_asleep
      → Step s (set_reader s i (record (s.readers i) { pc = idle }))
  consume :
      (i : ℕ) {most : ℕ} {c : Consumed}
      → (s.readers i).pc ≡ ready most
      → ring_consume s.ring (s.readers i).next most ≡ some c
      → Step s (
          set_reader
            (record s { ring = c.ring })
            i
            (record (s.readers i) {
              pc = idle;
              next = c.next_seq;
              missed = (s.readers i).missed + lost s.ring.size s.log (s.readers i).next;
              given = (s.readers i).given ++ c.out;
            }))
  consume_fault :
      (i : ℕ) {most : ℕ} {c : Consumed}
      → (s.readers i).pc ≡ ready most
      → ring_consume s.ring (s.readers i).next most ≡ some c
      → Step s (
          set_reader
            (record s { ring = c.ring })
            i
            (record (s.readers i) {
              pc = idle;
              next = c.next_seq;
              missed = (s.readers i).missed + lost s.ring.size s.log (s.readers i).next;
              faults = (s.readers i).faults + 1;
              unreported = (s.readers i).unreported + length c.out;
            }))

-- No file is open.
abbrev pub no_readers : ℕ → Reader
no_readers i = record {
  pc = closed;
  next = 0;
  start = 0;
  missed = 0;
  given = [];
  faults = 0;
  unreported = 0;
}

-- What can happen from a freshly initialised ring on.
pub data Reach : System → Type 0 where
  loaded :
      {r : RingBuf}
      → Represents r []
      → Reach (record { ring = r; collector = collecting; readers = no_readers; log = [] })
  next : {s t : System} → Reach s → Step s t → Reach t
