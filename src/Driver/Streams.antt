-- ===== src/Driver/Streams.antt =====
-- What the users of the driver get: the bytes of each file, and calls that return.
use lkm_char_dev.Base.{
  ℕ, ◌+◌, ◌-◌, ◌/◌, ◌^◌, ◌≤◌, ◌<◌, ◌≡◌, ◌≢◌, ◌∙◌, refl, ap, ap₂, subst, arith, inl, inr, Option,
  none, some, List, [], ◌∷◌, length, length-append, take, drop, min, u32,
}
use lkm_char_dev.Base.Steps.{Steps, stop, step}
use mathlib.Core.List.{Sublist}
use lkm_char_dev.Uapi.{GpuSample, sample_size}
use lkm_char_dev.Uapi.Layout.{encode_all}
use lkm_char_dev.Ring.{RingBuf, ring_push}
use lkm_char_dev.Ring.Invariant.{Represents}
use lkm_char_dev.Ring.Push.{ring_push_refines}
use lkm_char_dev.Ring.Consume.{ring_consume_refines}
use lkm_char_dev.Device.{
  ReadCalls, ReadResult, gpu_telem_read, gpu_telem_poll, await, transfer, File,
}
use lkm_char_dev.System
use lkm_char_dev.System.{System, Reach, no_readers, collecting, Reader, CollectorPc}
use lkm_char_dev.System.Invariant.{Reach-Inv}
use lkm_char_dev.System.Readers.{ReaderOk}
use lkm_char_dev.Driver.{
  Driver, Call, collects, wakes, opens, fails_to_open, releases, reads, polls, controls,
  sets_nonblock, Used, loaded, next, IsWait, gpu_telem_fops,
}
use lkm_char_dev.Driver.Reads.{await-cases}
use lkm_char_dev.Log.{Log}
use lkm_char_dev.Driver.Shows.{open-idle, Sim, Shows, as_closed}
use lkm_char_dev.Driver.Refines.{call_refines}

Reach-Steps : {s t : System} → Reach s → Steps System.Step s t → Reach t
Reach-Steps reach stop = reach
Reach-Steps reach (step st steps) = Reach-Steps (System.next reach st) steps

pub log-grows : {s t : Driver} → Call s t → length s.log ≤ length t.log
log-grows {s} (collects k now old at time memory pushes) =
    omega (arith, length-append s.log (_ ∷ []))
log-grows (wakes at) = omega arith
log-grows (opens i unused e) = omega arith
log-grows (fails_to_open i unused e) = omega arith
log-grows (releases i opened e) = omega arith
log-grows (reads i k count opened waits e) = omega arith
log-grows (polls i e) = omega arith
log-grows (controls i cmd k opened) = omega arith
log-grows (sets_nonblock i on) = omega arith

-- Every driver that is in use refines the system of System.antt: with fewer than 2^64 - 1 samples
-- pushed, there is a reachable state of the system with the same ring, the same log and the same
-- place of the collector, in which every open file shows a reader that is in no call, at the
-- file's position, and every other file a reader that is closed. What an open file's reads
-- reported to it are exactly the bytes of what its reader was given, and of the reader's reads no
-- more failed than of the file's returned -EFAULT.
pub driver_refines :
    {s : Driver} → Used s → length s.log + 1 < 2 ^ 64 → (u : System) × Reach u × Sim s u
driver_refines (loaded p) fits = (
  _,
  System.loaded p,
  record { ring = refl; collector = refl; log = refl; files = λ i. as_closed refl refl },
)
driver_refines (next {s} used c) fits =
    let (u, reach, sim) = driver_refines used (omega (arith, log-grows c)) in
    let inv = Reach-Inv reach (omega (arith, log-grows c, ap length sim.log)) in
    let (u', steps, sim') = call_refines c sim inv in (u', Reach-Steps reach steps, sim')

-- The wait leaves the ring as it is at its return.
await-ring : (k : ReadCalls) (r : RingBuf) (f : File) (n : ℕ) → IsWait k r n → (await k r f n).1 ≡ r
await-ring k r f n waits = elim (await-cases k r f n waits) [
  | inl (there, e) ↦ ap (λ a. a.1) e
  | inr (ret, failed, e) ↦ ap (λ a. a.1) e
]

-- A read of an open file does not fault.
read-ne-none :
    (k : ReadCalls) (r : RingBuf) (f : File) (n count : ℕ) {h : Log}
    → Represents r h
    → f.private_data ≡ some n
    → (await k r f n).1 ≡ r
    → gpu_telem_read k r f count ≢ none
unfolding gpu_telem_read transfer
read-ne-none k r f n count p opened waited fault =
    let most = u32 (min (count / sample_size) r.size) in
    let (returns, _) = ring_consume_refines p n most (omega arith) in ground (arith, returns)

poll-ne-none :
    (r : RingBuf) (f : File) (n : ℕ) → f.private_data ≡ some n → gpu_telem_poll r f ≢ none
unfolding gpu_telem_poll
poll-ne-none r f n opened fault = ground arith

returns_some {ℓ} : {A : Type ℓ} (o : Option A) → o ≢ none → (a : A) × (o ≡ some a)
returns_some none bad = absurd (bad refl)
returns_some (some a) bad = (a, refl)

-- The bytes that a file's reads reported are those of samples of the log, from where it was opened
-- up to its position, in order; if there are as many as the way is long, they are all of them.
abbrev pub Stream : Log → ℕ → ℕ → List ℕ → Type 0
Stream h from n sent =
    (given : List GpuSample) × (sent ≡ encode_all given)
    × (from + length given ≤ n)
    × (n ≤ length h)
    × Sublist given (take (n - from) (drop from h))
    × (from + length given ≡ n → given ≡ take (n - from) (drop from h))

Shows-Stream :
    (h : Log) (c : CollectorPc) {f : File} {from n : ℕ} {sent : List ℕ} {faults : ℕ} (x : Reader)
    → ReaderOk h c x
    → f.private_data ≡ some n
    → Shows f from sent faults x
    → Stream h from n sent
Shows-Stream h c {f} {from} {n} x ok opened shown =
    let (_, here, start, sends, _) = open-idle opened shown in
    let way = λ (a b : ℕ). take (b - a) (drop a h) in
    let slice : way x.start x.next ≡ way from n = ap₂ way start here in
    (
      x.given,
      sends,
      omega (arith, ok.counted, here, start),
      omega (arith, ok.within, here),
      subst (Sublist x.given) slice ok.ordered,
      λ full.
          let count : length x.given ≡ x.next - x.start =
            omega (arith, full, ok.counted, here, start) in
          ok.complete (omega (arith, ok.counted, full, here, start))
            (omega (arith, ok.counted, full, here, start))
          ∙ ap (λ m. take m (drop x.start h)) count
          ∙ slice,
    )

module _ {s : Driver} (used : Used s) (fits : length s.log + 1 < 2 ^ 64) where
  -- What the reads of an open file reported, whatever calls were made of any files in any order
  -- beside the collector, reads that fail to copy among them: the bytes of samples that the
  -- collector pushed between the file's opening and its position, in the order in which they were
  -- pushed, each at most once, and all of them where their number is the length of that way.
  -- Condition: fewer than 2^64 - 1 samples were pushed.
  pub driver-Stream :
      (i : ℕ) {n : ℕ} → (s.files i).private_data ≡ some n → Stream s.log (s.start i) n (s.sent i)
  driver-Stream i {n} opened =
      let (u, reach, sim) = driver_refines used fits in
      let inv = Reach-Inv reach (omega (arith, fits, ap length sim.log)) in
      subst (λ h. Stream h (s.start i) n (s.sent i)) sim.log
        (Shows-Stream u.log u.collector (u.readers i) (inv.readers i) opened (sim.files i))

  -- The ring represents the log.
  pub ring-Represents : Represents s.device.ring s.log
  ring-Represents =
      let (u, reach, sim) = driver_refines used fits in
      let inv = Reach-Inv reach (omega (arith, fits, ap length sim.log)) in
      subst (Represents s.device.ring) sim.log
        (subst (λ r. Represents r u.log) sim.ring inv.represents)

  -- No call of a driver in use faults: with fewer than 2^64 - 1 samples pushed, a `read` of an
  -- open file by a thread whose wait returns as documented, with any count, returns a result,
  -- `poll` of it returns a mask, and the collector's next `ring_push` returns a ring.
  pub calls_return :
      (i : ℕ) {n : ℕ} (k : ReadCalls) (count : ℕ) (x : GpuSample)
      → (s.files i).private_data ≡ some n
      → IsWait k s.device.ring n
      → ((res : ReadResult) × (gpu_telem_fops.read k s.device.ring (s.files i) count ≡ some res))
        × ((mask : ℕ) × (gpu_telem_fops.poll s.device.ring (s.files i) ≡ some mask))
        × ((r : RingBuf) × (ring_push s.device.ring x ≡ some r))
  calls_return i {n} k count x opened waits =
      let p = ring-Represents in
      let (r, pushes, _) = ring_push_refines p x fits in
      let f = s.files i in
      let waited = await-ring k s.device.ring f n waits in
      (
        returns_some _ (read-ne-none k s.device.ring f n count p opened waited),
        returns_some _ (poll-ne-none s.device.ring f n opened),
        (r, pushes),
      )
