-- ===== src/Driver/KeepsUp.antt =====
-- A file that is read in time, and without faults.
mod Tests
use lkm_char_dev.Base.{
  ℕ, ◌+◌, ◌-◌, ◌^◌, ◌≤◌, ◌<◌, ◌≡◌, ◌≢◌, ◌∙◌, refl, sym, ap, ap₂, subst, arith, inl, inr, Bool, true,
  false, Bool-cases, none, some, some_inj, List, [], ◌∷◌, ◌++◌, length, length-append, take, drop,
  drop_all, take-nil, take-drop-append, take_more, drop-drop, take-length, append-nil, ◌==◌, ==_iff,
  if◌then◌else◌,
}
use lkm_char_dev.Uapi.{GpuSample}
use lkm_char_dev.Uapi.Layout.{encode_all}
use lkm_char_dev.Log
use lkm_char_dev.Log.{Log}
use lkm_char_dev.Device.{gpu_telem_open, gpu_telem_release, ReadResult, ReadCalls}
use lkm_char_dev.Device.Errno.{efault}
use lkm_char_dev.Ring.Consume.{ring_consume_refines}
use lkm_char_dev.Collector.{collect_sample}
use lkm_char_dev.Ring.Invariant.{size_pos}
use lkm_char_dev.System.Readers.{slice-more}
use lkm_char_dev.Driver.{
  Driver, Call, collects, wakes, opens, fails_to_open, releases, reads, polls, controls,
  sets_nonblock, Used, loaded, next, update, IsWait, gpu_telem_fops, reported,
}
use lkm_char_dev.Driver.Reads.{Kept, Took, read-cases, unless_fault}
use lkm_char_dev.Driver.Shows.{encode_all-append}
use lkm_char_dev.Driver.Streams.{log-grows, driver-Stream, ring-Represents}

-- Since the file was last opened, no read of it came when it was more than the ring's size behind,
-- and none returned -EFAULT.
abbrev pub KeepsUp : ℕ → {s : Driver} → Used s → Type 0
KeepsUp i (loaded p) = Unit
KeepsUp i (next used (opens j unused e)) = i ≢ j → KeepsUp i used
KeepsUp i (next {s} used (reads j k count {next = n} {res = res} opened waits e)) =
    KeepsUp i used × (i ≡ j → (length s.log ≤ n + s.device.ring.size) × (res.ret ≢ efault))
KeepsUp i (next used (collects k now old at time memory pushes)) = KeepsUp i used
KeepsUp i (next used (wakes at)) = KeepsUp i used
KeepsUp i (next used (fails_to_open j unused e)) = KeepsUp i used
KeepsUp i (next used (releases j opened e)) = KeepsUp i used
KeepsUp i (next used (polls j e)) = KeepsUp i used
KeepsUp i (next used (controls j cmd k opened)) = KeepsUp i used
KeepsUp i (next used (sets_nonblock j on)) = KeepsUp i used

-- The samples between two sequence numbers.
abbrev pub between : Log → ℕ → ℕ → Log
between h from n = take (n - from) (drop from h)

-- The file that changes is this one, or it is another.
changed : (j i : ℕ) (P : Bool → Type 0) → (i ≡ j → P true) → (i ≢ j → P false) → P (j == i)
changed j i P same other = elim (Bool-cases (j == i)) [
  | inl e ↦ subst P (sym e) (same (sym ((==_iff j i).0 e)))
  | inr ne ↦ subst P (sym ne) (other (λ e. let wrong = sym ((==_iff j i).1 (sym e)) ∙ ne in cc))
]

-- Reading on in time.
between-more :
    (h : Log) (size from n most : ℕ)
    → from ≤ n
    → length h ≤ n + size
    → between h from n ++ Log.read size h n most
      ≡ between h from (Log.first size h n + length (Log.read size h n most))
between-more h size from n most le near =
    let here : Log.first size h n ≡ n = omega arith in
    let there : from + (n - from) ≡ n = omega arith in
    let slice = rw there at (slice-more h from (n - from) most) in
    rw here (slice ∙ ap (λ k. take k (drop from h)) (omega arith))

-- A read in time that does not fail in the copy reports all up to the new position.
read_whole :
    {s : Driver} (used : Used s)
    → length s.log + 1 < 2 ^ 64
    → (j : ℕ) (k : ReadCalls) (count : ℕ) {m : ℕ} {res : ReadResult}
    → (s.files j).private_data ≡ some m
    → IsWait k s.device.ring m
    → gpu_telem_fops.read k s.device.ring (s.files j) count ≡ some res
    → s.sent j ≡ encode_all (between s.log (s.start j) m)
    → length s.log ≤ m + s.device.ring.size
    → res.ret ≢ efault
    → (n : ℕ) → res.file.private_data ≡ some n
    → s.sent j ++ reported res ≡ encode_all (between s.log (s.start j) n)
read_whole {s} used fits j k count {m} {res} opened waits e before near whole n at =
    let p = ring-Represents used fits in
    let valid = p.valid in
    let (_, _, reached, _, _, _) = driver-Stream used fits j opened in
    elim (read-cases k s.device.ring (s.files j) m count (omega (arith, size_pos valid))
      (omega (arith, valid.size_small)) opened waits e) [
        | inl kept ↦
            let same : m ≡ n =
              some_inj (sym opened ∙ ap (λ f. f.private_data) (sym kept.file) ∙ at) in
            ap (λ t. s.sent j ++ t) kept.sent
            ∙ append-nil (s.sent j)
            ∙ before
            ∙ ap (λ x. encode_all (between s.log (s.start j) x)) same
        | inr took ↦
            let (returns, _) = ring_consume_refines p m took.most took.small in
            let result = some_inj (sym took.consumes ∙ returns) in
            let all = unless_fault took whole ∙ ap (λ c. c.out) result in
            let end =
              some_inj (sym at ∙ ap (λ f. f.private_data) took.file)
              ∙ ap (λ c. c.next_seq) result in
            let size = s.device.ring.size in
            ap₂ (λ a b. a ++ b) before (took.sent ∙ ap encode_all all)
            ∙ sym
                (encode_all-append (between s.log (s.start j) m) (Log.read size s.log m took.most))
            ∙ ap encode_all
                (between-more s.log size (s.start j) m took.most (omega (arith, reached)) near)
            ∙ ap (λ x. encode_all (between s.log (s.start j) x)) (sym end)
      ]

module _ (i : ℕ) where
  -- A file that is read in time gets everything: whatever calls were made of any files in any
  -- order beside the collector, with fewer than 2^64 - 1 samples pushed, an open file no read of
  -- which, since it was last opened, came when it was more than the ring's size behind or returned
  -- -EFAULT, was sent exactly the bytes of all the samples that the collector pushed from its
  -- opening up to its position, each once and in order.
  pub timely_file_gets_all :
      {s : Driver} (used : Used s)
      → length s.log + 1 < 2 ^ 64
      → KeepsUp i used
      → (n : ℕ) → (s.files i).private_data ≡ some n
      → s.sent i ≡ encode_all (between s.log (s.start i) n)
  unfolding gpu_telem_open gpu_telem_release encode_all
  timely_file_gets_all (loaded p) fits up n opened = cc
  timely_file_gets_all (next {s} used (collects k now old at time memory pushes)) fits up n opened =
      let a = collect_sample k now s.device old in
      let grown = length-append s.log (a ∷ []) in
      let fits' : length s.log + 1 < 2 ^ 64 = omega (arith, fits, grown) in
      let (_, _, reached, within, _, _) = driver-Stream used fits' i opened in
      timely_file_gets_all used fits' up n opened
      ∙ ap encode_all (
          sym (
            take-drop-append s.log (a ∷ []) (s.start i) (n - s.start i)
              (omega (arith, reached, within))))
  timely_file_gets_all (next used (wakes at)) fits up n opened =
      timely_file_gets_all used fits up n opened
  timely_file_gets_all (next used (polls j e)) fits up n opened =
      timely_file_gets_all used fits up n opened
  timely_file_gets_all (next used (controls j cmd k opened')) fits up n opened =
      timely_file_gets_all used fits up n opened
  timely_file_gets_all (next {s} used (sets_nonblock j on)) fits up n opened =
      timely_file_gets_all used fits up n (
        changed j i
          (λ b.
            (if b then record (s.files j) { nonblock = on } else s.files i).private_data ≡ some n
            → (s.files i).private_data ≡ some n)
          (λ same o. ap (λ k. (s.files k).private_data) same ∙ o) (λ other o. o) opened)
  timely_file_gets_all (next {s} used (fails_to_open j {f = f} unused e)) fits up n opened =
      timely_file_gets_all used fits up n (
        changed j i
          (λ b.
            (if b then f else s.files i).private_data ≡ some n → (s.files i).private_data ≡ some n)
          (λ same o. ap (λ k. (s.files k).private_data) same ∙ ap (λ y. y.2.private_data) e ∙ o)
          (λ other o. o) opened)
  timely_file_gets_all (next {s} used (releases j {f = f} opened' e)) fits up n opened =
      timely_file_gets_all used fits up n (
        changed j i
          (λ b.
            (if b then f else s.files i).private_data ≡ some n → (s.files i).private_data ≡ some n)
          (λ same o. let wrong = ap (λ y. y.2.private_data) e ∙ o in cc) (λ other o. o) opened)
  timely_file_gets_all (next {s} used (opens j {f = f} unused e)) fits up n opened =
      changed j i
        (λ b.
          (if b then f else s.files i).private_data ≡ some n
          → (if b then [] else s.sent i)
            ≡ encode_all (between s.log (if b then length s.log else s.start i) n))
        (λ same o. sym (
          ap encode_all (
            ap (take (n - length s.log)) (drop_all s.log (length s.log) (omega arith))
            ∙ take-nil (n - length s.log))))
        (λ other o. timely_file_gets_all used fits (up other) n o) opened
  timely_file_gets_all (next {s} used (reads j k count {next = m} {res = res} opened' waits e)) fits
        up n opened =
      changed j i
        (λ b.
          (if b then res.file else s.files i).private_data ≡ some n
          → (if b then s.sent j ++ reported res else s.sent i)
            ≡ encode_all (between s.log (s.start i) n))
        (λ same o.
          let (near, whole) = up.1 same in
          let before =
            timely_file_gets_all used fits up.0 m
              (ap (λ x. (s.files x).private_data) same ∙ opened') in
          let here : s.sent j ≡ encode_all (between s.log (s.start j) m) =
            subst (λ x. s.sent x ≡ encode_all (between s.log (s.start x) m)) same before in
          read_whole used fits j k count opened' waits e here near whole n o
          ∙ ap (λ x. encode_all (between s.log (s.start x) n)) (sym same))
        (λ other o. timely_file_gets_all used fits up.0 n o) opened
