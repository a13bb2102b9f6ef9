-- ===== src/Driver/Counts.antt =====
-- `open_count`: how many files of the device are open.
use lkm_char_dev.Base.{
  ℕ, zero, suc, ◌+◌, ◌-◌, ◌^◌, ◌≤◌, ◌<◌, ◌≡◌, ◌≢◌, ◌∙◌, refl, sym, ap, subst, arith, inl, inr, Bool,
  true, false, Bool-cases, none, some, if◌then◌else◌, ◌==◌, ==_iff, u32,
}
use native.Mathlib.Decide.{ℕ_discrete}
use lkm_char_dev.Device.{Device, File, gpu_telem_open, gpu_telem_release}
use lkm_char_dev.Device.{IoctlCalls, gpu_telem_ioctl, put_u32, set_interval}
use lkm_char_dev.Base.Steps.{Steps, stop, step}
use lkm_char_dev.Base.Int.{pos}
use lkm_char_dev.Ring.Invariant.{size_pos}
use lkm_char_dev.Lifecycle.{InitCalls, Params, Loaded, gpu_telem_init}
use lkm_char_dev.Lifecycle.Balance.{IsInitCalls}
use lkm_char_dev.Lifecycle.Success.{init_device}
use lkm_char_dev.Driver.Load.{IsHealthy, Call-IsHealthy, loaded-IsHealthy}
use lkm_char_dev.Driver.Reads.{read-cases}
use lkm_char_dev.Driver.{
  Driver, Call, collects, wakes, opens, fails_to_open, releases, reads, polls, controls,
  sets_nonblock, loaded_driver, update,
}

abbrev pub is_open : File → Bool
is_open f = elim f.private_data [ none ↦ false | some next ↦ true ]

abbrev weight : File → ℕ
weight f = if is_open f then 1 else 0

weight-le : (f : File) → weight f ≤ 1
weight-le f = ground arith

-- How many of the first `bound` files are open.
abbrev pub count_open : ℕ → (ℕ → File) → ℕ
count_open zero files = 0
count_open (suc bound) files = count_open bound files + (if is_open (files bound) then 1 else 0)

-- The files from `bound` on are closed, and the counter tells how many of the others are open.
pub record Counted (bound : ℕ) (d : Device) (files : ℕ → File) : Type 0 where
  pub closed : (j : ℕ) → bound ≤ j → is_open (files j) ≡ false
  pub counts : d.open_count ≡ u32 (count_open bound files)

-- Files that are closed do not count.
count-more :
    (bound more : ℕ) (files : ℕ → File)
    → ((j : ℕ) → bound ≤ j → is_open (files j) ≡ false)
    → count_open (more + bound) files ≡ count_open bound files
count-more bound zero files shut = ap (λ b. count_open b files) (omega arith)
count-more bound (suc more) files shut =
    let sum : suc more + bound ≡ suc (more + bound) = omega arith in
    let last = shut (more + bound) (omega arith) in
    rw (sum, last) (omega (arith, count-more bound more files shut))

module _ (files : ℕ → File) (i : ℕ) (f : File) where
  update_self : update files i f i ≡ f
  update_self = rw ((==_iff i i).1 refl) refl

  update-other : (j : ℕ) → i ≢ j → update files i f j ≡ files j
  update-other j ne = elim (Bool-cases (i == j)) [
    | inl same ↦ absurd (ne ((==_iff i j).0 same))
    | inr other ↦ rw other refl
  ]

  count-below :
      (bound : ℕ) → bound ≤ i → count_open bound (update files i f) ≡ count_open bound files
  count-below zero le = refl
  count-below (suc bound) le =
      let rest = count-below bound (omega arith) in
      let last = ap weight (update-other bound (omega arith)) in omega (arith, rest, last)

  -- The file that changes counts as it is then, and no longer as it was.
  count-update :
      (bound : ℕ)
      → i < bound
      → count_open bound (update files i f) + weight (files i) ≡ count_open bound files + weight f
  count-update zero lt = absurd (omega arith)
  count-update (suc bound) lt = elim (ℕ_discrete i bound) [
    | yes here ↦
        let rest = count-below bound (omega arith) in
        let new = ap weight (subst (λ b. update files i f b ≡ f) here update_self) in
        let old = ap (λ b. weight (files b)) here in omega (arith, rest, new, old)
    | no elsewhere ↦
        let rest = count-update bound (omega arith) in
        let last = ap weight (update-other bound elsewhere) in omega (arith, rest, last)
  ]

  -- The counter follows a file that changes.
  Counted-update :
      {bound : ℕ} {d d' : Device}
      → Counted bound d files
      → d'.open_count ≡ u32 (d.open_count + weight f + 2 ^ 32 - weight (files i))
      → Counted (suc i + bound) d' (update files i f)
  Counted-update {bound} {d} {d'} ok counter = record {
    closed = λ j le. ap is_open (update-other j (omega arith)) ∙ ok.closed j (omega arith);
    counts =
        let more = count-more bound (suc i) files ok.closed in
        let sum = count-update (suc i + bound) (omega arith) in
        omega (arith, counter, ok.counts, more, sum, weight-le (files i));
  }

ioctl-keeps_count :
    (k : IoctlCalls) (d : Device) (cmd : ℕ)
    → (gpu_telem_ioctl k d cmd).device.open_count ≡ d.open_count
unfolding gpu_telem_ioctl put_u32 set_interval
ioctl-keeps_count k d cmd = ground arith

-- Nothing counts differently.
Counted-same :
    {bound : ℕ} {d d' : Device} {files : ℕ → File}
    → Counted bound d files
    → d'.open_count ≡ d.open_count
    → Counted bound d' files
Counted-same ok e = record { closed = ok.closed; counts = e ∙ ok.counts }

-- A file that is open as it was.
Counted-kept :
    {bound : ℕ} {d d' : Device} {files : ℕ → File} (i : ℕ) (f : File)
    → Counted bound d files
    → d'.open_count ≡ d.open_count
    → is_open f ≡ is_open (files i)
    → Counted (suc i + bound) d' (update files i f)
Counted-kept {bound} {d} {d'} {files} i f ok counter same =
    let weighs : weight f ≡ weight (files i) = ap (λ b. if b then 1 else 0) same in
    Counted-update files i f {d = d} {d' = d'} ok
      (omega (arith, counter, weighs, ok.counts, weight-le (files i)))

module _ {size : ℕ} (lo : 1 ≤ size) (hi : size ≤ 4096) where
  Call-Counted :
      {s t : Driver}
      → Call s t
      → IsHealthy size s
      → {bound : ℕ} → Counted bound s.device s.files
      → (bound' : ℕ) × Counted bound' t.device t.files
  unfolding gpu_telem_open gpu_telem_release
  Call-Counted (collects k now old at time memory pushes) healthy ok = (_, Counted-same ok refl)
  Call-Counted (wakes at) healthy ok = (_, ok)
  Call-Counted {s} (opens i {d = d'} {f = f'} unused e) healthy {bound} ok =
      let count = ap (λ y. y.1.open_count) e in
      let new = ap (λ y. weight (y.2)) e in
      let old = ap (λ o. weight (record (s.files i) { private_data = o })) unused in
      (_, Counted-update s.files i f' {d = s.device} {d' = d'} ok (omega (arith, count, new, old)))
  Call-Counted {s} (fails_to_open i {f = f'} unused e) healthy ok =
      (_, Counted-kept i f' ok (ap (λ y. y.1.open_count) (sym e)) (ap (λ y. is_open (y.2)) (sym e)))
  Call-Counted {s} (releases i {d = d'} {f = f'} opened e) healthy {bound} ok =
      let count = ap (λ y. y.1.open_count) e in
      let new = ap (λ y. weight (y.2)) e in
      let old = ap (λ o. weight (record (s.files i) { private_data = o })) opened.1 in
      (_, Counted-update s.files i f' {d = s.device} {d' = d'} ok (omega (arith, count, new, old)))
  Call-Counted {s} (reads i k count {next} {res} opened waits e) healthy ok =
      let still : is_open res.file ≡ is_open (s.files i) =
        elim (read-cases k s.device.ring (s.files i) next count (omega (arith, healthy.sized))
          (omega (arith, healthy.sized)) opened waits e) [
            | inl kept ↦ ap is_open kept.file
            | inr took ↦
                ap is_open took.file
                ∙ ap (λ o. is_open (record (s.files i) { private_data = o })) (sym opened)
          ] in
      (_, Counted-kept i res.file ok refl still)
  Call-Counted (polls i e) healthy ok = (_, ok)
  Call-Counted {s} (controls i cmd k opened) healthy ok =
      (_, Counted-same ok (ioctl-keeps_count k s.device cmd))
  Call-Counted {s} (sets_nonblock i on) healthy ok =
      (_, Counted-kept i (record (s.files i) { nonblock = on }) ok refl refl)

  Steps-Counted :
      {s t : Driver}
      → Steps Call s t
      → IsHealthy size s
      → {bound : ℕ} → Counted bound s.device s.files
      → (bound' : ℕ) × Counted bound' t.device t.files
  Steps-Counted stop healthy ok = (_, ok)
  Steps-Counted (step c steps) healthy ok =
      let (_, ok') = Call-Counted c healthy ok in
      Steps-Counted steps (Call-IsHealthy lo hi c healthy) ok'

-- The counter of open files is right from the load on, with a kernel whose calls fail as
-- documented: where `gpu_telem_init` returned 0, then after any calls of the handlers for any
-- files in any order beside the collector, there is a bound from which on all files are closed,
-- and `open_count` is, modulo 2^32, the number of open files below it; an open that fails for want
-- of memory is not counted.
pub load-Counted :
    {k : InitCalls} (kernel : IsInitCalls k) (ps : Params) (d : Device) {res : Loaded} {s : Driver}
    → gpu_telem_init k ps d ≡ some res
    → res.ret ≡ pos 0
    → Steps Call (loaded_driver res.device) s
    → (bound : ℕ) × Counted bound s.device s.files
load-Counted kernel ps d {res} makes ok did =
    let (fresh, (_, at_most), _, _, _, unopened) = init_device kernel ps d makes ok in
    let none_open : Counted 0 res.device (loaded_driver res.device).files = record {
      closed = λ j le. refl;
      counts = omega (arith, unopened);
    } in
    Steps-Counted (size_pos fresh.valid) at_most did (loaded-IsHealthy kernel ps d makes ok)
      none_open
