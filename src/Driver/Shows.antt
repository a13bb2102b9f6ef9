-- ===== src/Driver/Shows.antt =====
-- What a file of the driver shows: a reader of the system of System.antt that is in no call.
use lkm_char_dev.Base.{
  ℕ, ◌+◌, ◌≡◌, ◌∙◌, refl, sym, ap, subst, arith, inl, inr, Bool, true, false, Bool-cases, none,
  some, some_inj, List, [], ◌∷◌, ◌++◌, append_assoc, ◌==◌, ==_iff, ◌≤◌,
}
use lkm_char_dev.Uapi.{GpuSample}
use lkm_char_dev.Uapi.Layout.{encode, encode_all}
use lkm_char_dev.Device.{Device, File, gpu_telem_ioctl, put_u32, set_interval, IoctlCalls}
use lkm_char_dev.System.{System, Reader, idle, closed, woken, woken_pc}
use lkm_char_dev.Driver.{Driver}

-- The bytes of some samples, and of more.
pub encode_all-append :
    (xs ys : List GpuSample) → encode_all (xs ++ ys) ≡ encode_all xs ++ encode_all ys
unfolding encode_all
encode_all-append [] ys = refl
encode_all-append (x ∷ xs) ys =
    rw (encode_all-append xs ys) (sym (append_assoc (encode x) (encode_all xs) (encode_all ys)))

-- A file, with the place it was opened at, what it was sent, and how many of its reads returned
-- -EFAULT, shows a reader of the system: open, the reader is in no call, at the file's position, and
-- was given what the file was sent; no more of its reads failed than did of the file.
pub data Shows (f : File) (from : ℕ) (sent : List ℕ) (faults : ℕ) (x : Reader) : Type 0 where
  as_open :
      x.pc ≡ idle
      → f.private_data ≡ some x.next
      → x.start ≡ from
      → sent ≡ encode_all x.given
      → x.faults ≤ faults
      → Shows f from sent faults x
  as_closed : x.pc ≡ closed → f.private_data ≡ none → Shows f from sent faults x

pub record Sim (s : Driver) (u : System) : Type 0 where
  pub ring : u.ring ≡ s.device.ring
  pub collector : u.collector ≡ s.collector
  pub log : u.log ≡ s.log
  pub files : (i : ℕ) → Shows (s.files i) (s.start i) (s.sent i) (s.faults i) (u.readers i)

-- What holds of the file that changes, and of the others.
pub at_each :
    (i : ℕ) (P : ℕ → Bool → Type 0) → P i true → ((j : ℕ) → P j false) → (j : ℕ) → P j (i == j)
at_each i P one others j = elim (Bool-cases (i == j)) [
  | inl same ↦ subst (P j) (sym same) (subst (λ n. P n true) ((==_iff i j).0 same) one)
  | inr other ↦ subst (P j) (sym other) (others j)
]

-- A file that is open shows a reader that is idle, at its position.
pub open-idle :
    {f : File} {from next : ℕ} {sent : List ℕ} {faults : ℕ} {x : Reader}
    → f.private_data ≡ some next
    → Shows f from sent faults x
    → (x.pc ≡ idle)
      × (x.next ≡ next)
      × (x.start ≡ from)
      × (sent ≡ encode_all x.given)
      × (x.faults ≤ faults)
open-idle e (as_open pc at start sends failed) = (pc, some_inj (sym at ∙ e), start, sends, failed)
open-idle e (as_closed pc gone) = cc

-- A file that is not open shows a reader that is closed.
pub closed-closed :
    {f : File} {from : ℕ} {sent : List ℕ} {faults : ℕ} {x : Reader}
    → f.private_data ≡ none
    → Shows f from sent faults x
    → x.pc ≡ closed
closed-closed e (as_open pc at start sends failed) = cc
closed-closed e (as_closed pc gone) = pc

pub woken-Shows :
    {f : File} {from : ℕ} {sent : List ℕ} {faults : ℕ} {x : Reader}
    → Shows f from sent faults x
    → Shows f from sent faults (woken x)
woken-Shows (as_open pc at start sends failed) = as_open (ap woken_pc pc) at start sends failed
woken-Shows (as_closed pc gone) = as_closed (ap woken_pc pc) gone

pub flagged-Shows :
    {f : File} {from : ℕ} {sent : List ℕ} {faults : ℕ} {x : Reader} (on : Bool)
    → Shows f from sent faults x
    → Shows (record f { nonblock = on }) from sent faults x
flagged-Shows on (as_open pc at start sends failed) = as_open pc at start sends failed
flagged-Shows on (as_closed pc gone) = as_closed pc gone

pub ioctl-keeps_ring :
    (k : IoctlCalls) (d : Device) (cmd : ℕ) → (gpu_telem_ioctl k d cmd).device.ring ≡ d.ring
unfolding gpu_telem_ioctl put_u32 set_interval
ioctl-keeps_ring k d cmd = ground arith

-- More reads may have failed.
pub more_faults :
    {f : File} {from : ℕ} {sent : List ℕ} {faults : ℕ} {x : Reader} (more : ℕ)
    → Shows f from sent faults x
    → Shows f from sent (faults + more) x
more_faults more (as_open pc at start sends failed) =
    as_open pc at start sends (omega (arith, failed))
more_faults more (as_closed pc gone) = as_closed pc gone
