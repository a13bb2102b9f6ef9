-- ===== src/Driver/Refines.antt =====
-- The calls of the handlers, as runs of the system of System.antt: every file shows a reader that is
-- in no call.
use lkm_char_dev.Base.{◌≡◌, ◌∙◌, refl, sym, ap, subst, arith, inl, inr, some, [], ◌∷◌, ◌++◌, length}
use lkm_char_dev.Base.Steps.{Steps, stop, step}
use lkm_char_dev.Uapi.Layout.{encode_all}
use lkm_char_dev.Ring.{ring_push}
use lkm_char_dev.Ring.Invariant.{size_pos}
use lkm_char_dev.Device.{File, gpu_telem_open, gpu_telem_release}
use lkm_char_dev.Collector.{collect_sample}
use lkm_char_dev.System
use lkm_char_dev.System.{
  System, Reader, ReaderPc, idle, closed, testing, ready, set_reader, woken, woken_pc, Step, push,
  wake, open_file, close_file, call_read, find_data, consume,
}
use lkm_char_dev.System.Invariant.{Inv}
use lkm_char_dev.Driver.{
  Driver, Call, collects, wakes, opens, fails_to_open, releases, reads, polls, controls,
  sets_nonblock,
}
use lkm_char_dev.Driver.Reads.{read-cases}
use lkm_char_dev.Driver.Shows.{
  Shows, as_open, as_closed, Sim, open-idle, closed-closed, woken-Shows, flagged-Shows,
  ioctl-keeps_ring,
}
use lkm_char_dev.Driver.Changes.{same_reader, other_reader, new_reader}
use lkm_char_dev.Driver.Serves.{reads_none, reads_some}

-- One call is a run of the system of System.antt, of no steps or of several, from a state that the
-- driver shows to one that it shows then.
pub call_refines :
    {s t : Driver} {u : System}
    → Call s t
    → Sim s u
    → Inv u
    → (u' : System) × Steps Step u u' × Sim t u'
unfolding gpu_telem_open gpu_telem_release encode_all
call_refines {s} {u = u} (collects k now old at time memory pushes) sim inv = (
  _,
  step
      (push _ (sim.collector ∙ at)
        (ap (λ r. ring_push r (collect_sample k now s.device old)) sim.ring ∙ pushes))
      stop,
  record {
    ring = refl;
    collector = refl;
    log = ap (λ h. h ++ collect_sample k now s.device old ∷ []) sim.log;
    files = sim.files;
  },
)
call_refines (wakes at) sim inv = (
  _,
  step (wake (sim.collector ∙ at)) stop,
  record {
    ring = sim.ring;
    collector = refl;
    log = sim.log;
    files = λ i. woken-Shows (sim.files i);
  },
)
call_refines {s} {u = u} (opens i unused e) sim inv =
    let x = System.opened u in
    let f : File = record (s.files i) { private_data = some s.device.ring.head_seq } in
    let head : u.ring.head_seq ≡ length s.log = inv.represents.head ∙ ap length sim.log in
    let one : Shows f (length s.log) [] 0 x =
      as_open refl (ap (λ r. some r.head_seq) (sym sim.ring)) head refl (omega arith) in
    (
      _,
      step (open_file i (closed-closed unused (sim.files i))) stop,
      new_reader sim i (ap (λ y. y.1.ring) e) x
          (subst (λ g. Shows g (length s.log) [] 0 x) (ap (λ y. y.2) e) one),
    )
call_refines {s} {u = u} (fails_to_open i unused e) sim inv = (
  _,
  stop,
  same_reader sim i (ap (λ y. y.1.ring) e) (
      subst (λ g. Shows g (s.start i) (s.sent i) (s.faults i) (u.readers i)) (ap (λ y. y.2) e)
        (sim.files i)),
)
call_refines {s} {u = u} (releases i opened e) sim inv =
    let (pc, _, _, _, _) = open-idle opened.1 (sim.files i) in
    let x : Reader = record (u.readers i) { pc = closed } in
    (
      _,
      step (close_file i pc) stop,
      other_reader sim i (ap (λ y. y.1.ring) e) x (
          subst (λ g. Shows g (s.start i) (s.sent i) (s.faults i) x) (ap (λ y. y.2) e)
            (as_closed refl refl)),
    )
call_refines {s} {u = u} (reads i k count {next} {res} opened waits e) sim inv =
    let valid = inv.represents.valid in
    let same_size : u.ring.size ≡ s.device.ring.size = ap (λ r. r.size) sim.ring in
    elim (read-cases k s.device.ring (s.files i) next count (omega (arith, size_pos valid))
      (omega (arith, valid.size_small)) opened waits e) [
        | inl kept ↦ reads_none s u i sim res kept
        | inr took ↦ reads_some s u i sim res opened took
      ]
call_refines (polls i e) sim inv = (_, stop, sim)
call_refines {s} {u = u} (controls i cmd k opened) sim inv = (
  u,
  stop,
  record {
    ring = sim.ring ∙ sym (ioctl-keeps_ring k s.device cmd);
    collector = sim.collector;
    log = sim.log;
    files = sim.files;
  },
)
call_refines (sets_nonblock i on) sim inv =
    (_, stop, same_reader sim i refl (flagged-Shows on (sim.files i)))
