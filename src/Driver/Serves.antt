-- ===== src/Driver/Serves.antt =====
-- A `gpu_telem_read`, as steps of System.antt.
use lkm_char_dev.Base.{ℕ, ◌+◌, arith, inl, inr, ◌≡◌, ◌∙◌, refl, sym, ap, ap₂, subst, true}
use lkm_char_dev.Base.{some, ◌++◌, [], append-nil, if◌then◌else◌}
use lkm_char_dev.Base.Steps.{Steps, stop, step, Steps-trans}
use lkm_char_dev.Ring.{ring_consume, ring_data_available}
use lkm_char_dev.Device.{ReadResult}
use lkm_char_dev.Device.Errno.{efault}
use lkm_char_dev.Uapi.Layout.{encode_all}
use lkm_char_dev.System.Turns.{own_reader}
use lkm_char_dev.System.{
  System, Reader, testing, ready, set_reader, Step, call_read, find_data, consume, consume_fault,
}
use lkm_char_dev.System.Invariant.{after_consume, after_fault}
use lkm_char_dev.Driver.{Driver, update, reported, faulted}
use lkm_char_dev.Driver.Reads.{Kept, Took}
use lkm_char_dev.Driver.Shows.{
  encode_all-append, Shows, as_open, Sim, at_each, open-idle, more_faults,
}

module _ (s : Driver) (u : System) (i : ℕ) (sim : Sim s u) (res : ReadResult) where
  -- The driver after a read.
  abbrev pub after_read : Driver
  after_read = record s {
    device = record s.device { ring = res.ring };
    files = update s.files i res.file;
    sent = update s.sent i (s.sent i ++ reported res);
    faults = update s.faults i (s.faults i + faulted res.ret);
  }

  pub reads_none :
      Kept s.device.ring (s.files i) res → (u' : System) × Steps Step u u' × Sim after_read u'
  reads_none kept =
      let no_more : s.sent i ≡ s.sent i ++ reported res =
        sym (append-nil (s.sent i)) ∙ ap (λ b. s.sent i ++ b) (sym kept.sent) in
      let more = s.faults i + faulted res.ret in
      (
        u,
        stop,
        record {
          ring = sim.ring ∙ sym kept.ring;
          collector = sim.collector;
          log = sim.log;
          files =
              at_each i
                (λ j b.
                  Shows (if b then res.file else s.files j) (s.start j)
                    (if b then s.sent i ++ reported res else s.sent j)
                    (if b then more else s.faults j) (u.readers j))
                (subst (λ b. Shows res.file (s.start i) b more (u.readers i)) no_more
                  (subst (λ f. Shows f (s.start i) (s.sent i) more (u.readers i)) (sym kept.file)
                    (more_faults (faulted res.ret) (sim.files i))))
                sim.files;
        },
      )

  module _ {next : ℕ} (opened : (s.files i).private_data ≡ some next)
      (took : Took s.device.ring (s.files i) next res) where
    -- The system once the read has found data.
    abbrev called : Reader
    called = record (u.readers i) { pc = testing took.most }

    abbrev at_call : System
    at_call = set_reader u i called

    abbrev found : Reader
    found = record (at_call.readers i) { pc = ready took.most }

    abbrev at_data : System
    at_data = set_reader at_call i found

    -- It is reached, and its reader is as before but for its place, at the file's position.
    data_found :
        Steps Step u at_data
        × (at_data.readers i ≡ record (u.readers i) { pc = ready took.most })
        × (ring_consume u.ring (at_data.readers i).next took.most ≡ some took.consumed)
    data_found =
        let (pc, here, from, sends, failed) = open-idle opened (sim.files i) in
        let own1 = own_reader u i called in
        let own2 = own_reader at_call i found in
        let next1 : (at_call.readers i).next ≡ next = ap (λ y. y.next) own1 ∙ here in
        let next2 : (at_data.readers i).next ≡ next = ap (λ y. y.next) own2 ∙ next1 in
        let there : ring_data_available u.ring (at_call.readers i).next ≡ true =
          ap₂ ring_data_available sim.ring next1 ∙ took.available in
        (
          step (call_read i took.most pc took.some_room took.small)
              (step (find_data i (ap (λ y. y.pc) own1) there) stop),
          own2 ∙ ap (λ (y : Reader). record y { pc = ready took.most }) own1,
          ap₂ (λ r n. ring_consume r n took.most) sim.ring next2 ∙ took.consumes,
        )

    -- What the driver shows, from what its file does.
    shown_after :
        (x : Reader)
        → Shows res.file (s.start i) (s.sent i ++ reported res) (s.faults i + faulted res.ret) x
        → Sim after_read (set_reader (record at_data { ring = took.consumed.ring }) i x)
    shown_after x one = record {
      ring = sym took.ring;
      collector = sim.collector;
      log = sim.log;
      files =
          at_each i
            (λ j b.
              Shows (if b then res.file else s.files j) (s.start j)
                (if b then s.sent i ++ reported res else s.sent j)
                (if b then s.faults i + faulted res.ret else s.faults j)
                (if b then x else (if b then found else (if b then called else u.readers j))))
            one sim.files;
    }

    -- A read that reports what it took gives it to the reader.
    reads_all : took.out ≡ took.consumed.out → (u' : System) × Steps Step u u' × Sim after_read u'
    reads_all all =
        let (pc, here, from, sends, failed) = open-idle opened (sim.files i) in
        let (steps, own, consumes) = data_found in
        let bytes =
          ap₂ (λ a b. a ++ b) sends (took.sent ∙ ap encode_all all)
          ∙ sym (encode_all-append (u.readers i).given took.consumed.out) in
        let had = ap (λ y. encode_all (y.given ++ took.consumed.out)) (sym own) in
        (
          after_consume at_data i took.consumed,
          Steps-trans steps (step (consume i (ap (λ y. y.pc) own) consumes) stop),
          shown_after _ (
              as_open refl (ap (λ f. f.private_data) took.file) (ap (λ y. y.start) own ∙ from)
                (bytes ∙ had) (omega (arith, failed, ap (λ y. y.faults) own))),
        )

    -- A read whose copy failed reports nothing, and is a failed read of the reader.
    reads_fault :
        took.out ≡ [] → res.ret ≡ efault → (u' : System) × Steps Step u u' × Sim after_read u'
    unfolding encode_all
    reads_fault gone fault =
        let (pc, here, from, sends, failed) = open-idle opened (sim.files i) in
        let (steps, own, consumes) = data_found in
        let bytes =
          ap (λ b. s.sent i ++ b) (took.sent ∙ ap encode_all gone)
          ∙ append-nil (s.sent i)
          ∙ sends in
        let counted : faulted res.ret ≡ 1 = ap faulted fault in
        (
          after_fault at_data i took.consumed,
          Steps-trans steps (step (consume_fault i (ap (λ y. y.pc) own) consumes) stop),
          shown_after _ (
              as_open refl (ap (λ f. f.private_data) took.file) (ap (λ y. y.start) own ∙ from)
                (bytes ∙ ap (λ y. encode_all y.given) (sym own))
                (omega (arith, failed, counted, ap (λ y. y.faults) own))),
        )

    pub reads_some : (u' : System) × Steps Step u u' × Sim after_read u'
    reads_some = elim took.all_or_none [
      | inl all ↦ reads_all all
      | inr (gone, fault) ↦ reads_fault gone fault
    ]
