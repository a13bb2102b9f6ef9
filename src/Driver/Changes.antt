-- ===== src/Driver/Changes.antt =====
-- A call that changes a single file, and what the driver shows then.
use lkm_char_dev.Base.{ℕ, ◌≡◌, ◌∙◌, [], length, if◌then◌else◌}
use lkm_char_dev.Device.{Device, File}
use lkm_char_dev.System.{System, Reader, set_reader}
use lkm_char_dev.Driver.{Driver, update}
use lkm_char_dev.Driver.Shows.{Shows, Sim, at_each}

module _ {s : Driver} {u : System} (sim : Sim s u) (i : ℕ) {d : Device} {f : File}
    (ring : s.device.ring ≡ d.ring) where
  -- The same reader is shown.
  pub same_reader :
      Shows f (s.start i) (s.sent i) (s.faults i) (u.readers i)
      → Sim (record s { device = d; files = update s.files i f }) u
  same_reader shown = record {
    ring = sim.ring ∙ ring;
    collector = sim.collector;
    log = sim.log;
    files =
        at_each i
          (λ j b.
            Shows (if b then f else s.files j) (s.start j) (s.sent j) (s.faults j) (u.readers j))
          shown sim.files;
  }

  -- Another reader is shown, from the same place on.
  pub other_reader :
      (x : Reader)
      → Shows f (s.start i) (s.sent i) (s.faults i) x
      → Sim (record s { device = d; files = update s.files i f }) (set_reader u i x)
  other_reader x shown = record {
    ring = sim.ring ∙ ring;
    collector = sim.collector;
    log = sim.log;
    files =
        at_each i
          (λ j b.
            Shows (if b then f else s.files j) (s.start j) (s.sent j) (s.faults j)
              (if b then x else u.readers j))
          shown sim.files;
  }

  -- A new reader is shown, from the end of the log on.
  pub new_reader :
      (x : Reader)
      → Shows f (length s.log) [] 0 x
      → Sim
          (record s {
            device = d;
            files = update s.files i f;
            start = update s.start i (length s.log);
            sent = update s.sent i [];
            faults = update s.faults i 0;
          })
          (set_reader u i x)
  new_reader x shown = record {
    ring = sim.ring ∙ ring;
    collector = sim.collector;
    log = sim.log;
    files =
        at_each i
          (λ j b.
            Shows (if b then f else s.files j) (if b then length s.log else s.start j)
              (if b then [] else s.sent j) (if b then 0 else s.faults j)
              (if b then x else u.readers j))
          shown sim.files;
  }
