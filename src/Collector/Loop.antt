-- ===== src/Collector/Loop.antt =====
-- The loop of `collector_thread`, beside the samples that it should collect.
use lkm_char_dev.Base.{◌+◌, ◌^◌, ◌<◌, ◌≡◌, refl, arith, true, false, Bool-cases, inl, inr}
use lkm_char_dev.Base.{List, [], ◌∷◌, ◌++◌, append_assoc, append-nil, some, length, length-append}
use lkm_char_dev.Uapi.{GpuSample}
use lkm_char_dev.Log.{Log}
use lkm_char_dev.Ring.{RingBuf}
use lkm_char_dev.Ring.Invariant.{Represents}
use lkm_char_dev.Ring.Push.{ring_push_refines}
use lkm_char_dev.Device.{Device}
use lkm_char_dev.Collector.{collect_sample, collector_thread, Round}

-- What the collector should do with its rounds, with no ring: the samples that it collects, one a
-- round, up to the first round that stops it, the last one being that in which the sleep is
-- interrupted.
abbrev pub collected : Device → GpuSample → List Round → List GpuSample
collected d s [] = []
collected d s (t ∷ ts) =
    let s' = collect_sample t.files t.now d s in
    elim t.should_stop [
      | true ↦ []
      | false ↦ s' ∷ elim t.interrupted [ true ↦ [] | false ↦ collected d s' ts ]
    ]

-- The collector never faults on a ring that represents a log with room below 2^64 for its rounds:
-- it pushes exactly the samples that it collects, one for each round until it is stopped or its
-- sleep is interrupted, and the ring then represents the log with these behind it.
pub collector_appends :
    (d : Device) (ts : List Round) {r : RingBuf} {h : Log} (s : GpuSample)
    → Represents r h
    → length h + length ts < 2 ^ 64
    → (r' : RingBuf) × (collector_thread d r s ts ≡ some (r', collected d s ts))
      × Represents r' (h ++ collected d s ts)
unfolding collector_thread
collector_appends d [] {r} {h} s p fits = (r, refl, rw append-nil p)
collector_appends d (t ∷ ts) {r} {h} s p fits = elim (Bool-cases t.should_stop) [
  | inl stop ↦ rw stop (r, refl, rw append-nil p)
  | inr go ↦
      let s' = collect_sample t.files t.now d s in
      let (r', pushes, p') = ring_push_refines p s' (omega arith) in
      elim (Bool-cases t.interrupted) [
        | inl last ↦ rw (go, last) (r', rw pushes, p')
        | inr more ↦
            let (r'', runs, p'') =
              collector_appends d ts s' p' (omega (arith, length-append h (s' ∷ []))) in
            rw (go, more) (r'', rw (pushes, runs), rw append_assoc at p'')
      ]
]
