-- ===== src/Collector/Tests.antt =====
-- Rounds of the collector, and its theorems at concrete ones.
use lkm_char_dev.Base.{ℕ, ◌≡◌, refl, arith, List, [], ◌∷◌, some, true, false, drop}
use lkm_char_dev.Base.Int.{pos, neg}
use lkm_char_dev.Uapi.{GpuSample, zero_sample}
use lkm_char_dev.Uapi.Layout.{encode}
use lkm_char_dev.Examples.{bare_device, quiet_files, empty_ring, empty_ring-Represents}
use lkm_char_dev.Ring.{RingBuf}
use lkm_char_dev.Ring.Invariant.{Represents}
use lkm_char_dev.Device.{Device}
use lkm_char_dev.Sysfs.{bytes, sysfs_read_s64}
use lkm_char_dev.Collector.{Round, attribute, quot, collect_sample, collector_thread}
use lkm_char_dev.Collector.Loop.{collected, collector_appends}

-- A device of which only the temperature is found.
abbrev warm_device : Device
warm_device = record bare_device { temp_path = bytes "t" }

abbrev round : ℕ → Round
round n = record { should_stop = false; files = quiet_files; now = n; interrupted = false }

-- The thread is stopped at the third round.
abbrev rounds : List Round
rounds = round 5 ∷ round 6 ∷ record (round 7) { should_stop = true } ∷ round 8 ∷ []

abbrev warm_sample : ℕ → GpuSample
warm_sample n = record zero_sample {
  timestamp_ns = n;
  temp_millideg = pos 45000;
  gpu_util_pct = 4294967295;
  mem_util_pct = 4294967295;
}

two_collected : collected warm_device zero_sample rounds ≡ warm_sample 5 ∷ warm_sample 6 ∷ []
unfolding collect_sample attribute sysfs_read_s64
two_collected = refl

-- C divides towards zero.
quot_signs : (quot (neg 1999999) 1000000 ≡ neg 1) × (quot (pos 2505000000) 1000000 ≡ pos 2505)
quot_signs = (refl, refl)

abbrev dirty_sample : GpuSample
dirty_sample = record zero_sample { pad = 1 ∷ 2 ∷ 3 ∷ 4 ∷ 5 ∷ 6 ∷ 7 ∷ [] }

-- Nothing writes the padding of the struct.
stays_dirty :
    drop 41 (encode (collect_sample quiet_files 5 warm_device dirty_sample))
    ≡ 1 ∷ 2 ∷ 3 ∷ 4 ∷ 5 ∷ 6 ∷ 7 ∷ []
unfolding collect_sample encode
stays_dirty = refl

collector_appends_example :
    (r' : RingBuf) × (collector_thread warm_device empty_ring zero_sample rounds
      ≡ some (r', collected warm_device zero_sample rounds))
    × Represents r' (collected warm_device zero_sample rounds)
collector_appends_example =
    collector_appends warm_device rounds zero_sample empty_ring-Represents (omega arith)
