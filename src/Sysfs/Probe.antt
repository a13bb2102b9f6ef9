-- ===== src/Sysfs/Probe.antt =====
-- `probe_hwmon_paths`: which directory it takes, and the paths below it.
use lkm_char_dev.Base.{ℕ, zero, suc, ◌+◌, ◌≤◌, ◌≡◌, refl, arith, Bool, Bool-cases, inl, inr}
use lkm_char_dev.Base.{List, [], ◌∷◌, ◌++◌, length, take, take_all, length-append, if◌then◌else◌}
use lkm_char_dev.Device.{Device}
use lkm_char_dev.Sysfs.{
  FileCalls, bytes, is_gpu_hwmon, set_paths, hwmon_base, probe_from, probe_hwmon_paths,
}

-- The numbers from `i` on, `n` of them.
abbrev pub range : ℕ → ℕ → List ℕ
range zero i = []
range (suc n) i = i ∷ range n (i + 1)

-- Those that pass a test.
abbrev pub select : (ℕ → Bool) → List ℕ → List ℕ
select p [] = []
select p (i ∷ is) = let rest = select p is in if p i then i ∷ rest else rest

-- The device with the paths of the first directory of a list, if there is one.
abbrev pub with_first : Device → List ℕ → Device
with_first d [] = d
with_first d (i ∷ is) = set_paths (hwmon_base i) d

probe_from-select :
    (k : FileCalls) (d : Device) (n i : ℕ)
    → probe_from k n i d ≡ with_first d (select (is_gpu_hwmon k) (range n i))
unfolding probe_from
probe_from-select k d zero i = refl
probe_from-select k d (suc n) i = elim (Bool-cases (is_gpu_hwmon k i)) [
  | inl found ↦ rw found
  | inr other ↦ rw other (probe_from-select k d n (i + 1))
]

-- A given `hwmon_path` of 1 to 240 bytes is taken as it is: each of the four paths is that
-- directory and the attribute's name, in full, and nothing else changes.
pub probe_takes_path :
    (base : List ℕ) (k : FileCalls) (d : Device)
    → 1 ≤ length base
    → length base ≤ 240
    → probe_hwmon_paths base k d ≡ record d {
      temp_path = base ++ bytes "/temp1_input";
      fan_path = base ++ bytes "/fan1_input";
      power_path = base ++ bytes "/power1_average";
      freq_path = base ++ bytes "/freq1_input";
    }
unfolding probe_hwmon_paths set_paths
probe_takes_path [] k d some_bytes short = absurd (omega arith)
probe_takes_path (b ∷ bs) k d some_bytes short = λ i. record d {
  temp_path = whole (bytes "/temp1_input") (omega arith) i;
  fan_path = whole (bytes "/fan1_input") (omega arith) i;
  power_path = whole (bytes "/power1_average") (omega arith) i;
  freq_path = whole (bytes "/freq1_input") (omega arith) i;
}
  where
    whole : (name : List ℕ) → length name ≤ 15 → take 255 ((b ∷ bs) ++ name) ≡ (b ∷ bs) ++ name
    whole name fits =
        take_all ((b ∷ bs) ++ name) 255 (omega (arith, length-append {0} (b ∷ bs) name))

select_keeps :
    (d : Device) (is : List ℕ)
    → ((with_first d is).ring ≡ d.ring)
      × ((with_first d is).interval_ms ≡ d.interval_ms)
      × ((with_first d is).open_count ≡ d.open_count)
unfolding set_paths
select_keeps d [] = (refl, refl, refl)
select_keeps d (i ∷ is) = (refl, refl, refl)

-- Probing changes paths alone.
pub probe_keeps :
    (base : List ℕ) (k : FileCalls) (d : Device)
    → ((probe_hwmon_paths base k d).ring ≡ d.ring)
      × ((probe_hwmon_paths base k d).interval_ms ≡ d.interval_ms)
      × ((probe_hwmon_paths base k d).open_count ≡ d.open_count)
unfolding probe_hwmon_paths set_paths
probe_keeps [] k d =
    rw (probe_from-select k d 10 0) (select_keeps d (select (is_gpu_hwmon k) (range 10 0)))
probe_keeps (b ∷ bs) k d = (refl, refl, refl)
