-- ===== src/Sysfs/Tests.antt =====
-- Runs of the sysfs helpers, and their theorems at concrete files.
use lkm_char_dev.Base.{◌≡◌, refl, arith, [], ◌∷◌, some, none, get_elem?, ◌==◌, if◌then◌else◌}
use lkm_char_dev.Base.Int.{pos, neg}
use lkm_char_dev.Examples.{bare_device, quiet_files}
use lkm_char_dev.Sysfs.{
  FileCalls, got, bytes, is_blank, trimmed, sysfs_read_s64, probe_hwmon_paths, set_paths,
  hwmon_base,
}
use lkm_char_dev.Sysfs.Read.{reads_text}
use lkm_char_dev.Sysfs.Probe.{probe_takes_path}

trimmed_lines : trimmed (bytes "45000 \n\n") ≡ bytes "45000"
unfolding trimmed
trimmed_lines = refl

read_errors :
    (sysfs_read_s64 (record quiet_files { kernel_read = λ p n. got [] }) (bytes "/x")
      ≡ (neg 5, pos 0))
    × (sysfs_read_s64 (record quiet_files { filp_open = λ p. some (neg 2) }) (bytes "/x")
        ≡ (neg 2, pos 0))
    × (sysfs_read_s64 quiet_files (bytes "/x") ≡ (pos 0, pos 45000))
unfolding sysfs_read_s64
read_errors = (refl, refl, refl)

-- hwmon1 is the first of two AMD cards.
abbrev two_cards : FileCalls
two_cards = record {
  filp_open = λ path. none;
  kernel_read = λ path most. elim (get_elem? path 22) [
    | none ↦ got (bytes "acpitz\n")
    | some c ↦ if c == b'0' then got (bytes "acpitz\n") else got (bytes "amdgpu\n")
  ];
  kstrtos64 = λ text. (pos 0, pos 0);
}

probe_first : probe_hwmon_paths [] two_cards bare_device ≡ set_paths (hwmon_base 1) bare_device
unfolding probe_hwmon_paths
probe_first = refl

probe_none : probe_hwmon_paths [] quiet_files bare_device ≡ bare_device
unfolding probe_hwmon_paths
probe_none = refl

reads_text_example : sysfs_read_s64 quiet_files (bytes "/x") ≡ (pos 0, pos 45000)
unfolding is_blank
reads_text_example =
    reads_text (bytes "4500") b'0' (b'\n' ∷ []) quiet_files (bytes "/x") refl refl refl (refl, tt)
      (refl, (refl, (refl, (refl, (refl, tt)))))

path_taken : probe_hwmon_paths (bytes "/gpu") two_cards bare_device ≡ record bare_device {
  temp_path = bytes "/gpu/temp1_input";
  fan_path = bytes "/gpu/fan1_input";
  power_path = bytes "/gpu/power1_average";
  freq_path = bytes "/gpu/freq1_input";
}
path_taken = probe_takes_path (bytes "/gpu") two_cards bare_device (omega arith) (omega arith)
