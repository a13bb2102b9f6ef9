-- ===== src/Sysfs.antt =====
-- The sysfs helpers of kernel/gpu_telem_core.c: `sysfs_read_s64`, and `probe_hwmon_paths` with the
-- formats of its paths. The kernel's file functions and `kstrtos64` are arguments.
pub mod Trim
pub mod Probe
pub mod Read
mod Tests
use Prim.Native.Char.{code}
use Prim.Native.String.{String}
use lkm_char_dev.Base.{ℕ, zero, suc, ◌+◌, ◌-◌, Bool, true, false, ◌||◌, Option, none, some}
use lkm_char_dev.Base.{List, [], ◌∷◌, ◌++◌, length, take, get_elem?, ◌==◌, if◌then◌else◌}
use lkm_char_dev.Base.Int.{ℤ, pos, neg, is_zero}
use lkm_char_dev.Device.{Device}

-- The bytes of an ASCII text.
abbrev pub bytes : String → List ℕ
bytes String.[] = []
bytes (String.◌∷◌ c s) = code c ∷ bytes s

-- A C string ends at its first NUL.
abbrev pub c_string : List ℕ → List ℕ
c_string [] = []
c_string (b ∷ bs) = let rest = c_string bs in if b == 0 then [] else b ∷ rest

-- What `kernel_read` returns: a negative code, or as many bytes as it says it read.
pub data Fetched : Type 0 where
  failed : ℤ → Fetched
  got : List ℕ → Fetched

-- The kernel functions that read a file: the error of `filp_open` (`none` where it opens the
-- file), what `kernel_read` returns for a path and a limit, and the code and value of `kstrtos64`.
pub record FileCalls : Type 0 where
  pub filp_open : List ℕ → Option ℤ
  pub kernel_read : List ℕ → ℕ → Fetched
  pub kstrtos64 : List ℕ → ℤ × ℤ

abbrev pub eio : ℤ
eio = neg 5

pub is_blank : Option ℕ → Bool
is_blank none = false
is_blank (some b) = b == b'\n' || b == b' '

-- The loop that cuts newlines and blanks off the end: the `n` where it stops.
unfoldable pub trim_length : List ℕ → ℕ → ℕ
unfolding is_blank
trim_length buf zero = 0
trim_length buf (suc n) =
    let rest = trim_length buf n in if is_blank (get_elem? buf n) then rest else suc n

-- The string that is left in the buffer.
unfoldable pub trimmed : List ℕ → List ℕ
unfolding trim_length
trimmed buf = c_string (take (trim_length buf (length buf)) buf)

-- `sysfs_read_s64` once `kernel_read` has returned; the value is written where the code is 0.
unfoldable pub parse_s64 : FileCalls → Fetched → ℤ × ℤ
unfolding trimmed
parse_s64 k (failed e) = (e, pos 0)
parse_s64 k (got []) = (eio, pos 0)
parse_s64 k (got (b ∷ bs)) = k.kstrtos64 (trimmed (b ∷ bs))

-- The code, and the value behind `out`, which means something only where the code is 0.
unfoldable pub sysfs_read_s64 : FileCalls → List ℕ → ℤ × ℤ
unfolding parse_s64
sysfs_read_s64 k path = elim (k.filp_open path) [
  | some e ↦ (e, pos 0)
  | none ↦ parse_s64 k (k.kernel_read path 31)
]

-- `snprintf` into a `char[256]`.
abbrev pub snprintf : List ℕ → List ℕ
snprintf text = take 255 text

-- `strncmp(name, word, strlen(word)) == 0`
abbrev pub starts_with : List ℕ → List ℕ → Bool
starts_with name [] = true
starts_with [] (w ∷ word) = false
starts_with (b ∷ name) (w ∷ word) =
    let rest = starts_with name word in if b == w then rest else false

abbrev pub hwmon_base : ℕ → List ℕ
hwmon_base i = bytes "/sys/class/hwmon/hwmon" ++ (b'0' + i) ∷ []

unfoldable pub is_gpu_driver : List ℕ → Bool
is_gpu_driver name =
    starts_with name (bytes "nvidia")
    || starts_with name (bytes "nouveau")
    || starts_with name (bytes "amdgpu")
    || starts_with name (bytes "radeon")

-- The four paths below a directory.
unfoldable pub set_paths : List ℕ → Device → Device
set_paths base d = record d {
  temp_path = snprintf (base ++ bytes "/temp1_input");
  fan_path = snprintf (base ++ bytes "/fan1_input");
  power_path = snprintf (base ++ bytes "/power1_average");
  freq_path = snprintf (base ++ bytes "/freq1_input");
}

-- The name in a hwmon directory's `name` file, where it can be read and is not empty.
unfoldable pub driver_name : Fetched → Option (List ℕ)
unfolding trimmed
driver_name (failed e) = none
driver_name (got []) = none
driver_name (got (b ∷ bs)) = some (trimmed (b ∷ bs))

unfoldable pub hwmon_name : FileCalls → ℕ → Option (List ℕ)
unfolding driver_name
hwmon_name k i =
    let path = snprintf (hwmon_base i ++ bytes "/name") in
    elim (k.filp_open path) [ some e ↦ none | none ↦ driver_name (k.kernel_read path 63) ]

-- Whether the body of the loop takes `hwmon<i>` and returns.
unfoldable pub is_gpu_hwmon : FileCalls → ℕ → Bool
unfolding hwmon_name is_gpu_driver
is_gpu_hwmon k i = elim (hwmon_name k i) [ none ↦ false | some name ↦ is_gpu_driver name ]

-- The loop from `i` on, with the rounds left.
unfoldable pub probe_from : FileCalls → ℕ → ℕ → Device → Device
unfolding is_gpu_hwmon set_paths
probe_from k zero i d = d
probe_from k (suc n) i d =
    let rest = probe_from k n (i + 1) d in
    if is_gpu_hwmon k i then set_paths (hwmon_base i) d else rest

-- The first argument is the module parameter `hwmon_path`, [] where it is NULL or empty.
unfoldable pub probe_hwmon_paths : List ℕ → FileCalls → Device → Device
unfolding probe_from
probe_hwmon_paths [] k d = probe_from k 10 0 d
probe_hwmon_paths (b ∷ bs) k d = set_paths (b ∷ bs) d
