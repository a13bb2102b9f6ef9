-- ===== src/TelemReader/Main.antt =====
-- `main` of user/gpu_telem_reader.c around its loop: the options, the two ioctls of the banner, and
-- the line that `print_sample` prints. What `getopt`, `strtol`, `open` and `ioctl` answer is given.
pub mod Delivers
pub mod Output
pub mod Short
pub mod Tells
pub mod Shows
pub mod Stream
mod Tests
use lkm_char_dev.Base.{ℕ, Bool, none, some, List, [], ◌∷◌, ◌++◌, map, take, if◌then◌else◌}
use lkm_char_dev.Base.Int.{ℤ, negsuc, is_minus_one}
use lkm_char_dev.Uapi.{GpuSample}
use lkm_char_dev.Uapi.Layout.{le_value}
use lkm_char_dev.Device.{get_ring_size, get_interval_ms}
use lkm_char_dev.Sysfs.{bytes}
use lkm_char_dev.Printing.{Text, Printf}
use lkm_char_dev.TelemReader.{Turn, throttle_text, main_loop}

-- What `getopt` returns, before the -1: `-n` with its argument, `-h`, or anything else.
pub data Opt : Type 0 where
  count : Text → Opt
  help : Opt
  unknown : Opt

pub data Parsed : Type 0 where
  exit : ℕ → Parsed
  go : ℤ → Parsed

-- The option loop, with the value of `max` so far.
unfoldable pub parse_options : (Text → ℤ) → ℤ → List Opt → Parsed
parse_options strtol most [] = go most
parse_options strtol most (count arg ∷ opts) = parse_options strtol (strtol arg) opts
parse_options strtol most (help ∷ opts) = exit 0
parse_options strtol most (unknown ∷ opts) = exit 1

-- `ioctl` gives the bytes that the kernel writes over a `uint32_t` that is 0.
pub record MainCalls : Type 0 where
  pub options : List Opt
  pub operands : List Text
  pub strtol : Text → ℤ
  pub open_ok : Text → Bool
  pub ioctl : ℕ → List ℕ
  pub turns : List Turn

abbrev pub device_operand : List Text → Text
device_operand [] = bytes "/dev/gpu_telem"
device_operand (dev ∷ rest) = dev

-- The number that an ioctl leaves behind its pointer.
abbrev pub ioctl_value : MainCalls → ℕ → ℕ
ioctl_value c cmd = le_value (c.ioctl cmd)

module _ (p : Printf) where
  pub record Line : Type 0 where
    pub index : ℕ
    pub timestamp_ns : ℕ
    pub temp : Text
    pub fan_rpm : ℕ
    pub power : p.Double
    pub core_freq_mhz : ℕ
    pub throttle : Text

  unfoldable pub print_sample : ℕ × GpuSample → Line
  print_sample (idx, s) = record {
    index = idx;
    timestamp_ns = s.timestamp_ns;
    temp =
        if is_minus_one s.temp_millideg
        then bytes "n/a"
        else take 15 (p.fixed 7 2 (p.div (p.of_int s.temp_millideg) (p.of_nat 1000)));
    fan_rpm = s.fan_rpm;
    power = p.div (p.of_nat s.power_uw) (p.of_nat 1000000);
    core_freq_mhz = s.core_freq_mhz;
    throttle = throttle_text s.throttle_reasons;
  }

  -- What the program does, in order.
  pub data Event : Type 0 where
    opened : Text → Event
    banner : (ring_sz interval : ℕ) → Event
    line : Line → Event
    closed : Event
    delivered : ℕ → Event

  -- From the opened device on.
  unfoldable pub session : MainCalls → ℤ → List Event
  session c most =
      let (printed, total) = main_loop most 0 c.turns in
      opened (device_operand c.operands)
        ∷ banner (ioctl_value c get_ring_size) (ioctl_value c get_interval_ms)
        ∷ map (λ x. line (print_sample x)) printed
      ++ closed ∷ delivered total ∷ []

  -- The exit status, and the events.
  unfoldable pub main : MainCalls → ℕ × List Event
  main c = elim (parse_options c.strtol (negsuc 0) c.options) [
    | exit status ↦ (status, [])
    | go most ↦ if c.open_ok (device_operand c.operands) then (0, session c most) else (1, [])
  ]
