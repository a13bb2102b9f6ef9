-- ===== src/Consumer/Main.antt =====
-- `main` of user/consumer.py: the one-shot `--set-interval`, and the three kinds of output, over what
-- `os.open`, `fcntl.ioctl`, `poll` and `readv` answer. The lines of fixed text, the elapsed time and
-- the rate are left out.
use lkm_char_dev.Base.{
  ℕ, Bool, Option, none, some, List, [], ◌∷◌, ◌++◌, map, length, replicate, if◌then◌else◌, ◌>>=◌,
}
use lkm_char_dev.Base.Int.{ℤ, is_minus_one, is_zero}
use lkm_char_dev.Uapi.Layout.{le_value}
use lkm_char_dev.Sysfs.{bytes}
use lkm_char_dev.Printing.{Text, Printf}
use lkm_char_dev.Consumer.{
  UnpackedSample, or_none, unless_sentinel, throttle_names, join, pack_u32, Answer, End, returned,
  interrupted, raised, waiting, samples, fresh_buffer, numbered_rows, ioctl_get_ring_size,
  ioctl_get_interval_ms, ioctl_set_interval_ms,
}

-- The arguments, as `argparse` hands them over.
pub record Args : Type 0 where
  pub device : Text
  pub count : ℤ
  pub json : Bool
  pub csv : Bool
  pub set_interval : ℤ

-- `ioctl` gives the bytes that it leaves in the buffer, or an OSError.
pub record Calls : Type 0 where
  pub open_ok : Text → Bool
  pub ioctl : ℕ → List ℕ → Option (List ℕ)
  pub answers : List Answer

-- `bytearray(4)`
abbrev pub four_zeros : List ℕ
four_zeros = replicate 4 0

abbrev pub ring_size : Calls → Option ℕ
ring_size c = c.ioctl ioctl_get_ring_size four_zeros >>= λ buf. some (le_value buf)

abbrev pub interval_ms : Calls → Option ℕ
interval_ms c = c.ioctl ioctl_get_interval_ms four_zeros >>= λ buf. some (le_value buf)

-- `none` where it raises.
abbrev pub set_interval_ms : Calls → ℤ → Option (Unit {0})
set_interval_ms c ms = pack_u32 ms >>= λ buf. c.ioctl ioctl_set_interval_ms buf >>= λ left. some tt

-- `val`, or "n/a".
abbrev pub fmt_opt {ℓ} : {A : Type ℓ} → (A → Text) → Option A → Text
fmt_opt print none = bytes "n/a"
fmt_opt print (some a) = print a

abbrev pub or_dash : Text → Text
or_dash [] = bytes "-"
or_dash (b ∷ text) = b ∷ text

module _ (p : Printf) where
  unfoldable pub temp_c : UnpackedSample → Option p.Double
  temp_c s =
      if is_minus_one s.temp_millideg
      then none
      else some (p.div (p.of_int s.temp_millideg) (p.of_nat 1000))

  unfoldable pub power_w : UnpackedSample → Option p.Double
  power_w s = or_none s.power_uw >>= λ w. some (p.div (p.of_nat w) (p.of_nat 1000000))

  pub record Dict : Type 0 where
    pub timestamp_ns : ℕ
    pub temp_c : Option p.Double
    pub fan_rpm : Option ℕ
    pub power_w : Option p.Double
    pub core_freq_mhz : Option ℕ
    pub mem_freq_mhz : Option ℕ
    pub gpu_util_pct : Option ℕ
    pub mem_util_pct : Option ℕ
    pub throttle : List Text

  unfoldable pub to_dict : UnpackedSample → Dict
  to_dict s = record {
    timestamp_ns = s.timestamp_ns;
    temp_c = temp_c s;
    fan_rpm = or_none s.fan_rpm;
    power_w = power_w s;
    core_freq_mhz = or_none s.core_freq_mhz;
    mem_freq_mhz = or_none s.mem_freq_mhz;
    gpu_util_pct = unless_sentinel s.gpu_util_pct;
    mem_util_pct = unless_sentinel s.mem_util_pct;
    throttle = throttle_names s;
  }

  -- The nine cells of a line of the table, before they are padded.
  unfoldable pub print_table_row : ℕ × UnpackedSample → List Text
  print_table_row (idx, s) =
      p.decimal idx
      ∷ fmt_opt (p.fixed 0 1) (temp_c s)
      ∷ fmt_opt p.decimal (or_none s.fan_rpm)
      ∷ fmt_opt (p.fixed 0 3) (power_w s)
      ∷ fmt_opt p.decimal (or_none s.core_freq_mhz)
      ∷ fmt_opt p.decimal (or_none s.mem_freq_mhz)
      ∷ fmt_opt p.decimal (unless_sentinel s.gpu_util_pct)
      ∷ fmt_opt p.decimal (unless_sentinel s.mem_util_pct)
      ∷ or_dash (join (bytes ",") (throttle_names s))
      ∷ []

  -- What the script does, in order.
  pub data Event : Type 0 where
    interval_set : ℤ → Event
    csv_header : Event
    csv_row : ℕ → Dict → Text → Event
    json_line : ℕ → Dict → Event
    banner : (ring_sz interval : ℕ) → Event
    table_row : List Text → Event
    summary : ℕ → Event
    closed : Event
    uncaught : Event

  -- The line that an output prints for a sample.
  abbrev pub csv_line : ℕ × UnpackedSample → Event
  csv_line (idx, s) = csv_row idx (to_dict s) (join (bytes "|") (throttle_names s))

  abbrev pub json_print : ℕ × UnpackedSample → Event
  json_print (idx, s) = json_line idx (to_dict s)

  abbrev pub table_line : ℕ × UnpackedSample → Event
  table_line row = table_row (print_table_row row)

  -- Behind the loop: a KeyboardInterrupt is caught, other exceptions are not.
  abbrev pub finish : End → List Event → List Event
  finish returned after = after
  finish interrupted after = after
  finish raised after = uncaught ∷ []
  finish waiting after = []

  -- An output: what comes before its loop, its lines, and what comes behind it, given how many
  -- lines there were.
  abbrev pub output :
      Args → Calls → List Event → (ℕ × UnpackedSample → Event) → (ℕ → List Event) → List Event
  output a c before print after =
      let (rows, end) = numbered_rows a.count 0 (samples fresh_buffer c.answers) in
      before ++ map print rows ++ finish end (after (length rows) ++ closed ∷ [])

  -- From the opened device on, where no interval is to be set.
  unfoldable pub stream_samples : Args → Calls → Option (List Event)
  stream_samples a c = ring_size c >>= λ ring_sz. interval_ms c >>= λ interval. some (
      if a.csv
      then output a c (csv_header ∷ []) csv_line (λ n. [])
      else if a.json
      then output a c [] json_print (λ n. [])
      else output a c (banner ring_sz interval ∷ []) table_line (λ n. summary n ∷ []))

  unfoldable pub set_and_exit : Args → Calls → Option (List Event)
  set_and_exit a c =
      set_interval_ms c a.set_interval >>= λ done. some (interval_set a.set_interval ∷ closed ∷ [])

  -- `os.open` that fails is a SystemExit.
  unfoldable pub main : Args → Calls → List Event
  main a c =
      if c.open_ok a.device
      then elim (if is_zero a.set_interval then stream_samples a c else set_and_exit a c) [
        | none ↦ uncaught ∷ []
        | some events ↦ events
      ]
      else []
