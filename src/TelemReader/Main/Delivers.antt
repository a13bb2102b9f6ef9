-- ===== src/TelemReader/Main/Delivers.antt =====
-- What `main` of the reader prints: how many lines, and the settings of the device.
use lkm_char_dev.Base.{
  ℕ, suc, ◌^◌, ◌≤◌, ◌<◌, ◌≡◌, ◌∙◌, refl, ap, sym, arith, true, List, [], ◌∷◌, ◌++◌, map, length,
  All,
}
use mathlib.Core.List.{map-map}
use lkm_char_dev.Base.Int.{pos, negsuc}
use lkm_char_dev.Uapi.Layout.{le_value}
use lkm_char_dev.Device.{
  Device, IoctlCalls, gpu_telem_ioctl, put_u32, get_ring_size, get_interval_ms,
}
use lkm_char_dev.Printing.{Printf}
use lkm_char_dev.TelemReader.{main_loop}
use lkm_char_dev.TelemReader.Loop.{KeepsSize, main_loop_bounded}
use lkm_char_dev.TelemReader.Main.{
  go, parse_options, MainCalls, device_operand, ioctl_value, Line, print_sample, opened, banner,
  line, closed, delivered, session, main,
}

length-map {ℓ κ} :
    {A : Type ℓ} {B : Type κ} (f : A → B) (xs : List A) → length (map f xs) ≡ length xs
length-map f [] = refl
length-map f (x ∷ xs) = ap suc (length-map f xs)

-- A run of the reader whose options give a count `m` that is a `long`, on a device that can be
-- opened and whose `read` never gives more bytes than it was asked for, exits with 0; it prints
-- the banner, then at most `m` samples, then closes the device, and the number that it says it
-- delivered is the number of lines that it printed.
pub main_delivers :
    (p : Printf) (c : MainCalls) (m : ℕ)
    → parse_options c.strtol (negsuc 0) c.options ≡ go (pos m)
    → m < 2 ^ 63
    → c.open_ok (device_operand c.operands) ≡ true
    → All KeepsSize c.turns
    → (lines : List (Line p)) × (length lines ≤ m)
      × (main p c ≡ (
        0,
        opened (device_operand c.operands)
              ∷ banner (ioctl_value c get_ring_size) (ioctl_value c get_interval_ms)
              ∷ map line lines
            ++ closed ∷ delivered (length lines) ∷ [],
      ))
unfolding main session
main_delivers p c m wanted fits opens keeps =
    let (printed, total) = main_loop (pos m) 0 c.turns in
    let (below, counted) = main_loop_bounded m 0 c.turns fits (omega arith) keeps in
    let lines = map (print_sample p) printed in
    let same : length lines ≡ total = omega (arith, length-map (print_sample p) printed, counted) in
    (
      lines,
      omega (arith, same, below),
      rw (wanted, opens, main)
          (λ i. (
            0,
            opened (device_operand c.operands)
                  ∷ banner (ioctl_value c get_ring_size) (ioctl_value c get_interval_ms)
                  ∷ sym (map-map line (print_sample p) printed) i
                ++ closed ∷ delivered (sym same i) ∷ [],
          )),
    )

-- The banner of the reader tells the device's settings: where the driver's `gpu_telem_ioctl`
-- answers the two ioctls, its copies to the user succeed, and the ring's size and the interval are
-- `u32`, the two numbers printed are that size and that interval.
pub banner_tells_settings :
    (c : MainCalls) (k : IoctlCalls) (d : Device)
    → ((cmd : ℕ) → c.ioctl cmd ≡ (gpu_telem_ioctl k d cmd).sent)
    → ((bs : List ℕ) → k.copy_to_user bs ≡ 0)
    → d.ring.size < 2 ^ 32
    → d.interval_ms < 2 ^ 32
    → (ioctl_value c get_ring_size ≡ d.ring.size) × (ioctl_value c get_interval_ms ≡ d.interval_ms)
unfolding gpu_telem_ioctl put_u32
banner_tells_settings c k d answers copied size interval = (
  ap le_value (answers get_ring_size) ∙ rw copied (omega arith),
  ap le_value (answers get_interval_ms) ∙ rw copied (omega arith),
)
