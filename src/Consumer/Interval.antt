-- ===== src/Consumer/Interval.antt =====
-- `--set-interval` of user/consumer.py on the driver's `gpu_telem_ioctl`.
use lkm_char_dev.Base.{
  ℕ, zero, suc, ◌^◌, ◌≤◌, ◌<◌, ◌≡◌, ◌⊎◌, ◌∙◌, refl, arith, inl, inr, true, false, Bool-cases,
  Option, none, some, List, [], ◌∷◌, if◌then◌else◌, ltb, lt→ltb, ltb→lt,
}
use lkm_char_dev.Base.Int.{pos, is_neg}
use lkm_char_dev.Uapi.Layout.{le_bytes, le_value}
use lkm_char_dev.Device.{
  Device, IoctlCalls, IoctlResult, gpu_telem_ioctl, set_interval, set_interval_ms, min_sample_ms,
}
use lkm_char_dev.Printing.{Printf}
use lkm_char_dev.Consumer.{ioctl_set_interval_ms}
use lkm_char_dev.Consumer.Main.{Args, Calls, interval_set, closed, uncaught, set_and_exit, main}

-- `fcntl.ioctl` as documented: a negative result is an OSError, else the buffer is what the driver
-- leaves in it.
abbrev pub answered : IoctlResult → Option (List ℕ)
answered res = if is_neg res.ret then none else some res.sent

not_ltb→le : (a b : ℕ) → ltb a b ≡ false → b ≤ a
not_ltb→le a b h = ground arith

-- `consumer.py --set-interval ms`, for a `u32` that is not 0 and a device that can be opened,
-- where the driver's `gpu_telem_ioctl` answers the script's ioctl and fetches its bytes: from 10
-- ms on, the interval of the device becomes `ms` and nothing else of it changes, and the script
-- says so and closes the file; below, the device does not change and the script ends with an
-- uncaught exception.
pub main_sets_interval :
    (p : Printf) (a : Args) (c : Calls) (kernel : List ℕ → IoctlCalls) (d : Device) (ms : ℕ)
    → a.set_interval ≡ pos ms
    → 1 ≤ ms
    → ms < 2 ^ 32
    → c.open_ok a.device ≡ true
    → ((cmd : ℕ) (buf : List ℕ) → c.ioctl cmd buf ≡ answered (gpu_telem_ioctl (kernel buf) d cmd))
    → ((buf : List ℕ) → (kernel buf).copy_from_user ≡ some (le_value buf))
    → let after = (gpu_telem_ioctl (kernel (le_bytes 4 ms)) d set_interval_ms).device in
      ((min_sample_ms ≤ ms)
        × (after ≡ record d { interval_ms = ms })
        × (main p a c ≡ interval_set (pos ms) ∷ closed ∷ []))
      ⊎ ((ms < min_sample_ms) × (after ≡ d) × (main p a c ≡ uncaught ∷ []))
unfolding main set_and_exit gpu_telem_ioctl set_interval
main_sets_interval p a c kernel d (suc m) asked some_ms small opens answers fetched =
    let value : le_value (le_bytes 4 (suc m)) ≡ suc m = omega arith in
    let fits = lt→ltb (suc m) (2 ^ 32) small in
    let got = fetched (le_bytes 4 (suc m)) in
    let ioctl = answers ioctl_set_interval_ms (le_bytes 4 (suc m)) in
    elim (Bool-cases (ltb (suc m) min_sample_ms)) [
      | inl short ↦
          let refused : c.ioctl ioctl_set_interval_ms (le_bytes 4 (suc m)) ≡ none =
            ioctl ∙ rw (got, value, short) refl in
          inr (
            ltb→lt (suc m) min_sample_ms short,
            rw (got, value, short) refl,
            rw (opens, asked, fits, refused) refl,
          )
      | inr long ↦
          let taken : c.ioctl ioctl_set_interval_ms (le_bytes 4 (suc m)) ≡ some [] =
            ioctl ∙ rw (got, value, long) refl in
          inl (
            not_ltb→le (suc m) min_sample_ms long,
            rw (got, value, long) refl,
            rw (opens, asked, fits, taken) refl,
          )
    ]
main_sets_interval p a c kernel d zero asked some_ms small opens answers fetched =
    absurd (omega arith)
