-- ===== src/TelemReader.antt =====
-- user/gpu_telem_reader.c: the throttle column of `print_sample`, and the loop of `main` over what
-- `poll` and `read` answer. Printing is a list of the numbered samples that are printed.
pub mod Throttle
pub mod Loop
pub mod EndToEnd
pub mod Session
pub mod Main
mod Tests
use lkm_char_dev.Base.{
  ℕ, zero, suc, ◌+◌, ◌-◌, ◌*◌, ◌/◌, ◌^◌, min, bit_and, Bool, true, false, ◌||◌, ◌&&◌,
}
use lkm_char_dev.Base.{List, [], ◌∷◌, ◌++◌, length, ltb, leb, ◌==◌, if◌then◌else◌, u64}
use lkm_char_dev.Base.Int.{ℤ, pos, negsuc}
use lkm_char_dev.Uapi.{GpuSample, sample_size}
use lkm_char_dev.Uapi.Layout.{decode_all}
use lkm_char_dev.Sysfs.{bytes}

abbrev pub throttle_power : ℕ
throttle_power = 1

abbrev pub throttle_thermal : ℕ
throttle_thermal = 2

abbrev pub throttle_current : ℕ
throttle_current = 4

abbrev pub throttle_util : ℕ
throttle_util = 8

-- `if (reasons & mask) strcat(throttle, name)`
abbrev pub append_if : ℕ → ℕ → List ℕ → List ℕ → List ℕ
append_if reasons mask name text = if bit_and reasons mask == 0 then text else text ++ name

abbrev pub or_dash : List ℕ → List ℕ
or_dash [] = bytes "-"
or_dash (b ∷ text) = b ∷ text

-- What `print_sample` leaves in its `throttle` buffer.
unfoldable pub throttle_text : ℕ → List ℕ
throttle_text r = or_dash (
    append_if r throttle_util (bytes "UTL ") (
      append_if r throttle_current (bytes "CUR ") (
        append_if r throttle_thermal (bytes "THM ")
          (append_if r throttle_power (bytes "PWR ") []))))

-- What `poll` answers: an error (is it EINTR?), a timeout, or `revents` (is POLLIN in it?).
pub data PollAnswer : Type 0 where
  poll_error : Bool → PollAnswer
  timeout : PollAnswer
  polled : Bool → PollAnswer

-- What `read` answers: an error (is it EINTR?), or the bytes that it put into the buffer.
pub data ReadAnswer : Type 0 where
  read_error : Bool → ReadAnswer
  received : List ℕ → ReadAnswer

-- One turn of the loop: `g_running` when it is tested, and the answers, that of `read` to a size.
pub record Turn : Type 0 where
  pub running : Bool
  pub poll : PollAnswer
  pub read : ℕ → ReadAnswer

abbrev pub batch_size : ℕ
batch_size = 16

-- `max < 0 || (long)total < max`
abbrev pub wants_more : ℤ → ℕ → Bool
wants_more (negsuc n) total = true
wants_more (pos m) total = ltb total m || leb (2 ^ 63) total

-- `want`, with `rem` as a `size_t`.
abbrev pub want : ℤ → ℕ → ℕ
want (negsuc n) total = batch_size
want (pos m) total =
    let rem = u64 (m + 2 ^ 64 - total) in if ltb rem batch_size then rem else batch_size

-- The samples of a batch with their running numbers.
pub numbered : ℕ → List GpuSample → List (ℕ × GpuSample)
numbered i [] = []
numbered i (s ∷ ss) = (i, s) ∷ numbered (i + 1) ss

-- What a turn does: leave the loop, go on as it was, or print the batch of these bytes.
pub data Outcome : Type 0 where
  leave : Outcome
  again : Outcome
  batch : List ℕ → Outcome

pub read_outcome : ReadAnswer → Outcome
read_outcome (read_error eintr) = if eintr then again else leave
read_outcome (received []) = leave
read_outcome (received (b ∷ bs)) = batch (b ∷ bs)

pub poll_outcome : PollAnswer → ReadAnswer → Outcome
unfolding read_outcome
poll_outcome (poll_error eintr) answer = if eintr then again else leave
poll_outcome timeout answer = again
poll_outcome (polled pollin) answer = if pollin then read_outcome answer else again

unfoldable pub turn_outcome : ℤ → ℕ → Turn → Outcome
unfolding poll_outcome
turn_outcome most total t =
    if t.running && wants_more most total
    then poll_outcome t.poll (t.read (want most total * sample_size))
    else leave

-- The loop of `main` from `total` on: what it prints, and `total` when it ends. The list has the turns
-- of a whole run, in order: where it ends, the next test of the loop finds `g_running` cleared by the
-- handler of signals, as it does at a turn whose `running` is false. A run that goes on for ever has
-- no such list.
unfoldable pub main_loop : ℤ → ℕ → List Turn → List (ℕ × GpuSample) × ℕ
unfolding numbered
main_loop most total [] = ([], total)
main_loop most total (t ∷ ts) = elim (turn_outcome most total t) [
  | leave ↦ ([], total)
  | again ↦ main_loop most total ts
  | batch bs ↦
      let count = length bs / sample_size in
      let (rest, total') = main_loop most (u64 (total + count)) ts in
      (numbered total (decode_all count bs) ++ rest, total')
]
