-- ===== src/Driver/Load.antt =====
-- The driver from its load on: what no call changes.
use lkm_char_dev.Base.{
  ℕ, ◌+◌, ◌*◌, ◌^◌, ◌≤◌, ◌<◌, ◌≡◌, ◌∙◌, refl, sym, ap, subst, arith, inl, inr, some, length, All,
  All-append,
}
use lkm_char_dev.Base.Int.{pos}
use lkm_char_dev.Base.Steps.{Steps, stop, step}
use lkm_char_dev.Uapi.{IsSample}
use lkm_char_dev.Ring.Sizes.{push-size, consume-size}
use lkm_char_dev.Ring.Invariant.{Represents, size_pos}
use lkm_char_dev.Ring.Init.{IsRingSize}
use lkm_char_dev.Device.{Device, min_sample_ms, gpu_telem_open, gpu_telem_release}
use lkm_char_dev.Device.Ioctl.{ioctl_interval-ge}
use lkm_char_dev.Collector.{collect_sample}
use lkm_char_dev.Collector.Samples.{collect_sample-IsSample}
use lkm_char_dev.Lifecycle.{InitCalls, Params, Loaded, gpu_telem_init}
use lkm_char_dev.Lifecycle.Balance.{IsInitCalls}
use lkm_char_dev.Lifecycle.Success.{init_device}
use lkm_char_dev.Driver.{
  Driver, Call, collects, wakes, opens, fails_to_open, releases, reads, polls, controls,
  sets_nonblock, Used, loaded, next, loaded_driver,
}
use lkm_char_dev.Driver.Reads.{read-cases}
use lkm_char_dev.Driver.Shows.{ioctl-keeps_ring}
use lkm_char_dev.Driver.Streams.{ring-Represents}

-- The size is the one that the ring was made with, and the interval no shorter than the least one.
pub record IsHealthy (size : ℕ) (s : Driver) : Type 0 where
  pub sized : s.device.ring.size ≡ size
  pub slow : min_sample_ms ≤ s.device.interval_ms

module _ {size : ℕ} (lo : 1 ≤ size) (hi : size ≤ 4096) where
  pub Call-IsHealthy : {s t : Driver} → Call s t → IsHealthy size s → IsHealthy size t
  unfolding gpu_telem_open gpu_telem_release
  Call-IsHealthy {s} (collects k now old at time memory pushes) ok = record {
    sized = push-size s.device.ring (collect_sample k now s.device old) pushes ∙ ok.sized;
    slow = ok.slow;
  }
  Call-IsHealthy (wakes at) ok = record { sized = ok.sized; slow = ok.slow }
  Call-IsHealthy (opens i unused e) ok =
      let device = ap (λ y. y.1) e in
      record {
        sized = ap (λ d. d.ring.size) (sym device) ∙ ok.sized;
        slow = subst (λ d. min_sample_ms ≤ d.interval_ms) device ok.slow;
      }
  Call-IsHealthy (fails_to_open i unused e) ok =
      let device = ap (λ y. y.1) e in
      record {
        sized = ap (λ d. d.ring.size) (sym device) ∙ ok.sized;
        slow = subst (λ d. min_sample_ms ≤ d.interval_ms) device ok.slow;
      }
  Call-IsHealthy (releases i opened e) ok =
      let device = ap (λ y. y.1) e in
      record {
        sized = ap (λ d. d.ring.size) (sym device) ∙ ok.sized;
        slow = subst (λ d. min_sample_ms ≤ d.interval_ms) device ok.slow;
      }
  Call-IsHealthy {s} (reads i k count {next} {res} opened waits e) ok =
      let keeps : res.ring.size ≡ s.device.ring.size =
        elim (read-cases k s.device.ring (s.files i) next count (omega (arith, ok.sized))
          (omega (arith, ok.sized)) opened waits e) [
            | inl kept ↦ ap (λ r. r.size) kept.ring
            | inr took ↦
                ap (λ r. r.size) took.ring ∙ consume-size s.device.ring next took.most took.consumes
          ] in
      record { sized = keeps ∙ ok.sized; slow = ok.slow }
  Call-IsHealthy (polls i e) ok = ok
  Call-IsHealthy {s} (controls i cmd k opened) ok = record {
    sized = ap (λ r. r.size) (ioctl-keeps_ring k s.device cmd) ∙ ok.sized;
    slow = ioctl_interval-ge k s.device cmd ok.slow;
  }
  Call-IsHealthy (sets_nonblock i on) ok = record { sized = ok.sized; slow = ok.slow }

  Steps-IsHealthy : {s t : Driver} → Steps Call s t → IsHealthy size s → IsHealthy size t
  Steps-IsHealthy stop ok = ok
  Steps-IsHealthy (step c steps) ok = Steps-IsHealthy steps (Call-IsHealthy c ok)

Call-IsSample : {s t : Driver} → Call s t → All IsSample s.log → All IsSample t.log
Call-IsSample {s} (collects k now old at time memory pushes) ok =
    All-append IsSample s.log _ ok
      (collect_sample-IsSample k now s.device old time memory.pad_length memory.pad_bytes, tt)
Call-IsSample (wakes at) ok = ok
Call-IsSample (opens i unused e) ok = ok
Call-IsSample (fails_to_open i unused e) ok = ok
Call-IsSample (releases i opened e) ok = ok
Call-IsSample (reads i k count opened waits e) ok = ok
Call-IsSample (polls i e) ok = ok
Call-IsSample (controls i cmd k opened) ok = ok
Call-IsSample (sets_nonblock i on) ok = ok

-- Every sample that was pushed is within its C types.
pub Used-IsSample : {s : Driver} → Used s → All IsSample s.log
Used-IsSample (loaded p) = tt
Used-IsSample (next used c) = Call-IsSample c (Used-IsSample used)

Steps-Used : {s t : Driver} → Steps Call s t → Used s → Used t
Steps-Used stop used = used
Steps-Used (step c steps) used = Steps-Used steps (next used c)

pub loaded-IsHealthy :
    {k : InitCalls} (kernel : IsInitCalls k) (ps : Params) (d : Device) {res : Loaded}
    → gpu_telem_init k ps d ≡ some res
    → res.ret ≡ pos 0
    → IsHealthy res.device.ring.size (loaded_driver res.device)
loaded-IsHealthy kernel ps d makes ok =
    let (_, _, _, _, interval, _) = init_device kernel ps d makes ok in
    record { sized = refl; slow = omega (arith, interval) }

-- From the load on, with a kernel whose calls fail as documented: where `gpu_telem_init` returned
-- 0, then after any calls of the handlers beside the collector, with fewer than 2^64 - 1 samples
-- pushed, the driver is in use, its ring has the size that it was made with and represents the
-- log, that size is a power of two of at most 4096, not below `ring_size` and less than twice it,
-- the interval is at least 10 ms, and every sample that was pushed has its fields within their C
-- types.
pub load-IsHealthy :
    {k : InitCalls} (kernel : IsInitCalls k) (ps : Params) (d : Device) {res : Loaded} {s : Driver}
    → gpu_telem_init k ps d ≡ some res
    → res.ret ≡ pos 0
    → Steps Call (loaded_driver res.device) s
    → length s.log + 1 < 2 ^ 64
    → Used s
      × IsHealthy res.device.ring.size s
      × Represents s.device.ring s.log
      × All IsSample s.log
      × IsRingSize s.device.ring.size
      × (ps.ring_size ≤ s.device.ring.size)
      × (s.device.ring.size < 2 * ps.ring_size)
load-IsHealthy kernel ps d {res} {s} makes ok did fits =
    let (fresh, (power, at_most), above, below, interval, _) = init_device kernel ps d makes ok in
    let used = Steps-Used did (loaded fresh) in
    let healthy =
      Steps-IsHealthy (size_pos fresh.valid) at_most did (loaded-IsHealthy kernel ps d makes ok) in
    (
      used,
      healthy,
      ring-Represents used fits,
      Used-IsSample used,
      subst IsRingSize (sym healthy.sized) (power, at_most),
      omega (arith, above, healthy.sized),
      omega (arith, below, healthy.sized),
    )
