-- ===== src/Lifecycle/Success.antt =====
-- `gpu_telem_init`: its return, and the device that it leaves where it succeeds.
use lkm_char_dev.Base.{
  ℕ, ◌-◌, ◌*◌, ◌^◌, ◌≤◌, ◌<◌, ◌≡◌, ◌∙◌, refl, ap, sym, subst, arith, inl, inr, max, bit_and,
}
use lkm_char_dev.Base.{some, List, [], Bool-cases, Option-cases, ltb, ◌==◌, ◌||◌, ==_iff, some_inj}
use lkm_char_dev.Base.Int.{pos, is_zero}
use lkm_char_dev.Base.Bits.{IsPow2, IsPow2-of_bit_and}
use native.Mathlib.Nat.{pow-le-pow_right}
use native.Mathlib.Decide.{dec_lt}
use lkm_char_dev.Ring.{RingBuf, max_ring_size, einval, enomem}
use lkm_char_dev.Ring.Init.{IsRingSize, ring_init_refines, ring_init-enomem}
use lkm_char_dev.Ring.Invariant.{Represents}
use lkm_char_dev.Device.{Device, min_sample_ms}
use lkm_char_dev.Sysfs.{probe_hwmon_paths}
use lkm_char_dev.Lifecycle.{
  InitCalls, Params, Loaded, alloc_region, rounded, init_ring, gpu_telem_init, Effect,
}
use lkm_char_dev.Lifecycle.Pow2.{next_pow2-IsNextPow2}
use lkm_char_dev.Lifecycle.Balance.{init-cases, IsInitCalls}
use lkm_char_dev.Uapi.{sample_size}
use lkm_char_dev.Sysfs.Probe.{probe_keeps}

-- A power of two below 2^13 is at most 2^12.
pow2-le_4096 : (p : ℕ) → IsPow2 p → p < 8192 → p ≤ max_ring_size
pow2-le_4096 p (k, e) lt = elim (dec_lt k 13) [
  | yes small ↦ rw e (pow-le-pow_right (omega arith) {i = k} {j = 12} (omega arith))
  | no big ↦
      let most : 2 ^ 13 ≤ 2 ^ k = pow-le-pow_right (omega arith) {i = 13} {j = k} (omega arith) in
      absurd (omega arith)
]

-- The size that a `ring_size` from 2 to 4096 is rounded to: the least power of two that holds it.
abbrev pub IsRounded : ℕ → ℕ → Type 0
IsRounded n sz = IsRingSize sz × (n ≤ sz) × (sz < 2 * n)

rounded-IsRounded :
    (n : ℕ) → 2 ≤ n → n ≤ max_ring_size → (sz : ℕ) × (rounded n ≡ some sz) × IsRounded n sz
unfolding rounded
rounded-IsRounded n lo hi = elim (Bool-cases (bit_and n (n - 1) == 0)) [
  | inl exact ↦ (
    n,
    rw exact,
    ((IsPow2-of_bit_and n (omega arith) ((==_iff _ 0).0 exact), hi), omega arith, omega arith),
  )
  | inr between ↦
      let (p, found, next) = next_pow2-IsNextPow2 n (omega arith) in
      let below : p < 2 * n = omega arith in
      (p, rw between found, ((next.0, pow2-le_4096 p next.0 (omega arith)), next.1, below))
]

-- `gpu_telem_init` always returns: its one loop ends, whatever `ring_size` is.
pub init_returns :
    (k : InitCalls) (ps : Params) (d : Device) → (res : Loaded) × (gpu_telem_init k ps d ≡ some res)
unfolding gpu_telem_init
init_returns k ps d = elim (Bool-cases (ltb ps.ring_size 2 || ltb max_ring_size ps.ring_size)) [
  | inl out ↦ rw out (record { ret = einval; device = d; trace = [] }, refl)
  | inr ok ↦
      let (sz, found, _) = rounded-IsRounded ps.ring_size (ground arith) (ground arith) in
      rw (ok, found) (init_ring k ps d sz, refl)
]

module _ {k : InitCalls} (c : IsInitCalls k) where
  -- The calls after `ring_init` leave the device alone where they all succeed.
  alloc_region-keeps :
      (d : Device) (t : List Effect)
      → (alloc_region k d t).ret ≡ pos 0
      → (alloc_region k d t).device ≡ d
  unfolding alloc_region
  alloc_region-keeps d t ok = elim (Option-cases k.class_create) [
    | inr (e, at) ↦ ground (arith, c.class_code e at)
    | inl made ↦ elim (Option-cases k.kthread_run) [
      | inr (e, at) ↦ ground (arith, c.thread_code e at)
      | inl started ↦ ground arith
    ]
  ]

  -- What a loaded device is like.
  abbrev IsFresh : Params → ℕ → Device → Type 0
  IsFresh ps sz d =
      Represents d.ring []
      × (d.ring.size ≡ sz)
      × (d.interval_ms ≡ max ps.sample_ms min_sample_ms)
      × (d.open_count ≡ 0)

  -- The device that the calls after `ring_init` are made with.
  ready : Params → Device → RingBuf → Device
  ready ps d r =
      probe_hwmon_paths ps.hwmon_path k.files
        (record d { ring = r; interval_ms = max ps.sample_ms min_sample_ms; open_count = 0 })

  ready-IsFresh :
      (ps : Params) (d : Device) {r : RingBuf} (sz : ℕ)
      → Represents r []
      → r.size ≡ sz
      → IsFresh ps sz (ready ps d r)
  unfolding ready
  ready-IsFresh ps d {r} sz p e =
      let (ring, interval, count) = probe_keeps ps.hwmon_path k.files _ in
      (subst (λ t. Represents t []) (sym ring) p, ap (λ t. t.size) ring ∙ e, interval, count)

  init_ring-IsFresh :
      (ps : Params) (d : Device) (sz : ℕ)
      → IsRingSize sz
      → (init_ring k ps d sz).ret ≡ pos 0
      → IsFresh ps sz (init_ring k ps d sz).device
  unfolding init_ring ready
  init_ring-IsFresh ps d sz good ok = elim (Option-cases (k.vzalloc (sz * sample_size))) [
    | inl no_memory ↦
        let refused = ring_init-enomem k.vzalloc d.ring sz good no_memory in
        let same : enomem ≡ pos 0 = rw refused at ok in ground arith
    | inr (m, memory) ↦
        let (zero_code, size, fresh) =
          ring_init_refines k.vzalloc d.ring sz c.vzalloc_zeroes good memory in
        let passed = ap is_zero zero_code in
        rw passed (
          subst (IsFresh ps sz) (sym (alloc_region-keeps _ _ (rw passed at ok)))
            (ready-IsFresh ps d sz fresh size))
  ]

  -- With a kernel whose calls fail as documented, where `gpu_telem_init` returns 0 the device is
  -- ready: its ring represents the empty log, and its size is a power of two of at most 4096, not
  -- below `ring_size` and less than twice it; the interval is `sample_ms`, or 10 ms if that is
  -- less; no file is open.
  pub init_device :
      (ps : Params) (d : Device) {res : Loaded}
      → gpu_telem_init k ps d ≡ some res
      → res.ret ≡ pos 0
      → Represents res.device.ring []
        × IsRingSize res.device.ring.size
        × (ps.ring_size ≤ res.device.ring.size)
        × (res.device.ring.size < 2 * ps.ring_size)
        × (res.device.interval_ms ≡ max ps.sample_ms min_sample_ms)
        × (res.device.open_count ≡ 0)
  init_device ps d {res} e ok = elim (init-cases k ps d e) [
    | inl early ↦ ground (arith, ap (λ t. t.ret) early)
    | inr (sz, found, lo, hi, late) ↦
        let (sz', found', rounds') = rounded-IsRounded ps.ring_size lo hi in
        let rounds : IsRounded ps.ring_size sz =
          subst (IsRounded ps.ring_size) (some_inj (sym found' ∙ found)) rounds' in
        let fresh : IsFresh ps sz res.device =
          subst (λ t. IsFresh ps sz t.device) late
            (init_ring-IsFresh ps d sz rounds.0 (ap (λ t. t.ret) late ∙ ok)) in
        let (good, above, below) = subst (IsRounded ps.ring_size) (sym fresh.1) rounds in
        (fresh.0, good, above, below, fresh.2, fresh.3)
  ]
