-- ===== src/Lifecycle/Balance.antt =====
-- `gpu_telem_init` and `gpu_telem_exit`: what is held after each, and in which order it is released.
use lkm_char_dev.Base.{ℕ, ◌≡◌, ◌∙◌, refl, ap, arith, inl, inr, ◌⊎◌}
use lkm_char_dev.Base.{
  Option, none, some, List, [], ◌∷◌, ◌++◌, true, false, ltb, if◌then◌else◌, ◌==◌, ◌||◌, ◌>>=◌,
  Bool-cases, >>=-eq-some, subst, some_inj, Option-cases, ◌≤◌,
}
use lkm_char_dev.Base.Int.{ℤ, pos, is_neg, is_zero}
use lkm_char_dev.Ring.{RingBuf, ring_init, ring_destroy, max_ring_size, einval}
use lkm_char_dev.Ring.Init.{IsVzalloc}
use lkm_char_dev.Device.{Device}
use lkm_char_dev.Lifecycle.{
  Resource, ring_memory, region, cdev, class, device_node, collector, Effect, acquire, release,
  InitCalls, Params, Loaded, alloc_region, rounded, init_ring, gpu_telem_init, gpu_telem_exit,
}

abbrev rank : Resource → ℕ
rank ring_memory = 0
rank region = 1
rank cdev = 2
rank class = 3
rank device_node = 4
rank collector = 5

-- The release of a resource that is not the last one acquired is an error.
abbrev drop_last : List Resource → Resource → Option (List Resource)
drop_last [] a = none
drop_last (b ∷ held) a = if rank b == rank a then some held else none

-- What is held after a trace, the last acquired first.
abbrev pub replay : List Resource → List Effect → Option (List Resource)
replay held [] = some held
replay held (acquire a ∷ es) = replay (a ∷ held) es
replay held (release a ∷ es) = drop_last held a >>= λ held'. replay held' es

-- All that a loaded module holds.
abbrev pub all_held : List Resource
all_held = collector ∷ device_node ∷ class ∷ cdev ∷ region ∷ ring_memory ∷ []

-- The kernel's functions fail with negative codes, as documented.
pub record IsInitCalls (k : InitCalls) : Type 0 where
  pub vzalloc_zeroes : IsVzalloc k.vzalloc
  pub cdev_code : (is_zero k.cdev_add ≡ true) ⊎ (is_neg k.cdev_add ≡ true)
  pub class_code : (e : ℤ) → k.class_create ≡ some e → is_neg e ≡ true
  pub thread_code : (e : ℤ) → k.kthread_run ≡ some e → is_neg e ≡ true

-- Loaded with everything held, or failed with a negative code, nothing held and the ring's storage
-- released.
abbrev pub AllOrNothing : Loaded → Type 0
AllOrNothing res =
    ((res.ret ≡ pos 0) × (replay [] res.trace ≡ some all_held))
    ⊎ ((is_neg res.ret ≡ true) × (replay [] res.trace ≡ some []) × (res.device.ring.samples ≡ none))

-- How `gpu_telem_init` returns: at once, or from `init_ring` at a rounded size.
pub init-cases :
    (k : InitCalls) (ps : Params) (d : Device) {res : Loaded}
    → gpu_telem_init k ps d ≡ some res
    → (record { ret = einval; device = d; trace = [] } ≡ res)
      ⊎ ((sz : ℕ) × (rounded ps.ring_size ≡ some sz)
          × (2 ≤ ps.ring_size)
          × (ps.ring_size ≤ max_ring_size)
          × (init_ring k ps d sz ≡ res))
unfolding gpu_telem_init
init-cases k ps d e = elim (Bool-cases (ltb ps.ring_size 2 || ltb max_ring_size ps.ring_size)) [
  | inl out ↦ inl (some_inj (rw out at e))
  | inr ok ↦
      let (sz, found, done) =
        >>=-eq-some (rounded ps.ring_size) (λ sz. some (init_ring k ps d sz)) (rw ok at e) in
      inr (sz, found, ground arith, ground arith, some_inj done)
]

replay-append :
    (held : List Resource) (xs ys : List Effect)
    → replay held (xs ++ ys) ≡ (replay held xs >>= λ left. replay left ys)
replay-append held [] ys = refl
replay-append held (acquire a ∷ xs) ys = replay-append (a ∷ held) xs ys
replay-append held (release a ∷ xs) ys = elim (Option-cases (drop_last held a)) [
  | inl bad ↦ rw bad
  | inr (held', ok) ↦ rw ok (replay-append held' xs ys)
]

module _ {k : InitCalls} (c : IsInitCalls k) where
  alloc_region-AllOrNothing :
      (d : Device) → AllOrNothing (alloc_region k d (acquire ring_memory ∷ []))
  unfolding alloc_region ring_destroy
  alloc_region-AllOrNothing d = grind (arith, c.class_code, c.thread_code)

  -- What `ring_init` returns on a ring with no storage.
  ring_init-codes :
      (r : RingBuf) (sz : ℕ)
      → r.samples ≡ none
      → (is_zero (ring_init k.vzalloc r sz).0 ≡ true)
        ⊎ ((is_neg (ring_init k.vzalloc r sz).0 ≡ true)
            × (is_zero (ring_init k.vzalloc r sz).0 ≡ false)
            × ((ring_init k.vzalloc r sz).1.samples ≡ none))
  unfolding ring_init
  ring_init-codes r sz empty = ground arith

  init_ring-AllOrNothing :
      (ps : Params) (d : Device) (sz : ℕ)
      → d.ring.samples ≡ none
      → AllOrNothing (init_ring k ps d sz)
  unfolding init_ring
  init_ring-AllOrNothing ps d sz empty = elim (ring_init-codes d.ring sz empty) [
    | inl zero_code ↦ rw zero_code (alloc_region-AllOrNothing _)
    | inr (neg_code, not_zero, none_left) ↦ rw not_zero (inr (neg_code, refl, none_left))
  ]

  -- Loading is all or nothing: with a kernel whose calls fail as documented and no ring storage to
  -- begin with, if `gpu_telem_init` returns, then it returns 0 and holds all six resources, or it
  -- returns a negative code, holds nothing and has no ring storage. Each resource is released only
  -- while it is the last one held.
  pub init-AllOrNothing :
      (ps : Params) (d : Device) {res : Loaded}
      → d.ring.samples ≡ none
      → gpu_telem_init k ps d ≡ some res
      → AllOrNothing res
  init-AllOrNothing ps d empty e = elim (init-cases k ps d e) [
    | inl early ↦ subst AllOrNothing early (inr (refl, refl, empty))
    | inr (sz, found, lo, hi, late) ↦ subst AllOrNothing late (init_ring-AllOrNothing ps d sz empty)
  ]

-- Unloading releases all that a loaded module holds, the last acquired first: with a kernel whose
-- calls fail as documented and no ring storage to begin with, after a load that returned 0 and
-- `gpu_telem_exit` nothing is held, and the ring's storage is released.
pub exit_releases_all :
    {k : InitCalls} (ps : Params) (d : Device) {res : Loaded}
    → IsInitCalls k
    → d.ring.samples ≡ none
    → gpu_telem_init k ps d ≡ some res
    → res.ret ≡ pos 0
    → (replay [] (res.trace ++ (gpu_telem_exit res.device).1) ≡ some [])
      × ((gpu_telem_exit res.device).0.ring.samples ≡ none)
unfolding gpu_telem_exit ring_destroy
exit_releases_all ps d {res} c empty e ok = elim (init-AllOrNothing c ps d empty e) [
  | inl (zero_code, held) ↦ (
    replay-append [] res.trace _
        ∙ ap (λ o. o >>= λ left. replay left (gpu_telem_exit res.device).1) held,
    refl,
  )
  | inr (neg_code, _, _) ↦ ground arith
]
