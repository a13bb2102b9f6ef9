-- ===== src/Ring/Consume.antt =====
-- `ring_consume` on a ring that represents a log, beside a reading of the log.
use lkm_char_dev.Base.{ℕ, zero, suc, ◌+◌, ◌-◌, ◌^◌, ◌≤◌, ◌<◌, ◌≡◌, ◌∙◌, ap, sym, arith, min}
use lkm_char_dev.Base.{
  [], some, length, get_elem?, take, drop, drop-cons, drop_all, take-nil, take-min, le→leb,
  lt→not_leb, le→not_ltb, get_elem?_lt, length-take, length-drop, lt→ltb, u64, u32,
}
use lkm_char_dev.Log.{Log, first, read, lost}
use lkm_char_dev.Ring.{RingBuf, slot, copy_out, overrun, Consumed, ring_consume}
use lkm_char_dev.Ring.Invariant.{Represents, Represents-dropped, slot-eq-mod}
use native.Mathlib.Nat.{add-zero}
use native.Mathlib.Decide.{dec_lt}

module _ {r : RingBuf} {h : Log} (p : Represents r h) where
  -- The copy loop returns the log's samples from `seq` on, if they are all still in the ring.
  pub copy_out-eq-take :
      (n seq : ℕ)
      → seq + n ≤ length h
      → length h ≤ seq + r.size
      → copy_out r n seq ≡ some (take n (drop seq h), seq + n)
  unfolding copy_out
  copy_out-eq-take zero seq le near = rw add-zero
  copy_out-eq-take (suc n) seq le near =
      let (a, at) = get_elem?_lt h seq (omega arith) in
      let next : u64 (seq + 1) ≡ suc seq = omega (arith, p.head, p.valid.head_fits) in
      let here : get_elem? p.valid.memory (slot r seq) ≡ some a =
        rw (slot-eq-mod p.valid seq) (p.live seq (omega arith) near ∙ at) in
      let total : suc seq + n ≡ seq + suc n = omega arith in
      rw (
        p.valid.held,
        here,
        next,
        copy_out-eq-take n (suc seq) (omega arith) (omega arith),
        drop-cons h seq a at,
        total,
      )

module _ {r : RingBuf} {h : Log} (p : Represents r h) (next most : ℕ) (fits : most < 2 ^ 32) where
  -- What the reading leaves, told from the log.
  abbrev pub consumed : Consumed
  consumed = record {
    ring = record r { dropped = u64 (r.dropped + lost r.size h next) };
    next_seq = first r.size h next + length (read r.size h next most);
    out = read r.size h next most;
  }

  counted : RingBuf
  counted = record r { dropped = u64 (r.dropped + lost r.size h next) }

  counted-Represents : Represents counted h
  unfolding counted
  counted-Represents = Represents-dropped (u64 (r.dropped + lost r.size h next)) (omega arith) p

  -- Nothing is lost by a reader that is at most `size` behind.
  counted_none : lost r.size h next ≡ 0 → counted ≡ r
  unfolding counted
  counted_none none_lost i = record r { dropped = same i }
    where
      same : u64 (r.dropped + lost r.size h next) ≡ r.dropped
      same = omega (arith, p.valid.dropped_fits)

  caught_up : length h ≤ next → ring_consume r next most ≡ some consumed
  unfolding ring_consume counted
  caught_up done = rw (le→leb r.head_seq next (omega (arith, p.head))) (ap some (sym same))
    where
      empty : read r.size h next most ≡ []
      empty = ap (take most) (drop_all h (first r.size h next) (omega arith)) ∙ take-nil most

      stays : first r.size h next + length (read r.size h next most) ≡ next
      stays = omega (arith, ap length empty)

      same : consumed ≡ record { ring = r; next_seq = next; out = [] }
      same i = record { ring = counted_none (omega arith) i; next_seq = stays i; out = empty i }

  overrun-eq :
      next < length h
      → overrun r next (r.head_seq - next)
        ≡ (counted, first r.size h next, r.head_seq - first r.size h next)
  unfolding overrun counted
  overrun-eq more = elim (dec_lt r.size (r.head_seq - next)) [
    | yes far ↦
        let d : u64 (r.dropped + (r.head_seq - next - r.size))
            ≡ u64 (r.dropped + lost r.size h next) =
          omega (arith, p.head) in
        let s : u64 (next + (r.head_seq - next - r.size)) ≡ first r.size h next =
          omega (arith, p.head, p.valid.head_fits) in
        let b : r.size ≡ r.head_seq - first r.size h next = omega (arith, p.head) in
        rw (lt→ltb _ _ far) (λ i. (record r { dropped = d i }, s i, b i))
    | no near ↦
        let s : next ≡ first r.size h next = omega (arith, p.head) in
        let b : r.head_seq - next ≡ r.head_seq - first r.size h next = omega (arith, p.head) in
        rw (le→not_ltb r.size (r.head_seq - next) (omega arith))
          (λ i. (sym (counted_none (omega (arith, p.head))) i, s i, b i))
  ]

  fell_behind : next < length h → ring_consume r next most ≡ some consumed
  unfolding ring_consume counted
  fell_behind more =
      rw (lt→not_leb r.head_seq next (omega (arith, p.head)), overrun-eq more, copies)
        (λ i. some (record { ring = counted; next_seq = ends i; out = all_taken i }))
    where
      from : ℕ
      from = first r.size h next

      behind : ℕ
      behind = r.head_seq - from

      rest : behind ≡ length (drop from h)
      rest = omega (arith, p.head, length-drop from h)

      count : u32 (min behind most) ≡ min behind most
      count = omega arith

      copies :
          copy_out counted (u32 (min behind most)) from
          ≡ some (take (u32 (min behind most)) (drop from h), from + u32 (min behind most))
      copies =
          copy_out-eq-take counted-Represents (u32 (min behind most)) from (omega (arith, p.head))
            (omega arith)

      all_taken : take (u32 (min behind most)) (drop from h) ≡ read r.size h next most
      all_taken = rw count (take-min (drop from h) behind most rest)

      ends : from + u32 (min behind most) ≡ from + length (read r.size h next most)
      ends = omega (arith, length-take most (drop from h), rest, count)

-- `ring_consume` on a ring that represents a log, for a `max` of 32 bits, does not fault: it
-- returns the samples that a reading of the log from `*next_seq` returns, leaves `*next_seq`
-- behind the last of them, and adds the number of samples that the reader lost to `dropped`; the
-- ring still represents the log.
pub ring_consume_refines :
    {r : RingBuf} {h : Log}
    → Represents r h
    → (next most : ℕ) → most < 2 ^ 32
    → (ring_consume r next most
        ≡ some (record {
          ring = record r { dropped = u64 (r.dropped + lost r.size h next) };
          next_seq = first r.size h next + length (read r.size h next most);
          out = read r.size h next most;
        }))
      × Represents (record r { dropped = u64 (r.dropped + lost r.size h next) }) h
ring_consume_refines {r} {h} p next most fits = (
  elim (dec_lt next (length h)) [
    | yes more ↦ fell_behind p next most fits more
    | no done ↦ caught_up p next most fits (omega arith)
  ],
  Represents-dropped (u64 (r.dropped + lost r.size h next)) (omega arith) p,
)
