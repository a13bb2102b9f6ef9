-- ===== src/System/Readers.antt =====
-- What holds of each file's reader, beside the log of what was pushed.
use lkm_char_dev.Base.{
  ℕ, ◌+◌, ◌-◌, ◌^◌, ◌≤◌, ◌<◌, ◌≡◌, ◌∙◌, ◌⊎◌, inr, refl, true, ap, sym, subst, arith, min,
}
use lkm_char_dev.Base.{
  [], ◌∷◌, ◌++◌, length, take, drop, length-append, length-take, length-drop, take_more, drop-drop,
  take-length, take-drop-append,
}
use mathlib.Core.List.{Sublist, sublist-append_left}
use mathlib.Core.List.Sublist
use lkm_char_dev.Uapi.{GpuSample}
use lkm_char_dev.Log
use lkm_char_dev.Log.{Log, first, lost}
use lkm_char_dev.System.{
  CollectorPc, collecting, pushed, ReaderPc, closed, idle, testing, asleep, ready, polling,
  polling_asleep, sleeps, Reader, woken, woken_pc,
}

-- What a file's position and its thread's place say about the log and the collector.
abbrev pub PcOk : Log → CollectorPc → ℕ → ReaderPc → Type 0
PcOk h c n closed = Unit
PcOk h c n idle = Unit
PcOk h c n (testing most) = (1 ≤ most) × (most < 2 ^ 32)
PcOk h c n (asleep most) = (1 ≤ most) × (most < 2 ^ 32) × ((length h ≤ n) ⊎ (c ≡ pushed))
PcOk h c n (ready most) = (1 ≤ most) × (most < 2 ^ 32) × (n < length h)
PcOk h c n polling = Unit
PcOk h c n polling_asleep = (length h ≤ n) ⊎ (c ≡ pushed)

pub record ReaderOk (h : Log) (c : CollectorPc) (x : Reader) : Type 0 where
  pub within : x.next ≤ length h
  pub counted : x.start + length x.given + x.missed + x.unreported ≡ x.next
  pub complete : x.missed ≡ 0 → x.unreported ≡ 0 → x.given ≡ take (length x.given) (drop x.start h)
  pub ordered : Sublist x.given (take (x.next - x.start) (drop x.start h))
  pub place : PcOk h c x.next x.pc

push-PcOk :
    (h : Log) (c : CollectorPc) (a : GpuSample) (n : ℕ) (pc : ReaderPc)
    → PcOk h c n pc
    → PcOk (h ++ a ∷ []) pushed n pc
push-PcOk h c a n closed p = tt
push-PcOk h c a n idle p = tt
push-PcOk h c a n (testing most) p = p
push-PcOk h c a n (asleep most) p = (p.0, p.1, inr refl)
push-PcOk h c a n (ready most) p = (p.0, p.1, omega (arith, p.2, length-append h (a ∷ [])))
push-PcOk h c a n polling p = tt
push-PcOk h c a n polling_asleep p = inr refl

wake-PcOk :
    (h : Log) (c : CollectorPc) (n : ℕ) (pc : ReaderPc)
    → PcOk h c n pc
    → PcOk h collecting n (woken_pc pc)
wake-PcOk h c n closed p = tt
wake-PcOk h c n idle p = tt
wake-PcOk h c n (testing most) p = p
wake-PcOk h c n (asleep most) p = (p.0, p.1)
wake-PcOk h c n (ready most) p = p
wake-PcOk h c n polling p = tt
wake-PcOk h c n polling_asleep p = tt

-- A thread on the wait queue has no data, or is about to be woken.
pub sleeps-PcOk :
    (h : Log) (c : CollectorPc) (n : ℕ) (pc : ReaderPc)
    → sleeps pc ≡ true
    → PcOk h c n pc
    → (length h ≤ n) ⊎ (c ≡ pushed)
sleeps-PcOk h c n closed e p = cc
sleeps-PcOk h c n idle e p = cc
sleeps-PcOk h c n (testing most) e p = cc
sleeps-PcOk h c n (asleep most) e p = p.2
sleeps-PcOk h c n (ready most) e p = cc
sleeps-PcOk h c n polling e p = cc
sleeps-PcOk h c n polling_asleep e p = p

-- A push keeps what holds of every reader, whoever sleeps.
pub push-ReaderOk :
    {h : Log} {c : CollectorPc} (a : GpuSample) (x : Reader)
    → ReaderOk h c x
    → ReaderOk (h ++ a ∷ []) pushed x
push-ReaderOk {h} {c} a x ok = record {
  within = omega (arith, length-append h (a ∷ []), ok.within);
  counted = ok.counted;
  complete = λ none_missed none_lost.
      ok.complete none_missed none_lost
      ∙ sym (
          take-drop-append h (a ∷ []) x.start (length x.given)
            (omega (arith, ok.counted, ok.within)));
  ordered =
      subst (λ t. Sublist x.given t)
        (sym (
          take-drop-append h (a ∷ []) x.start (x.next - x.start)
            (omega (arith, ok.counted, ok.within))))
        ok.ordered;
  place = push-PcOk h c a x.next x.pc ok.place;
}

-- So does a wake-up, after which nobody sleeps.
pub wake-ReaderOk :
    {h : Log} {c : CollectorPc} (x : Reader) → ReaderOk h c x → ReaderOk h collecting (woken x)
wake-ReaderOk {h} {c} x ok = record {
  within = ok.within;
  counted = ok.counted;
  complete = ok.complete;
  ordered = ok.ordered;
  place = wake-PcOk h c x.next x.pc ok.place;
}

-- A reader that is at another place in its call, with its position as it was.
pub move-ReaderOk :
    {h : Log} {c : CollectorPc} (x : Reader) (pc : ReaderPc)
    → ReaderOk h c x
    → PcOk h c x.next pc
    → ReaderOk h c (record x { pc = pc })
move-ReaderOk x pc ok p = record {
  within = ok.within;
  counted = ok.counted;
  complete = ok.complete;
  ordered = ok.ordered;
  place = p;
}

-- A slice of the log, and what a reading takes from its end on, is a longer slice.
pub slice-more :
    (h : Log) (start n most : ℕ)
    → let more = take most (drop (start + n) h) in
      take n (drop start h) ++ more ≡ take (n + length more) (drop start h)
slice-more h start n most = rw (← drop-drop n start h) (
    ap (λ t. take n (drop start h) ++ t) (sym (take-length most (drop n (drop start h))))
    ∙ take_more n (length (take most (drop n (drop start h)))) (drop start h))

-- The same of a list that is a slice.
slice-append :
    (h given : Log) (start n most : ℕ)
    → n ≡ start + length given
    → given ≡ take (length given) (drop start h)
    → given ++ take most (drop n h) ≡ take (length (given ++ take most (drop n h))) (drop start h)
slice-append h given start n most e slice =
    rw (e, length-append given (take most (drop (start + length given) h)))
      (ap (λ t. t ++ take most (drop (start + length given) h)) slice
        ∙ slice-more h start (length given) most)

-- A selection of a slice, and what a reading takes from behind its end, is a selection of a longer
-- slice.
slice-Sublist :
    (h given : Log) (start next from most : ℕ)
    → start ≤ next
    → next ≤ from
    → Sublist given (take (next - start) (drop start h))
    → let more = take most (drop from h) in
      Sublist (given ++ more) (take (from + length more - start) (drop start h))
slice-Sublist h given start next from most le le' part =
    let more = take most (drop from h) in
    let way = next - start + (from - next) in
    let slice = drop start h in
    let reached : start + way ≡ from = omega arith in
    let longer : take way slice ++ more ≡ take (way + length more) slice =
      rw reached at (slice-more h start way most) in
    let whole : way + length more ≡ from + length more - start = omega arith in
    let part' : Sublist given (take way slice) =
      subst (λ t. Sublist given t) (take_more (next - start) (from - next) slice)
        (Sublist.trans part (
          sublist-append_left (take (next - start) slice)
            (take (from - next) (drop (next - start) slice)))) in
    subst (λ t. Sublist (given ++ more) t) (longer ∙ ap (λ n. take n slice) whole)
      (Sublist.append part' (Sublist.refl more))

-- A reading takes from the log up to its new position.
read_within :
    (size most : ℕ) (h : Log) (n : ℕ)
    → n ≤ length h
    → first size h n + length (Log.read size h n most) ≤ length h
read_within size most h n le =
    let count : length (Log.read size h n most) ≡ min most (length h - first size h n) =
      length-take most (drop (first size h n) h) ∙ ap (min most) (length-drop (first size h n) h) in
    omega (arith, count, le)

-- Reading on where a reader left off.
pub consume-ReaderOk :
    {h : Log} {c : CollectorPc} (size most : ℕ) (x : Reader)
    → ReaderOk h c x
    → ReaderOk h c (record x {
      pc = idle;
      next = first size h x.next + length (Log.read size h x.next most);
      missed = x.missed + lost size h x.next;
      given = x.given ++ Log.read size h x.next most;
    })
consume-ReaderOk {h} size most x ok = record {
  within = read_within size most h x.next ok.within;
  counted = omega (arith, ok.counted, length-append x.given (Log.read size h x.next most));
  complete = λ none_missed none_lost.
      slice-append h x.given x.start (first size h x.next) most (omega (arith, ok.counted))
        (ok.complete (omega arith) none_lost);
  ordered =
      slice-Sublist h x.given x.start x.next (first size h x.next) most (omega (arith, ok.counted))
        (omega arith) ok.ordered;
  place = tt;
}

-- Reading on, where nothing of it reaches the user.
pub fault-ReaderOk :
    {h : Log} {c : CollectorPc} (size most : ℕ) (x : Reader)
    → ReaderOk h c x
    → ReaderOk h c (record x {
      pc = idle;
      next = first size h x.next + length (Log.read size h x.next most);
      missed = x.missed + lost size h x.next;
      faults = x.faults + 1;
      unreported = x.unreported + length (Log.read size h x.next most);
    })
fault-ReaderOk {h} size most x ok =
    let end = first size h x.next + length (Log.read size h x.next most) in
    let slice = drop x.start h in
    let way = x.next - x.start in
    record {
      within = read_within size most h x.next ok.within;
      counted = omega (arith, ok.counted);
      complete = λ none_missed none_lost. ok.complete (omega arith) (omega arith);
      ordered =
          subst (λ n. Sublist x.given (take n slice)) (omega (arith, ok.counted))
            (subst (λ t. Sublist x.given t) (take_more way (end - x.next) slice)
              (Sublist.trans ok.ordered
                (sublist-append_left (take way slice) (take (end - x.next) (drop way slice)))));
      place = tt;
    }
