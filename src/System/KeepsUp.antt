-- ===== src/System/KeepsUp.antt =====
-- A reader that keeps up with the collector.
mod Tests
use lkm_char_dev.Base.{
  subst, ℕ, ◌+◌, ◌-◌, ◌^◌, ◌≤◌, ◌<◌, ◌≡◌, ◌≢◌, ◌∙◌, ap, sym, refl, arith, length, take, drop, some,
  Bool-cases, inl, inr, ==_iff, ◌==◌,
}
use lkm_char_dev.Log.{lost}
use lkm_char_dev.System.{
  System, Step, Reader, ReaderPc, set_reader, opened, push, wake, open_file, close_file, call_read,
  find_data, go_to_sleep, would_block, no_memory, signal, call_poll, poll_finds, poll_sleeps,
  poll_gives_up, consume, consume_fault, Reach, loaded, next,
}
use lkm_char_dev.System.Safety.{stream_complete}

-- Since the file was last opened, it was never more than the ring's size behind when it was read, and
-- no copy of it failed.
abbrev pub KeepsUp : ℕ → {s : System} → Reach s → Type 0
KeepsUp i (loaded p) = Unit
KeepsUp i (next reach (open_file j at)) = i ≢ j → KeepsUp i reach
KeepsUp i (next {s} reach (consume j at done)) =
    KeepsUp i reach × (i ≡ j → length s.log ≤ (s.readers j).next + s.ring.size)
KeepsUp i (next {s} reach (consume_fault j at done)) = KeepsUp i reach × (i ≢ j)
KeepsUp i (next reach (push x at done)) = KeepsUp i reach
KeepsUp i (next reach (wake at)) = KeepsUp i reach
KeepsUp i (next reach (close_file j at)) = KeepsUp i reach
KeepsUp i (next reach (call_read j most at some_room small)) = KeepsUp i reach
KeepsUp i (next reach (find_data j at there)) = KeepsUp i reach
KeepsUp i (next reach (go_to_sleep j at none_there)) = KeepsUp i reach
KeepsUp i (next reach (would_block j at none_there)) = KeepsUp i reach
KeepsUp i (next reach (no_memory j at)) = KeepsUp i reach
KeepsUp i (next reach (signal j at)) = KeepsUp i reach
KeepsUp i (next reach (call_poll j at)) = KeepsUp i reach
KeepsUp i (next reach (poll_finds j at there)) = KeepsUp i reach
KeepsUp i (next reach (poll_sleeps j at none_there)) = KeepsUp i reach
KeepsUp i (next reach (poll_gives_up j at)) = KeepsUp i reach

-- Nothing is lost, by falling behind or by a failed copy.
abbrev LosesNone : Reader → Type 0
LosesNone x = (x.missed ≡ 0) × (x.unreported ≡ 0)

-- What holds of one reader, once another or it itself was replaced.
replaced :
    (s : System) (j : ℕ) (x : Reader) (i : ℕ)
    → (i ≡ j → LosesNone x)
    → (i ≢ j → LosesNone (s.readers i))
    → LosesNone ((set_reader s j x).readers i)
replaced s j x i same other = elim (Bool-cases (j == i)) [
  | inl e ↦ rw e (same (sym ((==_iff j i).0 e)))
  | inr ne ↦ rw ne (other (λ e. let wrong = sym ((==_iff j i).1 (sym e)) ∙ ne in cc))
]

moved :
    (s : System) (j : ℕ) (pc : ReaderPc) (i : ℕ)
    → LosesNone (s.readers i)
    → LosesNone ((set_reader s j (record (s.readers j) { pc = pc })).readers i)
moved s j pc i none =
    replaced s j _ i (λ e. subst (λ k. LosesNone (s.readers k)) e none) (λ ne. none)

none_missed : (i : ℕ) {s : System} (reach : Reach s) → KeepsUp i reach → LosesNone (s.readers i)
none_missed i (loaded p) up = (refl, refl)
none_missed i (next {s} reach (open_file j at)) up =
    replaced s j (opened s) i (λ e. (refl, refl)) (λ ne. none_missed i reach (up ne))
none_missed i (next {s} reach (consume j {c = c} at done)) up =
    let before = none_missed i reach up.0 in
    replaced (record s { ring = c.ring }) j _ i
      (λ e.
        let (missed, lost_none) = subst (λ k. LosesNone (s.readers k)) e before in
        let near = up.1 e in (omega (arith, missed, near), lost_none))
      (λ ne. before)
none_missed i (next {s} reach (consume_fault j {c = c} at done)) up =
    replaced (record s { ring = c.ring }) j _ i (λ e. absurd (up.1 e))
      (λ ne. none_missed i reach up.0)
none_missed i (next reach (push x at done)) up = none_missed i reach up
none_missed i (next reach (wake at)) up = none_missed i reach up
none_missed i (next {s} reach (close_file j at)) up = moved s j _ i (none_missed i reach up)
none_missed i (next {s} reach (call_read j most at some_room small)) up =
    moved s j _ i (none_missed i reach up)
none_missed i (next {s} reach (find_data j at there)) up = moved s j _ i (none_missed i reach up)
none_missed i (next {s} reach (go_to_sleep j at none_there)) up =
    moved s j _ i (none_missed i reach up)
none_missed i (next {s} reach (would_block j at none_there)) up =
    moved s j _ i (none_missed i reach up)
none_missed i (next {s} reach (no_memory j at)) up = moved s j _ i (none_missed i reach up)
none_missed i (next {s} reach (signal j at)) up = moved s j _ i (none_missed i reach up)
none_missed i (next {s} reach (call_poll j at)) up = moved s j _ i (none_missed i reach up)
none_missed i (next {s} reach (poll_finds j at there)) up = moved s j _ i (none_missed i reach up)
none_missed i (next {s} reach (poll_sleeps j at none_there)) up =
    moved s j _ i (none_missed i reach up)
none_missed i (next {s} reach (poll_gives_up j at)) up = moved s j _ i (none_missed i reach up)

-- A reader that keeps up loses nothing: in every reachable state with fewer than 2^64 - 1 samples
-- pushed, whatever the collector and the other files did, a file that, since it was last opened,
-- was never more than the ring's size behind when it was read, and no read of which failed in
-- `copy_to_user`, has missed nothing, and was given exactly the samples pushed from its `open` up
-- to its position, each once and in order.
pub keeping_up_misses_nothing :
    {s : System} (reach : Reach s)
    → length s.log + 1 < 2 ^ 64
    → (i : ℕ) → KeepsUp i reach
    → LosesNone (s.readers i)
      × ((s.readers i).given
          ≡ take ((s.readers i).next - (s.readers i).start) (drop (s.readers i).start s.log))
keeping_up_misses_nothing reach fits i up =
    let none = none_missed i reach up in (none, stream_complete reach fits i none.0 none.1)
