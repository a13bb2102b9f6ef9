-- ===== src/Consumer/Rows.antt =====
-- How many samples the outputs of user/consumer.py print: what `--count` allows.
use lkm_char_dev.Base.{
  ℕ, zero, suc, ◌+◌, ◌-◌, ◌≤◌, ◌<◌, ◌≡◌, ◌∙◌, refl, ap, sym, arith, max, true, false, List, [], ◌∷◌,
  length, take, take_all, take-nil, Bool-cases, inl, inr,
}
use lkm_char_dev.Base.Int.{ℤ, pos, negsuc}
use lkm_char_dev.Consumer.{UnpackedSample, End, numbered_rows, is_enough, Answer, samples}

-- How many more of `n` samples are printed, from an index on.
abbrev room : ℤ → ℕ → ℕ → ℕ
room (pos zero) idx n = n
room (pos (suc m)) idx n = max 1 (suc m - idx)
room (negsuc m) idx n = 1

pub indexed : ℕ → List UnpackedSample → List (ℕ × UnpackedSample)
indexed idx [] = []
indexed idx (s ∷ ss) = (idx, s) ∷ indexed (idx + 1) ss

-- What `--count` allows of a list: 0 allows all of it, and a negative number a single one.
abbrev pub limited {ℓ} : {A : Type ℓ} → ℤ → List A → List A
limited (pos zero) xs = xs
limited (pos (suc m)) xs = take (suc m) xs
limited (negsuc m) xs = take 1 xs

enough-le : (m i : ℕ) → is_enough (pos (suc m)) i ≡ true → suc m ≤ i
unfolding is_enough
enough-le m i e = ground arith

more-lt : (m i : ℕ) → is_enough (pos (suc m)) i ≡ false → i < suc m
unfolding is_enough
more-lt m i e = ground arith

never-enough : (i : ℕ) → is_enough (pos 0) i ≡ false
unfolding is_enough
never-enough i = refl

at_once : (m i : ℕ) → is_enough (negsuc m) i ≡ true
unfolding is_enough
at_once m i = refl

rows_from :
    (count : ℤ) (idx : ℕ) (ss : List UnpackedSample) (end : End)
    → (numbered_rows count idx (ss, end)).0 ≡ indexed idx (take (room count idx (length ss)) ss)
unfolding numbered_rows indexed
rows_from count idx [] end = ap (indexed idx) (sym (take-nil (room count idx 0)))
rows_from (pos zero) idx (s ∷ ss) end =
    rw (never-enough (idx + 1)) (ap (λ t. (idx, s) ∷ t) (rows_from (pos zero) (idx + 1) ss end))
rows_from (pos (suc m)) idx (s ∷ ss) end = elim (Bool-cases (is_enough (pos (suc m)) (idx + 1))) [
  | inl enough ↦
      let one : max 1 (suc m - idx) ≡ 1 = omega (arith, enough-le m (idx + 1) enough) in
      rw (enough, one) refl
  | inr more ↦
      let later : max 1 (suc m - idx) ≡ suc (max 1 (suc m - (idx + 1))) =
        omega (arith, more-lt m (idx + 1) more) in
      rw (more, later) (ap (λ t. (idx, s) ∷ t) (rows_from (pos (suc m)) (idx + 1) ss end))
]
rows_from (negsuc m) idx (s ∷ ss) end = rw (at_once m (idx + 1)) refl

room-limited :
    (count : ℤ) (ss : List UnpackedSample) → take (room count 0 (length ss)) ss ≡ limited count ss
room-limited (pos zero) ss = take_all ss (length ss) (omega arith)
room-limited (pos (suc m)) ss =
    let all : max 1 (suc m - 0) ≡ suc m = omega arith in ap (λ n. take n ss) all
room-limited (negsuc m) ss = refl

-- Whatever the driver answers, errors included, the rows that an output prints are the samples
-- that the generator yields, numbered from 0: the first N of them with a `--count` of N, all of
-- them with 0, and the first one alone with a negative count.
pub rows_limited :
    (count : ℤ) (buf : List ℕ) (answers : List Answer)
    → (numbered_rows count 0 (samples buf answers)).0
      ≡ indexed 0 (limited count (samples buf answers).0)
rows_limited count buf answers =
    let (yielded, end) = samples buf answers in
    rows_from count 0 yielded end ∙ ap (indexed 0) (room-limited count yielded)
