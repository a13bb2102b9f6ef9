-- ===== src/TelemReader/Loop.antt =====
-- The loop of `main`: what is printed, and how many samples.
use lkm_char_dev.Base.{
  ℕ, zero, suc, ◌+◌, ◌*◌, ◌/◌, ◌^◌, ◌≤◌, ◌<◌, ◌≡◌, ◌∙◌, ◌⊎◌, inl, inr, refl, ap, arith,
}
use lkm_char_dev.Base.{true, List, [], ◌∷◌, ◌++◌, length, length-append, All, u64, drop}
use lkm_char_dev.Base.Int.{ℤ, pos}
use lkm_char_dev.Uapi.{GpuSample, IsSample, sample_size}
use lkm_char_dev.Uapi.Layout.{encode_all, decode_all, length-encode_all, decode_all-encode_all}
use lkm_char_dev.TelemReader.{
  Turn, received, want, wants_more, numbered, Outcome, leave, again, batch, turn_outcome, main_loop,
}

-- `read` as documented: it never puts more bytes into the buffer than it was asked for.
abbrev pub KeepsSize : Turn → Type 0
KeepsSize t = (size : ℕ) (bs : List ℕ) → t.read size ≡ received bs → length bs ≤ size

Outcome-cases : (o : Outcome) → ((o ≡ leave) ⊎ (o ≡ again)) ⊎ ((bs : List ℕ) × (o ≡ batch bs))
Outcome-cases leave = inl (inl refl)
Outcome-cases again = inl (inr refl)
Outcome-cases (batch bs) = inr (bs, refl)

length-numbered : (i : ℕ) (ss : List GpuSample) → length (numbered i ss) ≡ length ss
unfolding numbered
length-numbered i [] = refl
length-numbered i (s ∷ ss) = ap suc (length-numbered (i + 1) ss)

-- A batch is what `read` answered to a size that `-n` allows.
batch_read :
    (most : ℤ) (total : ℕ) (t : Turn) {bs : List ℕ}
    → turn_outcome most total t ≡ batch bs
    → (wants_more most total ≡ true) × (t.read (want most total * sample_size) ≡ received bs)
unfolding turn_outcome
batch_read most total t e = ground arith

batch_count :
    (m total : ℕ) (t : Turn) {bs : List ℕ}
    → m < 2 ^ 63
    → total ≤ m
    → KeepsSize t
    → turn_outcome (pos m) total t ≡ batch bs
    → total + length bs / sample_size ≤ m
batch_count m total t {bs} fits le keeps e =
    let (more, answer) = batch_read (pos m) total t e in
    let most = keeps (want (pos m) total * sample_size) bs answer in ground arith

module _ (most : ℤ) (total : ℕ) (t : Turn) (ts : List Turn) where
  pub main_loop-leave :
      turn_outcome most total t ≡ leave → main_loop most total (t ∷ ts) ≡ ([], total)
  unfolding main_loop
  main_loop-leave e = rw (e, main_loop)

  pub main_loop-again :
      turn_outcome most total t ≡ again → main_loop most total (t ∷ ts) ≡ main_loop most total ts
  unfolding main_loop
  main_loop-again e = rw (e, main_loop)

  main_loop-batch :
      {bs : List ℕ}
      → turn_outcome most total t ≡ batch bs
      → let (rest, total') = main_loop most (u64 (total + length bs / sample_size)) ts in
        main_loop most total (t ∷ ts)
        ≡ (numbered total (decode_all (length bs / sample_size) bs) ++ rest, total')
  unfolding main_loop
  main_loop-batch e = rw (e, main_loop)

length-decode_all : (n : ℕ) (b : List ℕ) → length (decode_all n b) ≡ n
unfolding decode_all
length-decode_all zero b = refl
length-decode_all (suc n) b = ap suc (length-decode_all n (drop sample_size b))

-- With `-n m`, for a `long` m, the reader never prints more than `m` samples in all and its total
-- is the number that it printed, from any total up to `m` on and whatever is answered, if `read`
-- never gives more bytes than it was asked for.
pub main_loop_bounded :
    (m total : ℕ) (ts : List Turn)
    → m < 2 ^ 63
    → total ≤ m
    → All KeepsSize ts
    → let (printed, total') = main_loop (pos m) total ts in
      (total' ≤ m) × (total + length printed ≡ total')
unfolding main_loop
main_loop_bounded m total [] fits le keeps = omega arith
main_loop_bounded m total (t ∷ ts) fits le keeps =
    elim (Outcome-cases (turn_outcome (pos m) total t)) [
      | inl (inl e) ↦ rw (main_loop-leave (pos m) total t ts e) (omega arith)
      | inl (inr e) ↦
          rw (main_loop-again (pos m) total t ts e) (main_loop_bounded m total ts fits le keeps.1)
      | inr (bs, e) ↦
          let count = length bs / sample_size in
          let below = batch_count m total t fits le keeps.0 e in
          let whole : u64 (total + count) ≡ total + count = omega arith in
          let later = main_loop_bounded m (total + count) ts fits below keeps.1 in
          let (rest, total') = main_loop (pos m) (total + count) ts in
          rw (main_loop-batch (pos m) total t ts e, whole)
            (
              later.0,
              omega (
                arith,
                later.1,
                length-append (numbered total (decode_all count bs)) rest,
                length-numbered total (decode_all count bs),
                length-decode_all count bs,
              ),
            )
    ]

-- A turn whose `read` delivers the bytes of some samples, with fields within their C types, prints
-- these samples, numbered from the total on, and the loop goes on with the total behind them.
pub main_loop_prints :
    (most : ℤ) (total : ℕ) (t : Turn) (ts : List Turn) (ss : List GpuSample)
    → All IsSample ss
    → turn_outcome most total t ≡ batch (encode_all ss)
    → let (rest, total') = main_loop most (u64 (total + length ss)) ts in
      main_loop most total (t ∷ ts) ≡ (numbered total ss ++ rest, total')
main_loop_prints most total t ts ss ok e =
    let count : length (encode_all ss) / sample_size ≡ length ss =
      omega (arith, length-encode_all ss ok) in
    main_loop-batch most total t ts e ∙ rw (count, decode_all-encode_all ss ok)
