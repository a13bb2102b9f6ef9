-- ===== src/Consumer/Stream.antt =====
-- `samples` and `main` of user/consumer.py on the driver: what is printed, beside the log of what
-- the collector pushed since the file was opened.
use lkm_char_dev.Base.{
  ℕ, zero, suc, ◌*◌, ◌/◌, ◌≤◌, ◌≡◌, ◌∙◌, refl, ap, ap₂, sym, arith, false, some, List, [], ◌∷◌,
  ◌++◌, map, length, take, drop, take-append, drop-append, length-append, length-take, append_assoc,
  All, All-take, All-drop, ◌==◌,
}
use mathlib.Core.List.{map-append}
use lkm_char_dev.Uapi.{GpuSample, IsSample}
use lkm_char_dev.Uapi.Layout.{encode, encode_all, length-encode, length-encode_all}
use lkm_char_dev.Driver.Shows.{encode_all-append}
use lkm_char_dev.Consumer.{
  UnpackedSample, unpack, Answer, timeout, interrupt, os_error, received, End, interrupted, raised,
  waiting, yields, samples,
}
use lkm_char_dev.Consumer.Unpack.{view, unpack-encode}

-- The answers of a device that sends these bytes, whole samples at a time, and how they end.
pub data Fed : List Answer → List ℕ → End → Type 0 where
  over : Fed [] [] waiting
  stops : {answers : List Answer} → Fed (interrupt ∷ answers) [] interrupted
  fails : {answers : List Answer} → Fed (os_error ∷ answers) [] raised
  waits :
      {answers : List Answer} {sent : List ℕ} {end : End}
      → Fed answers sent end
      → Fed (timeout ∷ answers) sent end
  sends :
      {answers : List Answer} {sent : List ℕ} {end : End} (count : ℕ) (bs : List ℕ)
      → 1 ≤ count
      → length bs ≡ count * 48
      → Fed answers sent end
      → Fed (received bs ∷ answers) (bs ++ sent) end

take-drop {ℓ} : {A : Type ℓ} (n : ℕ) (xs : List A) → take n xs ++ drop n xs ≡ xs
take-drop zero xs = refl
take-drop (suc n) [] = refl
take-drop (suc n) (x ∷ xs) = ap (λ t. x ∷ t) (take-drop n xs)

-- The bytes of `count` samples at the front of those of a list are those of its first `count`.
split :
    (count : ℕ) (given : List GpuSample) (bs more : List ℕ)
    → All IsSample given
    → length bs ≡ count * 48
    → bs ++ more ≡ encode_all given
    → (bs ≡ encode_all (take count given))
      × (more ≡ encode_all (drop count given))
      × (length (take count given) ≡ count)
split count given bs more ok size same =
    let front = take count given in
    let rest = drop count given in
    let whole : bs ++ more ≡ encode_all front ++ encode_all rest =
      same ∙ ap encode_all (sym (take-drop count given)) ∙ encode_all-append front rest in
    let fits : length front ≡ count = omega (
      arith,
      length-take count given,
      length-append bs more,
      ap length same,
      length-encode_all given ok,
    ) in
    let bytes : count * 48 ≡ length (encode_all front) =
      omega (arith, length-encode_all front (All-take IsSample count given ok), fits) in
    (
      sym (take-append bs more (count * 48) (sym size))
          ∙ ap (take (count * 48)) whole
          ∙ take-append (encode_all front) (encode_all rest) (count * 48) bytes,
      sym (drop-append bs more (count * 48) (sym size))
          ∙ ap (drop (count * 48)) whole
          ∙ drop-append (encode_all front) (encode_all rest) (count * 48) bytes,
      fits,
    )

yields-some :
    (count : ℕ) (buf : List ℕ) (rest : List UnpackedSample × End) {s : UnpackedSample}
    → unpack (take 48 buf) ≡ some s
    → yields (suc count) buf rest
      ≡ (s ∷ (yields count (drop 48 buf) rest).0, (yields count (drop 48 buf) rest).1)
yields-some count buf rest e = rw (yields, e) refl

-- A batch yields its samples, whatever stands behind it in the buffer.
yields-encode_all :
    (xs : List GpuSample) (behind : List ℕ) (later : List UnpackedSample) (end : End)
    → All IsSample xs
    → yields (length xs) (encode_all xs ++ behind) (later, end) ≡ (map view xs ++ later, end)
unfolding encode_all
yields-encode_all [] behind later end ok = refl
yields-encode_all (x ∷ xs) behind later end ok =
    let size = sym (length-encode x ok.0) in
    let buf = encode x ++ (encode_all xs ++ behind) in
    let first : unpack (take 48 buf) ≡ some (view x) =
      ap unpack (take-append (encode x) (encode_all xs ++ behind) 48 size) ∙ unpack-encode x ok.0 in
    ap (λ b. yields (suc (length xs)) b (later, end))
      (append_assoc (encode x) (encode_all xs) behind)
    ∙ yields-some (length xs) buf (later, end) first
    ∙ ap
        (λ b.
          (view x ∷ (yields (length xs) b (later, end)).0, (yields (length xs) b (later, end)).1))
        (drop-append (encode x) (encode_all xs ++ behind) 48 size)
    ∙ ap (λ y. (view x ∷ y.0, y.1)) (yields-encode_all xs behind later end ok.1)

nothing-sent : (given : List GpuSample) → All IsSample given → [] ≡ encode_all given → given ≡ []
nothing-sent [] ok same = refl
nothing-sent (x ∷ xs) ok same =
    absurd (omega (arith, length-encode_all (x ∷ xs) ok, ap length same))

samples-received :
    (buf bs : List ℕ) (answers : List Answer) (count : ℕ)
    → 1 ≤ count
    → length bs ≡ count * 48
    → samples buf (received bs ∷ answers)
      ≡ yields count (bs ++ drop (length bs) buf) (samples (bs ++ drop (length bs) buf) answers)
unfolding samples
samples-received buf bs answers count some_bytes size =
    let not_empty : (length bs == 0) ≡ false = ground (arith, size) in
    let batches : length bs / 48 ≡ count = omega arith in rw (not_empty, batches) refl

pub samples-Fed :
    {answers : List Answer} {sent : List ℕ} {end : End} (buf : List ℕ) (given : List GpuSample)
    → Fed answers sent end
    → sent ≡ encode_all given
    → All IsSample given
    → samples buf answers ≡ (map view given, end)
unfolding samples
samples-Fed buf given over same ok =
    ap (λ g. (map view g, waiting)) (sym (nothing-sent given ok same))
samples-Fed buf given stops same ok =
    ap (λ g. (map view g, interrupted)) (sym (nothing-sent given ok same))
samples-Fed buf given fails same ok =
    ap (λ g. (map view g, raised)) (sym (nothing-sent given ok same))
samples-Fed buf given (waits fed) same ok = samples-Fed buf given fed same ok
samples-Fed buf given (sends {answers} {sent} {end} count bs some_bytes size fed) same ok =
    let front = take count given in
    let rest = drop count given in
    let (bytes, behind, fits) = split count given bs sent ok size same in
    let old = drop (length bs) buf in
    let later : samples (bs ++ old) answers ≡ (map view rest, end) =
      samples-Fed (bs ++ old) rest fed behind (All-drop IsSample count given ok) in
    samples-received buf bs answers count some_bytes size
    ∙ ap (yields count (bs ++ old)) later
    ∙ ap₂ (λ n b. yields n (b ++ old) (map view rest, end)) (sym fits) bytes
    ∙ yields-encode_all front old (map view rest) end (All-take IsSample count given ok)
    ∙ ap (λ g. (g, end)) (sym (map-append view front rest) ∙ ap (map view) (take-drop count given))
