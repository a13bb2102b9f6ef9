-- ===== src/TelemReader/Session.antt =====
-- A whole run of user/gpu_telem_reader.c on the driver: what its loop prints, beside the log of what
-- the collector pushed since the file was opened.
use lkm_char_dev.Base.{ℕ, ◌+◌, ◌*◌, ◌^◌, ◌<◌, ◌≡◌, ◌∙◌, ap, ap₂, sym, subst, arith}
use lkm_char_dev.Base.{
  List, [], ◌∷◌, ◌++◌, append_assoc, append-nil, some, some_inj, true, length, length-append, u64,
}
use lkm_char_dev.Base.Int.{ℤ}
use lkm_char_dev.Uapi.{GpuSample, sample_size}
use lkm_char_dev.Uapi.Layout.{encode_all}
use lkm_char_dev.Log
use lkm_char_dev.Log.{Log, first, lost}
use lkm_char_dev.Ring.{RingBuf}
use lkm_char_dev.Device.{File, ReadCalls, ReadResult, gpu_telem_read}
use lkm_char_dev.Device.Read.{Served, taken, position, room, read_delivers}
use lkm_char_dev.System.{Reader, pushed, idle}
use lkm_char_dev.System.Readers.{ReaderOk, push-ReaderOk, move-ReaderOk, consume-ReaderOk}
use lkm_char_dev.TelemReader.{
  Turn, polled, received, want, wants_more, numbered, leave, again, turn_outcome, main_loop,
}
use lkm_char_dev.TelemReader.Loop.{main_loop-leave, main_loop-again}
use lkm_char_dev.TelemReader.EndToEnd.{prints_log}

-- How the driver answers the turns of the loop, from a total, a file and the log on: a turn that
-- leaves the loop or goes on with nothing, the end of the list being the test of the loop that finds
-- `g_running` cleared, or one whose `read` is `gpu_telem_read` on a ring into
-- which `more` was pushed meanwhile. Last come the samples that the file was given, how many it
-- missed, and the log at the last of these reads.
pub data Driven (most : ℤ) : ℕ → File → Log → List Turn → List GpuSample → ℕ → Log → Type 0 where
  over : {total : ℕ} {f : File} {h : Log} → Driven most total f h [] [] 0 h
  left :
      {total : ℕ} {f : File} {h : Log} {t : Turn} {ts : List Turn}
      → turn_outcome most total t ≡ leave
      → Driven most total f h (t ∷ ts) [] 0 h
  went_on :
      {total : ℕ} {f : File} {h : Log} {t : Turn} {ts : List Turn} {given : List GpuSample}
      {missed : ℕ} {h' : Log}
      → turn_outcome most total t ≡ again
      → Driven most total f h ts given missed h'
      → Driven most total f h (t ∷ ts) given missed h'
  fed :
      {total : ℕ} {f : File} {h : Log} {t : Turn} {ts : List Turn} {given : List GpuSample}
      {missed : ℕ} {h' : Log} {k : ReadCalls} {r r' : RingBuf} {next : ℕ} {res : ReadResult}
      (more : Log)
      → t.running ≡ true
      → wants_more most total ≡ true
      → t.poll ≡ polled true
      → (s : Served k r f (want most total * sample_size) next r' (h ++ more))
      → k.copy_to_user (encode_all (taken s)) ≡ 0
      → gpu_telem_read k r f (want most total * sample_size) ≡ some res
      → t.read (want most total * sample_size) ≡ received res.sent
      → Driven most (u64 (total + length (taken s))) res.file (h ++ more) ts given missed h'
      → Driven most total f h
          (t ∷ ts)
          (taken s ++ given)
          (lost r'.size (h ++ more) next + missed)
          h'

numbered-append :
    (i : ℕ) (xs ys : List GpuSample)
    → numbered i (xs ++ ys) ≡ numbered i xs ++ numbered (i + length xs) ys
unfolding numbered
numbered-append i [] ys = ap (λ n. numbered n ys) (omega arith)
numbered-append i (x ∷ xs) ys =
    ap (λ t. (i, x) ∷ t)
      (numbered-append (i + 1) xs ys ∙ ap (λ n. numbered (i + 1) xs ++ numbered n ys) (omega arith))

-- The loop prints what the file was given, numbered from the total on.
pub loop_prints :
    {most : ℤ} {total : ℕ} {f : File} {h : Log} {ts : List Turn} {given : List GpuSample}
    {missed : ℕ} {h' : Log}
    → Driven most total f h ts given missed h'
    → total + length given < 2 ^ 64
    → main_loop most total ts ≡ (numbered total given, total + length given)
unfolding main_loop numbered
loop_prints over fits = ap (λ n. ([], n)) (omega arith)
loop_prints {most} {total} (left {t} {ts} e) fits =
    main_loop-leave most total t ts e ∙ ap (λ n. ([], n)) (omega arith)
loop_prints {most} {total} (went_on {t} {ts} e d) fits =
    main_loop-again most total t ts e ∙ loop_prints d fits
loop_prints {most} {total} (fed {t} {ts} {given} more on wants there s copied returns got d) fits =
    let count = length-append (taken s) given in
    let whole : u64 (total + length (taken s)) ≡ total + length (taken s) = omega (arith, count) in
    let rest =
      loop_prints d (omega (arith, count, whole))
      ∙ ap (λ n. (numbered n given, n + length given)) whole in
    prints_log most total t ts on wants there s copied returns got
    ∙ ap (λ o. (numbered total (taken s) ++ o.0, o.1)) rest
    ∙ ap₂ (λ ps n. (ps, n)) (sym (numbered-append total (taken s) given)) (omega (arith, count))

-- A longer log.
grown-ReaderOk :
    {h : Log} (more : Log) (x : Reader) → ReaderOk h pushed x → ReaderOk (h ++ more) pushed x
grown-ReaderOk {h} [] x ok = subst (λ l. ReaderOk l pushed x) (sym (append-nil h)) ok
grown-ReaderOk {h} (a ∷ more) x ok =
    subst (λ l. ReaderOk l pushed x) (append_assoc h (a ∷ []) more)
      (grown-ReaderOk more x (push-ReaderOk a x ok))

-- What a file was given and missed, on top of what it had.
abbrev pub reader_after : Reader → ℕ → ℕ → List GpuSample → Reader
reader_after x n missed given = record {
  pc = idle;
  next = n;
  start = x.start;
  missed = x.missed + missed;
  given = x.given ++ given;
  faults = x.faults;
  unreported = x.unreported;
}

reader_after-twice :
    (x : Reader) (n n' missed missed' : ℕ) (given given' : List GpuSample)
    → reader_after (reader_after x n missed given) n' missed' given'
      ≡ reader_after x n' (missed + missed') (given ++ given')
reader_after-twice x n n' missed missed' given given' =
    let count : x.missed + missed + missed' ≡ x.missed + (missed + missed') = omega arith in
    λ i. record {
      pc = idle;
      next = n';
      start = x.start;
      missed = count i;
      given = append_assoc x.given given given' i;
      faults = x.faults;
      unreported = x.unreported;
    }

unmoved-ReaderOk :
    {h : Log} (x : Reader)
    → ReaderOk h pushed x
    → (n : ℕ) × ReaderOk h pushed (reader_after x n 0 [])
unmoved-ReaderOk x ok =
    let same : x.missed + 0 ≡ x.missed = omega arith in
    (x.next, rw (same, append-nil) (move-ReaderOk x idle ok tt))

-- What holds of a file's reader holds after a run.
pub Driven-ReaderOk :
    {most : ℤ} {total : ℕ} {f : File} {h : Log} {ts : List Turn} {given : List GpuSample}
    {missed : ℕ} {h' : Log} (x : Reader)
    → Driven most total f h ts given missed h'
    → f.private_data ≡ some x.next
    → ReaderOk h pushed x
    → (n : ℕ) × ReaderOk h' pushed (reader_after x n missed given)
Driven-ReaderOk x over at ok = unmoved-ReaderOk x ok
Driven-ReaderOk x (left e) at ok = unmoved-ReaderOk x ok
Driven-ReaderOk x (went_on e d) at ok = Driven-ReaderOk x d at ok
Driven-ReaderOk {most} {total} {h} x
      (fed {given} {missed} {h'} {r} {r'} {next} more on wants there s copied returns got d) at ok =
    let count = room r.size (want most total * sample_size) in
    let here : x.next ≡ next = some_inj (sym at ∙ s.opened) in
    let away = lost r'.size (h ++ more) next in
    let x' = reader_after x (position s) away (taken s) in
    let ok' : ReaderOk (h ++ more) pushed x' =
      subst
        (λ n. ReaderOk (h ++ more) pushed (
          reader_after x
            (first r'.size (h ++ more) n + length (Log.read r'.size (h ++ more) n count))
            (lost r'.size (h ++ more) n) (Log.read r'.size (h ++ more) n count)))
        here (consume-ReaderOk r'.size count x (grown-ReaderOk more x ok)) in
    let (res', returns', _, _, _, _, stands, _) = read_delivers s copied in
    let same = some_inj (sym returns' ∙ returns) in
    let (n, after) = Driven-ReaderOk x' d (ap (λ z. z.file.private_data) (sym same) ∙ stands) ok' in
    (
      n,
      subst (λ y. ReaderOk h' pushed y)
          (reader_after-twice x (position s) n away missed (taken s) given) after,
    )
