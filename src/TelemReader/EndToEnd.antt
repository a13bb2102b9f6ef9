-- ===== src/TelemReader/EndToEnd.antt =====
-- The reader's loop on top of the driver's `gpu_telem_read`.
use lkm_char_dev.Base.{ℕ, ◌+◌, ◌*◌, ◌≤◌, ◌≡◌, ◌∙◌, ap, sym, subst, refl, arith}
use lkm_char_dev.Base.{List, [], ◌∷◌, ◌++◌, some, some_inj, true, length, u64}
use lkm_char_dev.Base.Int.{ℤ}
use lkm_char_dev.Uapi.{sample_size}
use lkm_char_dev.Uapi.Layout.{encode_all}
use lkm_char_dev.Log.{Log}
use lkm_char_dev.Ring.{RingBuf}
use lkm_char_dev.Device.{File, ReadCalls, ReadResult, gpu_telem_read}
use lkm_char_dev.Device.Read.{Served, taken, taken_samples, read_delivers}
use lkm_char_dev.TelemReader.{
  Turn, polled, received, want, wants_more, numbered, batch, turn_outcome, main_loop,
}
use lkm_char_dev.TelemReader.Loop.{main_loop_prints}

-- A turn of the loop that reads, and gets some bytes.
turn_reads :
    (most : ℤ) (total : ℕ) (t : Turn) (bs : List ℕ)
    → t.running ≡ true
    → wants_more most total ≡ true
    → t.poll ≡ polled true
    → t.read (want most total * sample_size) ≡ received bs
    → 1 ≤ length bs
    → turn_outcome most total t ≡ batch bs
unfolding turn_outcome
turn_reads most total t [] on more there got some_bytes = absurd (omega arith)
turn_reads most total t (b ∷ bs) on more there got some_bytes = rw (on, more, there, got) refl

-- From the ring to the output: a turn of the reader's loop that is to read, on a device whose
-- `poll` reports data and whose `read` answers with what `gpu_telem_read` sends for that size,
-- prints the samples that a reading of the ring's log from the file's position returns, numbered
-- from the total on, and the loop goes on behind them. Conditions: the file is open, the batch has
-- room for a sample, there is memory for the copy, `copy_to_user` copies everything, and the wait
-- has returned 0 and left a ring of the same size that represents a log and has data for the file.
pub prints_log :
    (most : ℤ) (total : ℕ) (t : Turn) (ts : List Turn)
    → t.running ≡ true
    → wants_more most total ≡ true
    → t.poll ≡ polled true
    → {k : ReadCalls} {r : RingBuf} {f : File} {next : ℕ} {r' : RingBuf} {h : Log}
      {res : ReadResult}
    → (s : Served k r f (want most total * sample_size) next r' h)
    → k.copy_to_user (encode_all (taken s)) ≡ 0
    → gpu_telem_read k r f (want most total * sample_size) ≡ some res
    → t.read (want most total * sample_size) ≡ received res.sent
    → let (rest, total') = main_loop most (u64 (total + length (taken s))) ts in
      main_loop most total (t ∷ ts) ≡ (numbered total (taken s) ++ rest, total')
prints_log most total t ts on more there {res} s copied returns got =
    let (res', returns', bytes, _, enough, _, _, _) = read_delivers s copied in
    let same : res' ≡ res = some_inj (sym returns' ∙ returns) in
    let sent : res.sent ≡ encode_all (taken s) = ap (λ x. x.sent) (sym same) ∙ bytes in
    let sent_some : 1 ≤ length res'.sent = omega (arith, enough) in
    let some_bytes : 1 ≤ length (encode_all (taken s)) =
      subst (λ b. 1 ≤ length b) bytes sent_some in
    main_loop_prints most total t ts (taken s) (taken_samples s) (
      turn_reads most total t (encode_all (taken s)) on more there (got ∙ ap received sent)
        some_bytes)
