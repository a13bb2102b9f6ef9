-- ===== src/Nvml/Snapshot.antt =====
-- The snapshot of the comparison tool on top of the driver's `open` and `read`.
use lkm_char_dev.Base.{ℕ, zero, suc, ◌-◌, ◌≤◌, ◌≡◌, ◌∙◌, ap, sym, subst, refl, arith, true}
use lkm_char_dev.Base.{
  List, [], ◌∷◌, ◌++◌, some, some_inj, length, take, drop, get_elem?, append-nil, All,
}
use lkm_char_dev.Uapi.{GpuSample, IsSample, sample_size}
use lkm_char_dev.Uapi.Layout.{encode_all, decode-encode, length-encode}
use lkm_char_dev.Log
use lkm_char_dev.Log.{Log, first}
use lkm_char_dev.Ring.{RingBuf}
use lkm_char_dev.Ring.Invariant.{Represents, size_pos}
use lkm_char_dev.Device.{Device, File, ReadCalls, ReadResult, gpu_telem_read}
use lkm_char_dev.Device.Files.{opened_file, opened_file-next, read_from_end}
use lkm_char_dev.Device.Read.{Served, taken, taken_samples, taken_bounds, room, read_delivers}
use lkm_char_dev.Printing.{Text}
use lkm_char_dev.TelemReader.{received}
use lkm_char_dev.Nvml.{DeviceCalls, whole_sample, read_kernel_sample}

-- A list of which one element can be taken starts with it.
take_one {ℓ} :
    {A : Type ℓ} (n : ℕ) (xs : List A)
    → 1 ≤ length (take 1 (drop n xs))
    → (a : A) × (take 1 (drop n xs) ≡ a ∷ []) × (get_elem? xs n ≡ some a)
take_one zero [] le = absurd (omega arith)
take_one (suc n) [] le = absurd (omega arith)
take_one zero (x ∷ xs) le = (x, refl, refl)
take_one (suc n) (x ∷ xs) le = take_one n xs le

-- The bytes of one sample are a whole sample.
whole_sample-encode :
    (a : GpuSample) → IsSample a → whole_sample (received (encode_all (a ∷ []))) ≡ some a
unfolding whole_sample encode_all
whole_sample-encode a v = rw append-nil (rw (length-encode a v) (ap some (decode-encode a v)))

-- The comparison tool never shows a sample from before its start: where the ring represents the
-- log `h` when the tool opens the device, its read of one sample is served by `gpu_telem_read`
-- with a ring that represents `h` with `more` behind it, everything is copied, and that is what
-- the tool receives, it takes the bytes as a whole sample, which is the oldest of `more` that the
-- ring still has.
pub snapshot_fresh :
    (d : Device) (f : File) (k : DeviceCalls) (dev : Text) (more : Log)
    → {h : Log} {kc : ReadCalls} {next : ℕ} {r' : RingBuf} {res : ReadResult} → Represents d.ring h
    → (s : Served kc d.ring (opened_file d f) sample_size next r' (h ++ more))
    → kc.copy_to_user (encode_all (taken s)) ≡ 0
    → gpu_telem_read kc d.ring (opened_file d f) sample_size ≡ some res
    → k.open_ok dev ≡ true
    → k.read dev sample_size ≡ received res.sent
    → (a : GpuSample) × ((read_kernel_sample k dev).0 ≡ some a)
      × (get_elem? more (length more - r'.size) ≡ some a)
unfolding read_kernel_sample
snapshot_fresh d f k dev more {h} {next} {r'} before s copied returns opens got =
    let at : next ≡ length h = some_inj (sym s.opened ∙ opened_file-next d f before) in
    let one : room d.ring.size sample_size ≡ 1 =
      omega (arith, s.same_size, size_pos s.represents.valid) in
    let tail : taken s ≡ take 1 (drop (length more - r'.size) more) =
      ap (λ n. Log.read r'.size (h ++ more) n (room d.ring.size sample_size)) at
      ∙ ap (Log.read r'.size (h ++ more) (length h)) one
      ∙ read_from_end r'.size h more 1 in
    let (a, single, found) =
      take_one (length more - r'.size) more (subst (λ t. 1 ≤ length t) tail (taken_bounds s).0) in
    let only : taken s ≡ a ∷ [] = tail ∙ single in
    let (res', returns', bytes, _, _, _, _, _) = read_delivers s copied in
    let same = some_inj (sym returns ∙ returns') in
    let sent = ap (λ x. x.sent) same ∙ bytes ∙ ap encode_all only in
    let fits = (subst (All IsSample) only (taken_samples s)).0 in
    (a, rw opens (ap whole_sample (got ∙ ap received sent) ∙ whole_sample-encode a fits), found)
