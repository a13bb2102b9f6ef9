-- ===== src/Driver/Reads.antt =====
-- What one `gpu_telem_read` does to the ring and to the file: nothing, or a `ring_consume`.
use lkm_char_dev.Base.{
  ℕ, ◌/◌, ◌^◌, ◌≤◌, ◌<◌, ◌≡◌, ◌≢◌, ◌⊎◌, ◌∙◌, refl, sym, ap, arith, inl, inr, true, false,
  Bool-cases, Option-cases, Bool, if◌then◌else◌, ◌==◌, Option, none, some, some_inj, List, [], min,
  ltb, ◌>>=◌, u32,
}
use lkm_char_dev.Base.Int.{ℤ, pos, is_neg, is_zero}
use lkm_char_dev.Uapi.{GpuSample, sample_size}
use lkm_char_dev.Uapi.Layout.{encode_all}
use lkm_char_dev.Ring.{RingBuf, Consumed, ring_consume, ring_data_available}
use lkm_char_dev.Device.{File, ReadCalls, ReadResult, await, transfer, deliver, gpu_telem_read}
use lkm_char_dev.Device.Errno.{eagain, efault}
use lkm_char_dev.Driver.{IsWait, reported}

-- A read that took nothing.
pub record Kept (r : RingBuf) (f : File) (res : ReadResult) : Type 0 where
  pub ring : res.ring ≡ r
  pub file : res.file ≡ f
  pub sent : reported res ≡ []

-- A read that took what `ring_consume` gave it, when there was data, and reports it or fails.
pub record Took (r : RingBuf) (f : File) (next : ℕ) (res : ReadResult) : Type 0 where
  pub most : ℕ
  pub consumed : Consumed
  pub some_room : 1 ≤ most
  pub small : most < 2 ^ 32
  pub available : ring_data_available r next ≡ true
  pub consumes : ring_consume r next most ≡ some consumed
  pub ring : res.ring ≡ consumed.ring
  pub file : res.file ≡ record f { private_data = some consumed.next_seq }
  pub out : List GpuSample
  pub all_or_none : (out ≡ consumed.out) ⊎ ((out ≡ []) × (res.ret ≡ efault))
  pub sent : reported res ≡ encode_all out

-- A read that took something and did not fail reports all of it.
pub unless_fault :
    {r : RingBuf} {f : File} {next : ℕ} {res : ReadResult} (took : Took r f next res)
    → res.ret ≢ efault
    → took.out ≡ took.consumed.out
unless_fault took ne = elim took.all_or_none [
  | inl all ↦ all
  | inr (gone, fault) ↦ absurd (ne fault)
]

no_bytes : (b : Bool) → ◌≡◌ {A = List ℕ} (if b then [] else []) []
no_bytes true = refl
no_bytes false = refl

kept_lem :
    (r : RingBuf) (f : File) (ret : ℤ) {res : ReadResult}
    → ◌≡◌ {A = Option ReadResult}
        (some (record { ret = ret; ring = r; file = f; sent = [] }))
        (some res)
    → Kept r f res
kept_lem r f ret e =
    let same = sym (some_inj e) in
    record {
      ring = ap (λ x. x.ring) same;
      file = ap (λ x. x.file) same;
      sent = ap reported same ∙ no_bytes (is_neg ret);
    }

module _ (k : ReadCalls) (r : RingBuf) (f : File) (next : ℕ) where
  -- The wait leaves the ring, and returns 0 only if there is data.
  pub await-cases :
      IsWait k r next
      → ((ring_data_available r next ≡ true) × (await k r f next ≡ (pos 0, r)))
        ⊎ ((ret : ℤ) × (is_zero ret ≡ false) × (await k r f next ≡ (ret, r)))
  unfolding await
  await-cases w = elim (Bool-cases f.nonblock) [
    | inl on ↦ elim (Bool-cases (ring_data_available r next)) [
      | inl there ↦ inl (there, rw (on, there) refl)
      | inr missing ↦ inr (eagain, refl, rw (on, missing) refl)
    ]
    | inr off ↦ elim w [
      | inl (there, waits) ↦ inl (there, rw off waits)
      | inr (ret, failed, waits) ↦ inr (ret, failed, rw off waits)
    ]
  ]

  module _ (most : ℕ) (c : Consumed) {res : ReadResult} (some_room : 1 ≤ most)
      (small : most < 2 ^ 32) (there : ring_data_available r next ≡ true)
      (consumes : ring_consume r next most ≡ some c) where
    -- With a code, some bytes in the user's buffer, and what is reported of them.
    deliver_reports :
        (ret : ℤ) (bs : List ℕ) (out : List GpuSample)
        → (out ≡ c.out) ⊎ ((out ≡ []) × (ret ≡ efault))
        → (if is_neg ret then [] else bs) ≡ encode_all out
        → record {
          ret = ret;
          ring = c.ring;
          file = record f { private_data = some c.next_seq };
          sent = bs;
        }
          ≡ res
        → Took r f next res
    deliver_reports ret bs out which bytes same = record {
      most = most;
      consumed = c;
      some_room = some_room;
      small = small;
      available = there;
      consumes = consumes;
      ring = ap (λ x. x.ring) (sym same);
      file = ap (λ x. x.file) (sym same);
      out = out;
      all_or_none = elim which [
        | inl all ↦ inl all
        | inr (gone, fault) ↦ inr (gone, ap (λ x. x.ret) (sym same) ∙ fault)
      ];
      sent = ap reported (sym same) ∙ bytes;
    }

    took_lem : deliver k f c ≡ res → Took r f next res
    unfolding deliver encode_all
    took_lem e = elim (Bool-cases (k.copy_to_user (encode_all c.out) == 0)) [
      | inl copied ↦ deliver_reports _ _ c.out (inl refl) refl (rw copied at e)
      | inr failed ↦ deliver_reports _ _ [] (inr (refl, refl)) refl (rw failed at e)
    ]

  -- With data there, and the wait over.
  transfer-zero :
      (most : ℕ) {res : ReadResult}
      → 1 ≤ most
      → most < 2 ^ 32
      → ring_data_available r next ≡ true
      → transfer k f next most (pos 0, r) ≡ some res
      → Kept r f res ⊎ Took r f next res
  unfolding transfer
  transfer-zero most {res} some_room small there e =
      elim (Bool-cases (k.kmalloc_array most sample_size)) [
        | inl memory ↦ elim (Option-cases (ring_consume r next (u32 most))) [
          | inl fault ↦
              let wrong : ◌≡◌ {A = Option ReadResult} none (some res) = rw (memory, fault) at e in
              cc
          | inr (c, consumes) ↦ inr (
              took_lem most c some_room small there
                (ap (ring_consume r next) (omega arith) ∙ consumes)
                (some_inj (rw (memory, consumes) at e)))
        ]
        | inr no_memory ↦ inl (kept_lem r f _ (rw no_memory at e))
      ]

  transfer-cases :
      (most : ℕ) {res : ReadResult}
      → 1 ≤ most
      → most < 2 ^ 32
      → IsWait k r next
      → transfer k f next most (await k r f next) ≡ some res
      → Kept r f res ⊎ Took r f next res
  unfolding transfer
  transfer-cases most some_room small w e = elim (await-cases w) [
    | inl (there, waits) ↦
        transfer-zero most some_room small there (ap (transfer k f next most) (sym waits) ∙ e)
    | inr (ret, failed, waits) ↦ inl (kept_lem r f ret (rw (waits, failed) at e))
  ]

  pub read-cases :
      (count : ℕ) {res : ReadResult}
      → 1 ≤ r.size
      → r.size ≤ 4096
      → f.private_data ≡ some next
      → IsWait k r next
      → gpu_telem_read k r f count ≡ some res
      → Kept r f res ⊎ Took r f next res
  unfolding gpu_telem_read
  read-cases count lo hi opened w e = elim (Bool-cases (ltb count sample_size)) [
    | inl short ↦ inl (kept_lem r f _ (rw short at e))
    | inr enough ↦
        transfer-cases (min (count / sample_size) r.size) (ground arith) (omega arith) w (
          sym (
            ap (λ o. o >>= λ n. transfer k f n (min (count / sample_size) r.size) (await k r f n))
              opened)
          ∙ (rw enough at e))
  ]
