-- ===== src/TelemReader/Main/Short.antt =====
-- The samples whose values fit the columns of the reader.
use lkm_char_dev.Base.{
  ℕ, ◌^◌, ◌≤◌, ◌<◌, ◌≡◌, refl, arith, true, List, [], ◌∷◌, map, All, length, length-take, take,
  take_all, Bool-cases, inl, inr,
}
use lkm_char_dev.Base.Int.{is_minus_one}
use lkm_char_dev.Uapi.{GpuSample, IsSample}
use lkm_char_dev.Printing.{Printf}
use lkm_char_dev.Printing.Columns.{trim}
use lkm_char_dev.Printing.Documented.{IsPrintf, decimal-IsClean}
use lkm_char_dev.Printing.Lines.{is_plain}
use lkm_char_dev.TelemReader.{throttle_text}
use lkm_char_dev.TelemReader.Main.{print_sample}
use lkm_char_dev.TelemReader.Main.Output.{IsTidy}

module _ (p : Printf) where
  -- A sample whose numbers are no longer than their columns.
  abbrev pub IsShort : ℕ × GpuSample → Type 0
  IsShort (idx, s) =
      IsSample s
      × (idx < 10 ^ 7)
      × (s.fan_rpm < 10 ^ 8)
      × (length (print_sample p (idx, s)).temp ≤ 9)
      × (length (p.fixed 0 3 (print_sample p (idx, s)).power) ≤ 10)

module _ (p : Printf) (doc : IsPrintf p) where
  temp_lem :
      (idx : ℕ) (s : GpuSample)
      → length (print_sample p (idx, s)).temp ≤ 9
      → (trim (print_sample p (idx, s)).temp ≡ (print_sample p (idx, s)).temp)
        × (is_plain (print_sample p (idx, s)).temp ≡ true)
  unfolding print_sample
  temp_lem idx s short = elim (Bool-cases (is_minus_one s.temp_millideg)) [
    | inl gone ↦ rw gone (refl, refl)
    | inr there ↦
        let t = p.fixed 7 2 (p.div (p.of_int s.temp_millideg) (p.of_nat 1000)) in
        let (plain, ends) =
          doc.fixed_clean 7 2 (p.div (p.of_int s.temp_millideg) (p.of_nat 1000)) in
        let few : length (take 15 t) ≤ 9 = rw there at short in
        rw (there, take_all t 15 (omega (arith, few, length-take 15 t))) (ends, plain)
  ]

  throttle-plain : (r : ℕ) → is_plain (throttle_text r) ≡ true
  unfolding throttle_text
  throttle-plain r = ground arith

  decimal-fits :
      (n k : ℕ)
      → 1 ≤ k
      → n < 10 ^ k
      → (length (p.decimal n) ≤ k) × (trim (p.decimal n) ≡ p.decimal n)
  decimal-fits n k some few = (doc.decimal_short n k some few, (decimal-IsClean doc n).1)

  IsShort-IsTidy : (x : ℕ × GpuSample) → IsShort p x → IsTidy p (print_sample p x)
  unfolding print_sample
  IsShort-IsTidy (idx, s) (ok, few, slow, warm, weak) =
      let (blank, plain) = temp_lem idx s warm in
      let power = p.div (p.of_nat s.power_uw) (p.of_nat 1000000) in
      let (a0, a1) = decimal-fits idx 7 (omega arith) few in
      let (b0, b1) = decimal-fits s.timestamp_ns 20 (omega arith) (omega (arith, ok.time_fits)) in
      let (c0, c1) = decimal-fits s.fan_rpm 8 (omega arith) slow in
      let (d0, d1) = decimal-fits s.core_freq_mhz 10 (omega arith) (omega (arith, ok.core_fits)) in
      (
        (
          a0,
          a1,
          (b0, b1, (warm, blank, (c0, c1, (weak, (doc.fixed_clean 0 3 power).1, (d0, d1, tt))))),
        ),
        (
          (decimal-IsClean doc idx).0,
          (
            (decimal-IsClean doc s.timestamp_ns).0,
            (
              plain,
              (
                (decimal-IsClean doc s.fan_rpm).0,
                (
                  (doc.fixed_clean 0 3 power).0,
                  (
                    (decimal-IsClean doc s.core_freq_mhz).0,
                    (throttle-plain s.throttle_reasons, tt),
                  ),
                ),
              ),
            ),
          ),
        ),
      )

  pub map-IsTidy :
      (xs : List (ℕ × GpuSample)) → All (IsShort p) xs → All (IsTidy p) (map (print_sample p) xs)
  map-IsTidy [] short = tt
  map-IsTidy (x ∷ xs) (one, short) = (IsShort-IsTidy x one, map-IsTidy xs short)
