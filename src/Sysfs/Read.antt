-- ===== src/Sysfs/Read.antt =====
-- `sysfs_read_s64` on a file that holds a text with blanks or newlines behind it.
use lkm_char_dev.Base.{ℕ, zero, suc, ◌+◌, ◌-◌, ◌≤◌, ◌<◌, ◌≡◌, ◌∙◌, ap, refl, arith, true, false}
use lkm_char_dev.Base.{
  List, [], ◌∷◌, ◌++◌, none, some, length, get_elem?, All, take-append, get_elem?-append_lt,
  get_elem?-append_self, length-append, ◌==◌, take,
}
use native.Mathlib.Decide.{dec_lt}
use lkm_char_dev.Sysfs.{
  FileCalls, got, is_blank, trim_length, c_string, trimmed, parse_s64, sysfs_read_s64,
}
use lkm_char_dev.Sysfs.Trim.{trim_length-le, trim_length_cuts_blanks, trim_length_keeps_solid}

abbrev pub IsBlank : ℕ → Type 0
IsBlank b = is_blank (some b) ≡ true

-- Behind a text there are blanks only.
blank_behind :
    (text blanks : List ℕ) (i : ℕ)
    → All IsBlank blanks
    → length text ≤ i
    → i < length text + length blanks
    → is_blank (get_elem? (text ++ blanks) i) ≡ true
blank_behind [] [] i p le lt = absurd (omega arith)
blank_behind [] (b ∷ blanks) zero p le lt = p.0
blank_behind [] (b ∷ blanks) (suc i) p le lt =
    blank_behind [] blanks i p.1 (omega arith) (omega arith)
blank_behind (t ∷ text) blanks zero p le lt = absurd (omega arith)
blank_behind (t ∷ text) blanks (suc i) p le lt =
    blank_behind text blanks i p (omega arith) (omega arith)

-- The loop stops behind the last byte that is no blank.
trim_length-eq :
    (buf : List ℕ) (n m : ℕ)
    → suc m ≤ n
    → ((i : ℕ) → suc m ≤ i → i < n → is_blank (get_elem? buf i) ≡ true)
    → is_blank (get_elem? buf m) ≡ false
    → trim_length buf n ≡ suc m
trim_length-eq buf n m le blank solid = elim (dec_lt m (trim_length buf n)) [
  | yes more ↦ elim (dec_lt (suc m) (trim_length buf n)) [
    | yes past ↦
        let i = trim_length buf n - 1 in
        let within : i < n = omega (arith, trim_length-le buf n) in
        let is_solid = trim_length_keeps_solid buf n i (omega arith) in
        absurd (ground (arith, is_solid, blank i (omega arith) within))
    | no there ↦ omega arith
  ]
  | no less ↦ absurd (ground (arith, trim_length_cuts_blanks buf n m (omega arith) (omega arith)))
]

c_string-eq : (text : List ℕ) → All (λ b. (b == 0) ≡ false) text → c_string text ≡ text
c_string-eq [] p = refl
c_string-eq (b ∷ text) p = rw p.0 (ap (λ t. b ∷ t) (c_string-eq text p.1))

parse_s64-got :
    (k : FileCalls) (bs : List ℕ) → 1 ≤ length bs → parse_s64 k (got bs) ≡ k.kstrtos64 (trimmed bs)
unfolding parse_s64
parse_s64-got k [] some_bytes = absurd (omega arith)
parse_s64-got k (b ∷ bs) some_bytes = refl

module _ (text : List ℕ) (last : ℕ) (blanks : List ℕ) where
  -- A text that ends in a byte which is no blank, with blanks behind it.
  abbrev pub content : List ℕ
  content = (text ++ last ∷ []) ++ blanks

  trimmed-eq :
      is_blank (some last) ≡ false
      → All IsBlank blanks
      → All (λ b. (b == 0) ≡ false) (text ++ last ∷ [])
      → trimmed content ≡ text ++ last ∷ []
  unfolding trimmed
  trimmed-eq solid blank no_nul =
      ap (λ n. c_string (take n content)) stops
      ∙ ap c_string (take-append (text ++ last ∷ []) blanks (suc (length text)) one_more)
      ∙ c_string-eq (text ++ last ∷ []) no_nul
    where
      one_more : suc (length text) ≡ length (text ++ last ∷ [])
      one_more = omega (arith, length-append text (last ∷ []))

      total : length content ≡ length (text ++ last ∷ []) + length blanks
      total = length-append (text ++ last ∷ []) blanks

      ends : get_elem? content (length text) ≡ some last
      ends =
          get_elem?-append_lt (text ++ last ∷ []) blanks (length text) (omega (arith, one_more))
          ∙ get_elem?-append_self text last

      stops : trim_length content (length content) ≡ suc (length text)
      stops =
          trim_length-eq content (length content) (length text) (omega (arith, total, one_more))
            (λ i from to.
              blank_behind (text ++ last ∷ []) blanks i blank (omega (arith, one_more, from))
                (omega (arith, total, to)))
            (ap is_blank ends ∙ solid)

  -- A sysfs file that can be opened, and whose first 31 bytes are a text without NUL that ends in
  -- neither a newline nor a blank, with any newlines and blanks behind it, is read as that text:
  -- `sysfs_read_s64` returns the code and the value of `kstrtos64` on exactly it.
  pub reads_text :
      (k : FileCalls) (path : List ℕ)
      → k.filp_open path ≡ none
      → k.kernel_read path 31 ≡ got content
      → is_blank (some last) ≡ false
      → All IsBlank blanks
      → All (λ b. (b == 0) ≡ false) (text ++ last ∷ [])
      → sysfs_read_s64 k path ≡ k.kstrtos64 (text ++ last ∷ [])
  unfolding sysfs_read_s64
  reads_text k path opens reads solid blank no_nul =
      rw (opens, reads, sysfs_read_s64)
        (parse_s64-got k content (
            omega (arith, length-append (text ++ last ∷ []) blanks, length-append text (last ∷ [])))
          ∙ ap k.kstrtos64 (trimmed-eq solid blank no_nul))
