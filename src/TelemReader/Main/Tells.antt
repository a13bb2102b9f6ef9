-- ===== src/TelemReader/Main/Tells.antt =====
-- The output of user/gpu_telem_reader.c, read back.
use lkm_char_dev.Base.{
  ℕ, ◌≡◌, ◌∙◌, refl, sym, ap, ap₂, subst, true, false, List, [], ◌∷◌, ◌++◌, map, drop, All,
}
use mathlib.Core.List.{map-map}
use lkm_char_dev.Base.Int.{ℤ, negsuc}
use lkm_char_dev.Sysfs.{bytes}
use lkm_char_dev.Device.{get_ring_size, get_interval_ms}
use lkm_char_dev.Printing.{Text, Printf}
use lkm_char_dev.Printing.Columns.{
  print_row, read_row, read_row-print_row, print_row-plain, print_row-full,
}
use lkm_char_dev.Printing.Documented.{IsPrintf, decimal-IsClean}
use lkm_char_dev.Printing.Lines.{
  is_plain, print_lines, read_lines-print_lines, until_empty, is_empty, until_empty-append,
  is_plain-append,
}
use lkm_char_dev.TelemReader.{main_loop}
use lkm_char_dev.TelemReader.Main.{
  go, parse_options, MainCalls, device_operand, ioctl_value, Line, print_sample, Event, opened,
  banner, line, closed, delivered, session, main,
}
use lkm_char_dev.TelemReader.Main.Short.{IsShort, map-IsTidy}
use lkm_char_dev.TelemReader.Main.Output.{
  widths, print_header, cells, event_lines, output_lines, main_output, read_output, IsTidy,
}

header-plain : All (λ t. is_plain t ≡ true) print_header
unfolding print_header print_row
header-plain = (refl, (refl, tt))

module _ (p : Printf) (doc : IsPrintf p) (prog : Text) (called : is_plain prog ≡ true) where
  -- The line of a sample.
  row : Line p → Text
  row l = print_row widths (cells p l)

  rows-lines :
      (ls : List (Line p)) (after : List (Event p))
      → output_lines p prog (map line ls ++ after) ≡ map row ls ++ output_lines p prog after
  unfolding output_lines event_lines row
  rows-lines [] after = refl
  rows-lines (l ∷ ls) after = ap (λ t. row l ∷ t) (rows-lines ls after)

  rows-plain :
      (ls : List (Line p)) (after : List Text)
      → All (IsTidy p) ls
      → All (λ t. is_plain t ≡ true) after
      → All (λ t. is_plain t ≡ true) (map row ls ++ after)
  unfolding row
  rows-plain [] after tidy plain = plain
  rows-plain (l ∷ ls) after (one, tidy) plain =
      (print_row-plain widths (cells p l) one.1, rows-plain ls after tidy plain)

  rows-full : (ls : List (Line p)) → All (λ t. is_empty t ≡ false) (map row ls)
  unfolding row
  rows-full [] = tt
  rows-full (l ∷ ls) = (print_row-full 7 _ _ _, rows-full ls)

  rows-read :
      (ls : List (Line p))
      → All (IsTidy p) ls
      → map (read_row widths) (map row ls) ≡ map (cells p) ls
  unfolding row
  rows-read [] tidy = refl
  rows-read (l ∷ ls) (one, tidy) =
      ap₂ (λ x xs. x ∷ xs) (read_row-print_row widths (cells p l) one.0) (rows-read ls tidy)

  -- The output of a whole session.
  lines_told :
      (dev : Text) (ring_sz interval total : ℕ) (ls : List (Line p))
      → is_plain dev ≡ true
      → All (IsTidy p) ls
      → read_output p (
          print_lines (
            output_lines p prog (
              opened dev ∷ banner ring_sz interval ∷ map line ls ++ closed ∷ delivered total ∷ [])))
        ≡ map (cells p) ls
  unfolding output_lines event_lines print_header
  lines_told dev ring_sz interval total ls named tidy =
      let tail : List (Event p) = closed ∷ delivered total ∷ [] in
      let last : List Text = output_lines p prog tail in
      let lines =
        output_lines p prog (opened dev ∷ banner ring_sz interval ∷ map line ls ++ tail) in
      let middle = rows-lines ls tail in
      let ends =
        is_plain-append (p.decimal total) (bytes " samples delivered.")
          ((decimal-IsClean doc total).0) refl in
      let plain_last : All (λ t. is_plain t ≡ true) last =
        (refl, (is_plain-append prog _ called ends, tt)) in
      let settings = is_plain-append (p.decimal ring_sz) _ ((decimal-IsClean doc ring_sz).0) (
        is_plain-append (p.decimal interval) (bytes " ms") ((decimal-IsClean doc interval).0)
          refl) in
      let rest =
        subst (All (λ t. is_plain t ≡ true)) (sym middle) (rows-plain ls last tidy plain_last) in
      let plain : All (λ t. is_plain t ≡ true) lines =
        (named, (settings, (refl, (header-plain.0, (header-plain.1.0, rest))))) in
      ap (λ t. map (read_row widths) (until_empty (drop 5 t))) (read_lines-print_lines lines plain)
      ∙ ap (λ t. map (read_row widths) (until_empty t)) middle
      ∙ ap (map (read_row widths)) (until_empty-append (map row ls) _ (rows-full ls))
      ∙ rows-read ls tidy

-- What is printed once the device is open.
output_lem :
    (p : Printf) (prog : Text) (c : MainCalls) (most : ℤ)
    → parse_options c.strtol (negsuc 0) c.options ≡ go most
    → c.open_ok (device_operand c.operands) ≡ true
    → main_output p prog c ≡ print_lines (output_lines p prog (session p c most))
unfolding main main_output
output_lem p prog c most wanted opens = rw (main_output, wanted, main, wanted, opens) refl

-- What the reader writes can be read back: for a `printf` that does what is documented of it, a
-- program name and a device path without newlines, options that make it go on and a device that
-- can be opened, where the samples printed have their fields within their C types, an index below
-- 10^7, a fan speed below 10^8, and a temperature and a power that are printed in at most 9 and 10
-- bytes, the lines between the header and the next empty line, cut by the widths of the columns,
-- are the texts of the samples' values, one line for each sample, in order.
pub output_tells_samples :
    (p : Printf) (prog : Text) (c : MainCalls) (most : ℤ)
    → IsPrintf p
    → is_plain prog ≡ true
    → is_plain (device_operand c.operands) ≡ true
    → parse_options c.strtol (negsuc 0) c.options ≡ go most
    → c.open_ok (device_operand c.operands) ≡ true
    → All (IsShort p) (main_loop most 0 c.turns).0
    → read_output p (main_output p prog c)
      ≡ map (λ x. cells p (print_sample p x)) (main_loop most 0 c.turns).0
unfolding session
output_tells_samples p prog c most doc called named wanted opens short =
    let printed = (main_loop most 0 c.turns).0 in
    let total = (main_loop most 0 c.turns).1 in
    let ls = map (print_sample p) printed in
    let told =
      lines_told p doc prog called (device_operand c.operands) (ioctl_value c get_ring_size)
        (ioctl_value c get_interval_ms) total ls named (map-IsTidy p doc printed short) in
    ap (read_output p) (output_lem p prog c most wanted opens)
    ∙ ap
        (λ es. read_output p (
          print_lines (
            output_lines p prog (
              opened (device_operand c.operands)
                ∷ banner (ioctl_value c get_ring_size) (ioctl_value c get_interval_ms)
                ∷ es
              ++ closed ∷ delivered total ∷ []))))
        (sym (map-map line (print_sample p) printed))
    ∙ told
    ∙ map-map (cells p) (print_sample p) printed
