-- ===== src/Printing.antt =====
-- What the programs under user/ use of C's `double` and of `printf`. How a `double` is computed and
-- how a number is printed is the C library's: an interface. Which conversion of a format string
-- takes which type of argument is C's rule; any other pair is undefined behaviour, here `none`.
-- Python's `float` is a `double`, and its format codes `.1f` and `.3f` print it as C's do.
pub mod Columns
pub mod Lines
pub mod Documented
use lkm_char_dev.Base.{ℕ, List, Option, none, some}
use lkm_char_dev.Base.Int.{ℤ}

abbrev pub Text : Type 0
Text = List ℕ

pub record Printf : Type 1 where
  pub Double : Type 0  -- of which nothing else is known
  pub of_int : ℤ → Double
  pub of_nat : ℕ → Double
  pub div : Double → Double → Double
  pub sub : Double → Double → Double
  pub fixed : (width precision : ℕ) → Double → Text
  pub decimal : ℕ → Text
  pub hex : (width : ℕ) → ℕ → Text

-- An argument with its C type.
pub data Arg (p : Printf) : Type 0 where
  double : p.Double → Arg p
  unsigned : ℕ → Arg p
  long_long : ℕ → Arg p

-- `%.<n>f`, `%u` and `%llu`.
pub data Conversion : Type 0 where
  f : ℕ → Conversion
  u : Conversion
  llu : Conversion

module _ (p : Printf) where
  unfoldable pub print_arg : Conversion → Arg p → Option Text
  print_arg (f n) (double x) = some (p.fixed 0 n x)
  print_arg u (unsigned n) = some (p.decimal n)
  print_arg llu (long_long n) = some (p.decimal n)
  print_arg _ _ = none
