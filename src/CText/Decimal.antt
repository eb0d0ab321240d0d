-- ===== src/CText/Decimal.antt =====
-- Decimal numbers as the C library prints and reads them: `%d` of snprintf and sscanf, and atoi.
-- An int has 32 bits; a text whose number does not fit has no defined result.
pub mod RoundTrip
pub mod Digits
use tcos.Base.{
  ℕ, zero, suc, ◌+◌, ◌-◌, ◌*◌, ◌/◌, ◌%◌, ◌^◌, ℤ, pos, negsuc, Bool, true, false, ◌&&◌, ◌||◌, Option,
  none, some, Bytes, List, [], ◌∷◌, ◌++◌, ◌==◌, ltb, leb, if◌then◌else◌,
}

abbrev pub int_limit : ℕ
int_limit = 2 ^ 31

-- The decimal digits of `n`, at most as many as there is fuel, in front of `out`.
unfoldable pub digits : ℕ → ℕ → Bytes → Bytes
digits zero n out = out
digits (suc fuel) n out =
    let rest = digits fuel (n / 10) ((b'0' + n % 10) ∷ out) in
    if ltb n 10 then (b'0' + n) ∷ out else rest

-- An int has at most ten digits.
unfoldable pub print_int : ℤ → Bytes
print_int (pos n) = digits 10 n []
print_int (negsuc n) = b'-' ∷ digits 10 (n + 1) []

unfoldable pub is_digit : ℕ → Bool
is_digit c = leb b'0' c && leb c b'9'

unfoldable pub is_space : ℕ → Bool
is_space c = c == b' ' || (leb 9 c && leb c 13)

unfoldable pub skip_spaces : Bytes → Bytes
unfolding is_space
skip_spaces [] = []
skip_spaces (c ∷ s) = let rest = skip_spaces s in if is_space c then rest else c ∷ s

-- The number that the digits in front spell behind `n`, and the text left.
unfoldable pub read_digits : ℕ → Bytes → ℕ × Bytes
read_digits n [] = (n, [])
read_digits n (c ∷ s) =
    let rest = read_digits (n * 10 + (c - b'0')) s in if is_digit c then rest else (n, c ∷ s)

pub data Scan : Type 0 where
  mismatch : Scan
  overflow : Scan
  int : ℤ → Bytes → Scan

-- The digits behind the sign. -2147483648 is an int, 2147483648 is not.
unfoldable pub in_range : Bool → ℕ × Bytes → Scan
in_range true (zero, r) = int (pos zero) r
in_range true (suc n, r) = if ltb n int_limit then int (negsuc n) r else overflow
in_range false (n, r) = if ltb n int_limit then int (pos n) r else overflow

unfoldable pub scan_digits : Bool → Bytes → Scan
scan_digits neg [] = mismatch
scan_digits neg (c ∷ s) = if is_digit c then in_range neg (read_digits 0 (c ∷ s)) else mismatch

unfoldable pub scan_sign : Bytes → Scan
unfolding scan_digits
scan_sign [] = mismatch
scan_sign (c ∷ s) =
    if c == b'-'
    then scan_digits true s
    else if c == b'+'
    then scan_digits false s
    else scan_digits false (c ∷ s)

-- One `%d` of sscanf.
unfoldable pub scan_int : Bytes → Scan
unfolding scan_sign skip_spaces
scan_int s = scan_sign (skip_spaces s)

-- atoi: 0 where no number stands; no result where the number does not fit.
unfoldable pub atoi : Bytes → Option ℤ
unfolding scan_int in_range read_digits is_digit
atoi s = elim (scan_int s) [ mismatch ↦ some (pos 0) | overflow ↦ none | int v r ↦ some v ]
