-- ===== src/CText/Decimal/Digits.antt =====
-- The bytes of a printed number.
use tcos.Base.{
  ℕ, zero, suc, ◌+◌, ◌/◌, ◌%◌, ◌≤◌, ◌≢◌, ℤ, pos, negsuc, Bytes, [], ◌∷◌, arith, All, length,
}
use tcos.CText.Decimal.{digits, print_int}

length-digits : (fuel n : ℕ) (out : Bytes) → length (digits fuel n out) ≤ fuel + length out
unfolding digits
length-digits zero n out = omega arith
length-digits (suc fuel) n out = ground (arith, length-digits fuel (n / 10) ((b'0' + n % 10) ∷ out))

pub length-print_int : (v : ℤ) → length (print_int v) ≤ 11
unfolding print_int
length-print_int (pos n) = omega (arith, length-digits 10 n [])
length-print_int (negsuc n) = omega (arith, length-digits 10 (n + 1) [])

abbrev pub IsDigit : ℕ → Type 0
IsDigit c = (b'0' ≤ c) × (c ≤ b'9')

digits-IsDigit : (fuel n : ℕ) (out : Bytes) → All IsDigit out → All IsDigit (digits fuel n out)
unfolding digits
digits-IsDigit zero n out h = h
digits-IsDigit (suc fuel) n out h =
    ground (arith, digits-IsDigit fuel (n / 10) ((b'0' + n % 10) ∷ out) (omega arith, h))

pub print_int-IsDigit : (n : ℕ) → All IsDigit (print_int (pos n))
unfolding print_int
print_int-IsDigit n = digits-IsDigit 10 n [] tt

digits-ne : (fuel n c : ℕ) (out : Bytes) → digits fuel n (c ∷ out) ≢ []
unfolding digits
digits-ne zero n c out e = cc e
digits-ne (suc fuel) n c out e = ground (arith, digits-ne fuel (n / 10) (b'0' + n % 10) (c ∷ out))

pub print_int-ne : (n : ℕ) → print_int (pos n) ≢ []
unfolding print_int digits
print_int-ne n e = ground (arith, digits-ne 9 (n / 10) (b'0' + n % 10) [])
