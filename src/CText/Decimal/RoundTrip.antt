-- ===== src/CText/Decimal/RoundTrip.antt =====
-- An int is read back from its decimal print.
use tcos.Base.{
  ℕ, zero, suc, ◌+◌, ◌*◌, ◌/◌, ◌%◌, ◌^◌, ◌<◌, ℤ, pos, negsuc, true, false, Bytes, [], ◌∷◌, ◌++◌,
  arith, ◌≡◌, refl, ltb, Bool-cases, inl, inr, ◌∙◌, some,
}
use native.Mathlib.Nat.{pow-suc}
use native.Mathlib.Numerals.{add-one}
use tcos.CText.Decimal.{
  int_limit, digits, print_int, is_digit, read_digits, int, in_range, scan_int, atoi,
}

-- The text behind a number does not go on with a digit.
abbrev pub Ends : Bytes → Type 0
Ends [] = Unit
Ends (c ∷ s) = is_digit c ≡ false

abbrev pub IsInt : ℤ → Type 0
IsInt (pos n) = n < int_limit
IsInt (negsuc n) = n < int_limit

digits-append : (fuel n : ℕ) (out r : Bytes) → digits fuel n (out ++ r) ≡ digits fuel n out ++ r
unfolding digits
digits-append zero n out r = refl
digits-append (suc fuel) n out r =
    ground (arith, digits-append fuel (n / 10) ((b'0' + n % 10) ∷ out) r)

read-digit :
    (m k : ℕ) (s : Bytes) → k < 10 → read_digits m ((b'0' + k) ∷ s) ≡ read_digits (m * 10 + k) s
unfolding read_digits is_digit
read-digit m k s h = ground arith

div_ten : (n p : ℕ) → n < p * 10 → n / 10 < p
div_ten n p h = omega arith

read-digits :
    (fuel n : ℕ) (out : Bytes)
    → n < 10 ^ fuel
    → 0 < fuel
    → read_digits 0 (digits fuel n out) ≡ read_digits n out
unfolding digits
read-digits zero n out h p = absurd (omega arith)
read-digits (suc zero) n out h p = let small : n < 10 = h in ground (arith, read-digit 0 n out)
read-digits (suc (suc fuel)) n out h p =
    let quotient : n / 10 < 10 ^ suc fuel = div_ten n (10 ^ suc fuel) (rw (← pow-suc) h) in
    ground (
      arith,
      read-digit 0 n out,
      read-digits (suc fuel) (n / 10) ((b'0' + n % 10) ∷ out) quotient,
      read-digit (n / 10) (n % 10) out,
    )

read-Ends : (n : ℕ) (r : Bytes) → Ends r → read_digits n r ≡ (n, r)
unfolding read_digits
read-Ends n [] h = refl
read-Ends n (c ∷ r) h = rw h

pub read-number :
    (n : ℕ) (r : Bytes) → n < 10 ^ 10 → Ends r → read_digits 0 (digits 10 n [] ++ r) ≡ (n, r)
read-number n r h e =
    rw (← digits-append 10 n [] r) (read-digits 10 n r h (omega arith) ∙ read-Ends n r e)

-- The first byte of a decimal print is a digit.
digits-head :
    (fuel n : ℕ) (out : Bytes)
    → 0 < fuel
    → (c : ℕ) × (s : Bytes) × (digits fuel n out ≡ c ∷ s) × (is_digit c ≡ true)
unfolding digits is_digit
digits-head zero n out p = absurd (omega arith)
digits-head (suc zero) n out p = elim (Bool-cases (ltb n 10)) [
  | inl small ↦ (b'0' + n, out, rw small, ground arith)
  | inr big ↦ (b'0' + n % 10, out, rw big, ground arith)
]
digits-head (suc (suc fuel)) n out p = elim (Bool-cases (ltb n 10)) [
  | inl small ↦ (b'0' + n, out, rw small, ground arith)
  | inr big ↦
      let (c, s, e, d) = digits-head (suc fuel) (n / 10) ((b'0' + n % 10) ∷ out) (omega arith) in
      (c, s, rw big e, d)
]

-- Behind spaces and a sign the digits are read alike.
scan-digit_first :
    (c : ℕ) (s : Bytes)
    → is_digit c ≡ true
    → scan_int (c ∷ s) ≡ in_range false (read_digits 0 (c ∷ s))
unfolding scan_int is_digit
scan-digit_first c s h = ground arith

scan-minus_first :
    (c : ℕ) (s : Bytes)
    → is_digit c ≡ true
    → scan_int (b'-' ∷ c ∷ s) ≡ in_range true (read_digits 0 (c ∷ s))
unfolding scan_int is_digit
scan-minus_first c s h = ground arith

in_range-pos : (n : ℕ) (r : Bytes) → n < int_limit → in_range false (n, r) ≡ int (pos n) r
unfolding in_range
in_range-pos n r h = ground arith

in_range-neg : (n : ℕ) (r : Bytes) → n < int_limit → in_range true (suc n, r) ≡ int (negsuc n) r
unfolding in_range
in_range-neg n r h = ground arith

-- An int is read back, and reading stops at the text behind it.
pub scan-print : (v : ℤ) (r : Bytes) → IsInt v → Ends r → scan_int (print_int v ++ r) ≡ int v r
unfolding print_int
scan-print (pos n) r h e =
    let (c, s, eq, d) = digits-head 10 n [] (omega arith) in
    let number : read_digits 0 (c ∷ s ++ r) ≡ (n, r) = rw eq at (read-number n r (omega arith) e) in
    rw eq (scan-digit_first c (s ++ r) d ∙ rw number (in_range-pos n r h))
scan-print (negsuc n) r h e =
    let (c, s, eq, d) = digits-head 10 (n + 1) [] (omega arith) in
    let number : read_digits 0 (c ∷ s ++ r) ≡ (n + 1, r) =
      rw eq at (read-number (n + 1) r (omega arith) e) in
    rw eq (scan-minus_first c (s ++ r) d ∙ rw number (rw add-one (in_range-neg n r h)))

pub atoi-print : (v : ℤ) (r : Bytes) → IsInt v → Ends r → atoi (print_int v ++ r) ≡ some v
unfolding atoi
atoi-print v r h e = rw (scan-print v r h e, atoi) refl
