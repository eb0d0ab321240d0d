-- ===== src/TmixerAlsa/Scans.antt =====
-- What the scanning loops of tmixer/tmixer-alsa.c find in texts of a known form.
use tcos.Base.{ℕ, ◌≡◌, ◌≢◌, ◌<◌, pos, refl, arith, false, true, ◌==◌, Bytes, [], ◌∷◌, ◌++◌, All}
use tcos.CText.Decimal.{print_int, is_digit, int_limit}
use tcos.CText.Decimal.RoundTrip.{Ends, atoi-print}
use tcos.CText.Decimal.Digits.{IsDigit, print_int-IsDigit}
use tcos.TmixerAlsa.{ok, break_at, skip_digits, to_int}

-- A text without `c`, then `c`.
pub break_at-found :
    (c : ℕ) (s rest : Bytes) → All (λ d. d ≢ c) s → break_at c (s ++ (c ∷ rest)) ≡ (s, c ∷ rest)
unfolding break_at
break_at-found c [] rest h = ground arith
break_at-found c (d ∷ s) rest h =
    let differs : (d == c) ≡ false = ground (arith, h.0) in
    rw (break_at-found c s rest h.1, differs) refl

pub break_at-missing : (c : ℕ) (s : Bytes) → All (λ d. d ≢ c) s → break_at c s ≡ (s, [])
unfolding break_at
break_at-missing c [] h = refl
break_at-missing c (d ∷ s) h =
    let differs : (d == c) ≡ false = ground (arith, h.0) in
    rw (break_at-missing c s h.1, differs) refl

skip_digits-Ends : (rest : Bytes) → Ends rest → skip_digits rest ≡ rest
unfolding skip_digits
skip_digits-Ends [] e = refl
skip_digits-Ends (c ∷ s) e = rw e refl

skip_digits-before : (s rest : Bytes) → All IsDigit s → Ends rest → skip_digits (s ++ rest) ≡ rest
unfolding skip_digits
skip_digits-before [] rest h e = skip_digits-Ends rest e
skip_digits-before (c ∷ s) rest h e =
    let digit : is_digit c ≡ true = unfold is_digit in ground (arith, h.0) in
    rw digit (skip_digits-before s rest h.1 e)

module _ (n : ℕ) (rest : Bytes) (ends : Ends rest) where
  pub skip_digits-number : skip_digits (print_int (pos n) ++ rest) ≡ rest
  skip_digits-number = skip_digits-before (print_int (pos n)) rest (print_int-IsDigit n) ends

  pub to_int-number : n < int_limit → to_int (print_int (pos n) ++ rest) ≡ ok (pos n)
  unfolding to_int
  to_int-number lt = rw (atoi-print (pos n) rest lt ends, to_int) refl
