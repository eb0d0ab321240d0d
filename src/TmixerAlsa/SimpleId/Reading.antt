-- ===== src/TmixerAlsa/SimpleId/Reading.antt =====
-- What parse_simple_id reads from the two ways to write an identifier.
use tcos.Base.{
  ℕ, ◌<◌, ◌-◌, ◌≢◌, ◌≡◌, pos, refl, arith, true, false, ◌||◌, ◌==◌, Bytes, [], ◌∷◌, ◌++◌, take, All,
  ◌⊎◌, inl, inr, ap, sym, ◌∙◌, append-nil,
}
use tcos.CText.Decimal.{print_int, is_digit, int_limit}
use tcos.CText.Decimal.Digits.{IsDigit, print_int-IsDigit, print_int-ne}
use tcos.TmixerAlsa.{ok, skip_blanks, to_int}
use tcos.TmixerAlsa.Scans.{break_at-found, break_at-missing, to_int-number}
use tcos.TmixerAlsa.SimpleId.{name_size, read_name, after_name, parse_from, parse_simple_id}

after_name-number :
    (name number : Bytes)
    → All IsDigit number
    → number ≢ []
    → (n : ℕ) → to_int number ≡ ok (pos n)
    → after_name name (b',' ∷ number) ≡ ok (record { name = name; index = pos n })
unfolding after_name is_digit
after_name-number name [] h ne n e = absurd (ne refl)
after_name-number name (d ∷ s) h ne n e =
    let digit : is_digit d ≡ true = unfold is_digit in ground (arith, h.0) in rw (digit, e) refl

to_int-print : (n : ℕ) → n < int_limit → to_int (print_int (pos n)) ≡ ok (pos n)
to_int-print n lt = ap to_int (sym (append-nil (print_int (pos n)))) ∙ to_int-number n [] tt lt

not_blank : (q : ℕ) → (q ≡ b'"') ⊎ (q ≡ b'\'') → (q == b' ' || q == b'\t') ≡ false
not_blank q (inl e) = ground (arith, e)
not_blank q (inr e) = ground (arith, e)

is_quote : (q : ℕ) → (q ≡ b'"') ⊎ (q ≡ b'\'') → (q == b'"' || q == b'\'') ≡ true
is_quote q (inl e) = ground (arith, e)
is_quote q (inr e) = ground (arith, e)

-- Neither a blank nor a quote.
abbrev pub IsBare : ℕ → Type 0
IsBare c = (c ≢ b' ') × (c ≢ b'\t') × (c ≢ b'"') × (c ≢ b'\'')

-- With a quote on both sides of a name that does not have it, and a number behind a comma, the
-- identifier is that number and the name, cut to the 127 bytes that the buffer holds. Blanks in
-- front are skipped.
pub quoted_id :
    (q : ℕ) (name : Bytes) (n : ℕ)
    → (q ≡ b'"') ⊎ (q ≡ b'\'')
    → All (λ c. c ≢ q) name
    → n < int_limit
    → parse_simple_id (b' ' ∷ q ∷ name ++ q ∷ b',' ∷ print_int (pos n))
      ≡ ok (record { name = take (name_size - 1) name; index = pos n })
unfolding parse_simple_id parse_from skip_blanks read_name
quoted_id q name n quote plain lt =
    let no_blank : (q == b' ' || q == b'\t') ≡ false = not_blank q quote in
    let a_quote : (q == b'"' || q == b'\'') ≡ true = is_quote q quote in
    let found = break_at-found q name (b',' ∷ print_int (pos n)) plain in
    rw (no_blank, a_quote, found)
      (after_name-number _ _ (print_int-IsDigit n) (print_int-ne n) n (to_int-print n lt))

-- Without quotes the name goes to the comma, or to the end, and then the index is 0.
pub bare_id :
    (c : ℕ) (name : Bytes) (n : ℕ)
    → IsBare c
    → All (λ d. d ≢ b',') (c ∷ name)
    → n < int_limit
    → (parse_simple_id (c ∷ name ++ b',' ∷ print_int (pos n))
        ≡ ok (record { name = take (name_size - 1) (c ∷ name); index = pos n }))
      × (parse_simple_id (c ∷ name)
          ≡ ok (record { name = take (name_size - 1) (c ∷ name); index = pos 0 }))
unfolding parse_simple_id parse_from skip_blanks read_name
bare_id c name n bare plain lt =
    let no_blank : (c == b' ' || c == b'\t') ≡ false = ground (arith, bare.0, bare.1) in
    let no_quote : (c == b'"' || c == b'\'') ≡ false = ground (arith, bare.2, bare.3) in
    let number =
      after_name-number (take (name_size - 1) (c ∷ name)) _ (print_int-IsDigit n) (print_int-ne n) n
        (to_int-print n lt) in
    (
      rw (no_blank, no_quote, break_at-found b',' (c ∷ name) (print_int (pos n)) plain) number,
      rw (no_blank, no_quote, break_at-missing b',' (c ∷ name) plain) (unfold after_name in refl),
    )
