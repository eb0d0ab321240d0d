-- ===== src/Hex2Ascii/RoundTrip.antt =====
-- hex2ascii turns bytes that are written in hexadecimal into themselves.
use tcos.Base.{
  ℕ, ◌+◌, ◌-◌, ◌/◌, ◌%◌, ◌≤◌, ◌<◌, ◌≡◌, refl, ap, arith, false, Bytes, codes, [], ◌∷◌, ◌++◌, some,
  All, length, ltb, if◌then◌else◌,
}
use mathlib.Core.List.{map}
use tcos.CText.{is_delim}
use tcos.CText.Tokens.{IsToken, delimited, split_loop-delimited}
use tcos.Hex2Ascii.{hex_value, strtol_two, hex_to_ascii, print_tokens, converted}

abbrev pub hex_digit : ℕ → ℕ
hex_digit n = if ltb n 10 then b'0' + n else b'a' + n - 10

abbrev pub hex_pair : ℕ → Bytes
hex_pair b = hex_digit (b / 16) ∷ hex_digit (b % 16) ∷ []

hex_value-digit : (n : ℕ) → n < 16 → hex_value (hex_digit n) ≡ some n
unfolding hex_value
hex_value-digit n lt = ground arith

hex_to_ascii-pair : (b : ℕ) → b < 256 → hex_to_ascii (hex_pair b) ≡ b
unfolding hex_to_ascii strtol_two
hex_to_ascii-pair b lt =
    rw (hex_value-digit (b / 16) (omega arith), hex_value-digit (b % 16) (omega arith))
      (omega arith)

digit-plain : (n : ℕ) → n < 16 → is_delim (codes ":") (hex_digit n) ≡ false
unfolding is_delim
digit-plain n lt = ground arith

pair-IsToken : (b : ℕ) → b < 256 → IsToken (codes ":") (hex_pair b)
pair-IsToken b lt = record {
  filled = λ e. cc e;
  plain = (digit-plain (b / 16) (omega arith), (digit-plain (b % 16) (omega arith), tt));
}

pairs-IsToken :
    (bytes : Bytes) → All (λ b. b < 256) bytes → All (IsToken (codes ":")) (map hex_pair bytes)
pairs-IsToken [] h = tt
pairs-IsToken (b ∷ bytes) (p, h) = (pair-IsToken b p, pairs-IsToken bytes h)

-- There is a round for each pair.
pairs_fit :
    (bytes : Bytes) → length (map hex_pair bytes) ≤ length (delimited b':' (map hex_pair bytes))
pairs_fit [] = omega arith
pairs_fit (b ∷ []) = omega arith
pairs_fit (b ∷ c ∷ bytes) = omega (arith, pairs_fit (c ∷ bytes))

print_tokens-pairs :
    (bytes : Bytes)
    → All (λ b. b < 256) bytes
    → print_tokens (map hex_pair bytes) ≡ bytes ++ b'\n' ∷ []
unfolding print_tokens
print_tokens-pairs [] h = refl
print_tokens-pairs (b ∷ bytes) (p, h) =
    rw (hex_to_ascii-pair b p) (ap (λ r. b ∷ r) (print_tokens-pairs bytes h))

-- Bytes that are written as pairs of hexadecimal digits with colons between them are printed as
-- they are, with a line break behind them, however many they are.
pub converted-pairs :
    (bytes : Bytes)
    → All (λ b. b < 256) bytes
    → converted (delimited b':' (map hex_pair bytes)) ≡ bytes ++ b'\n' ∷ []
unfolding converted
converted-pairs bytes h =
    rw
      (split_loop-delimited (codes ":") (length (delimited b':' (map hex_pair bytes))) b':'
        (map hex_pair bytes) (pairs-IsToken bytes h) (unfold is_delim in refl) (pairs_fit bytes))
      (print_tokens-pairs bytes h)
