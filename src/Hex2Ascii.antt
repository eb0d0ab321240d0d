-- ===== src/Hex2Ascii.antt =====
-- hex2ascii/hex2ascii.c: it prints the characters that pairs of hexadecimal digits stand for.
pub mod RoundTrip
use tcos.Base.{
  ℕ, ◌+◌, ◌-◌, ◌*◌, ◌&&◌, Option, none, some, Bytes, codes, List, [], ◌∷◌, ◌++◌, leb, length,
  if◌then◌else◌,
}
use tcos.CText.{split_loop}

-- What strtol takes for a digit in base 16.
unfoldable pub hex_value : ℕ → Option ℕ
hex_value c =
    if leb b'0' c && leb c b'9'
    then some (c - b'0')
    else if leb b'a' c && leb c b'f'
    then some (c - b'a' + 10)
    else if leb b'A' c && leb c b'F'
    then some (c - b'A' + 10)
    else none

-- strtol behind "0x": no digit leaves the 0 of the prefix.
unfoldable pub strtol_two : Option ℕ → Option ℕ → ℕ
strtol_two none second = 0
strtol_two (some a) none = a
strtol_two (some a) (some b) = a * 16 + b

-- hexToAscii: the first two bytes of the token, where a C string ends with NUL.
unfoldable pub hex_to_ascii : Bytes → ℕ
unfolding hex_value strtol_two
hex_to_ascii [] = strtol_two (hex_value 0) none
hex_to_ascii (c ∷ []) = strtol_two (hex_value c) (hex_value 0)
hex_to_ascii (c ∷ d ∷ s) = strtol_two (hex_value c) (hex_value d)

unfoldable pub print_tokens : List Bytes → Bytes
unfolding hex_to_ascii
print_tokens [] = b'\n' ∷ []
print_tokens (tok ∷ toks) = hex_to_ascii tok ∷ print_tokens toks

-- What main prints for its argument: the loop of strtok has at most a round for each byte.
unfoldable pub converted : Bytes → Bytes
unfolding print_tokens
converted arg = print_tokens (split_loop (length arg) (codes ":") arg)
