-- ===== src/Tests/Coding.antt =====
-- Base64, tokens and addresses.
use tcos.Base.{
  ◌+◌, ◌≤◌, ◌*◌, ◌/◌, pos, negsuc, true, codes, [], ◌∷◌, ◌≡◌, refl, arith, length, some, none, ℤ,
}
use tcos.Base64.{
  base64_encode, base64_decode, encode_olen, count_symbols, dtable, symbol, second_index,
  third_index, block_bytes,
}
use tcos.Base64.RoundTrip.{decode-encode}
use tcos.Base64.Buffers.{encode_fits, decode_fits}
use tcos.CText.{split, is_delim}
use tcos.CText.Tokens.{IsToken, split-delimited}
use tcos.CText.Decimal.{print_int, digits}
use tcos.Host.{done}
use tcos.CText.Decimal.RoundTrip.{IsInt}
use tcos.Address.{scan_ints, check_ip_address, print_ip, IpAddress}
use tcos.Address.Canonical.{accepts_canonical, only_canonical}
use tcos.Tests.Fixtures.{machine}

man_coded : base64_encode (codes "Man") ≡ codes "TWFu"
unfolding base64_encode symbol second_index third_index
man_coded = refl

padded : base64_encode (codes "Ma") ≡ codes "TWE="
unfolding base64_encode symbol second_index third_index
padded = refl

decoded : base64_decode (codes "TW\nE=") ≡ some (codes "Ma")
unfolding base64_decode dtable block_bytes
decoded = refl

truncated : base64_decode (codes "TWE") ≡ none
unfolding base64_decode dtable
truncated = refl

decode-encode_example :
    base64_decode (base64_encode (77 ∷ 0 ∷ 255 ∷ 7 ∷ [])) ≡ some (77 ∷ 0 ∷ 255 ∷ 7 ∷ [])
decode-encode_example = decode-encode (77 ∷ 0 ∷ 255 ∷ 7 ∷ []) (omega arith)

encode_fits_example : length (base64_encode (codes "Man")) + 1 ≤ encode_olen (length (codes "Man"))
encode_fits_example = encode_fits (codes "Man") (omega arith)

decode_fits_example : length (codes "Ma") ≤ count_symbols (codes "TW\nE=") / 4 * 3
decode_fits_example = decode_fits (codes "TW\nE=") decoded

line_break_skipped : dtable b'\n' ≡ 0x80
unfolding dtable
line_break_skipped = refl

tokens_split : split (codes ":a::bc:") (codes ":") ≡ codes "a" ∷ codes "bc" ∷ []
unfolding split
tokens_split = refl

a_IsToken : IsToken (codes ",") (codes "a")
unfolding is_delim
a_IsToken = record { filled = cc; plain = (refl, tt) }

comma_is_delim : is_delim (codes ",") b',' ≡ true
unfolding is_delim
comma_is_delim = refl

split-delimited_example : split (codes "a,a") (codes ",") ≡ codes "a" ∷ codes "a" ∷ []
split-delimited_example =
    split-delimited (codes ",") b',' (codes "a" ∷ codes "a" ∷ []) (a_IsToken, (a_IsToken, tt))
      comma_is_delim (omega arith)

accepts_canonical_example :
    check_ip_address machine (print_ip (pos 10) (pos 0) (negsuc 0) (pos 999)) []
    ≡ done (record { is_ip = true; ipstr = print_ip (pos 10) (pos 0) (negsuc 0) (pos 999) }) []
accepts_canonical_example =
    accepts_canonical machine (pos 10) (pos 0) (negsuc 0) (pos 999) [] (omega arith) (omega arith)
      (omega arith) (omega arith)

abbrev loopback : IpAddress
loopback = record { is_ip = true; ipstr = codes "127.0.0.1" }

loopback_checked : check_ip_address machine (codes "127.0.0.1") [] ≡ done loopback []
unfolding print_ip print_int digits
loopback_checked =
    accepts_canonical machine (pos 127) (pos 0) (pos 0) (pos 1) [] (omega arith) (omega arith)
      (omega arith) (omega arith)

only_canonical_example :
    (a : ℤ) × (b : ℤ) × (c : ℤ) × (d : ℤ) × (IsInt a × IsInt b × IsInt c × IsInt d)
    × (codes "127.0.0.1" ≡ print_ip a b c d)
    × (scan_ints 4 (codes "127.0.0.1") ≡ some (a ∷ b ∷ c ∷ d ∷ []))
    × (codes "127.0.0.1" ≡ codes "127.0.0.1")
only_canonical_example = only_canonical machine (codes "127.0.0.1") [] [] loopback_checked refl
