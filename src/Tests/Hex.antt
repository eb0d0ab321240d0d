-- ===== src/Tests/Hex.antt =====
-- hex2ascii on small arguments.
use tcos.Base.{codes, [], ◌∷◌, ◌++◌, ◌≡◌, refl, arith}
use mathlib.Core.List.{map}
use tcos.CText.{split_loop, strtok, skip_delims, is_delim, token, after_token}
use tcos.CText.Tokens.{delimited}
use tcos.Hex2Ascii.{converted}
use tcos.Hex2Ascii.RoundTrip.{hex_pair, converted-pairs}

hex_pair_is : hex_pair 0x4f ≡ codes "4f"
hex_pair_is = refl

one_digit : converted (codes "A:4Fx") ≡ 10 ∷ 0x4f ∷ b'\n' ∷ []
unfolding converted split_loop strtok skip_delims is_delim token after_token
one_digit = refl

converted-pairs_example :
    converted (delimited b':' (map hex_pair (codes "tcos"))) ≡ codes "tcos" ++ b'\n' ∷ []
converted-pairs_example = converted-pairs (codes "tcos") (omega arith)
