-- ===== src/Base64.antt =====
-- Base64 coding, `base64_encode` and `base64_decode` of xmlrpc/common.c. A buffer is a list of
-- bytes; that allocation succeeds is taken for granted.
pub mod Tables
pub mod Groups
pub mod RoundTrip
pub mod Buffers
pub mod Tool
use tcos.Base.{
  ℕ, zero, suc, ◌+◌, ◌-◌, ◌*◌, ◌/◌, ◌%◌, ◌^◌, bit_and, bit_or, true, false, Bytes, codes, Option,
  none, some, [], ◌∷◌, ◌++◌, ◌==◌, length, take, get_or, if◌then◌else◌,
}

abbrev pub base64_table : Bytes
base64_table = codes "ABCDEFGHIJKLMNOPQRSTUVWXYZabcdefghijklmnopqrstuvwxyz0123456789+/"

-- base64_table[i]
unfoldable pub symbol : ℕ → ℕ
symbol i = get_or base64_table i 0

-- (in[0] & 0x03) << 4 | in[1] >> 4, and the index of the third symbol.
unfoldable pub second_index : ℕ → ℕ → ℕ
second_index a b = bit_or (bit_and a 0x03 * 2 ^ 4) (b / 2 ^ 4)

unfoldable pub third_index : ℕ → ℕ → ℕ
third_index b c = bit_or (bit_and b 0x0f * 2 ^ 2) (c / 2 ^ 6)

-- The loop over blocks of three bytes, and the last one or two bytes with their padding.
unfoldable pub base64_encode : Bytes → Bytes
base64_encode [] = []
base64_encode (a ∷ []) = symbol (a / 2 ^ 2) ∷ symbol (bit_and a 0x03 * 2 ^ 4) ∷ b'=' ∷ b'=' ∷ []
base64_encode (a ∷ b ∷ []) =
    symbol (a / 2 ^ 2) ∷ symbol (second_index a b) ∷ symbol (bit_and b 0x0f * 2 ^ 2) ∷ b'=' ∷ []
base64_encode (a ∷ b ∷ c ∷ s) =
    symbol (a / 2 ^ 2)
    ∷ symbol (second_index a b)
    ∷ symbol (third_index b c)
    ∷ symbol (bit_and c 0x3f)
    ∷ base64_encode s

-- `olen`, the bytes that base64_encode allocates for `len` bytes of input; a size_t has 64 bits.
unfoldable pub encode_olen : ℕ → ℕ
encode_olen len =
    let blocks = (len * 4 % 2 ^ 64 / 3 + 4) % 2 ^ 64 in
    ((blocks + blocks / 72) % 2 ^ 64 + 1) % 2 ^ 64

-- dtable[c] = v
abbrev pub update : (ℕ → ℕ) → ℕ → ℕ → ℕ → ℕ
update d c v x = if x == c then v else d x

unfoldable pub fill : ℕ → Bytes → (ℕ → ℕ) → ℕ → ℕ
fill i [] d = d
fill i (c ∷ cs) d = fill (i + 1) cs (update d c i)

-- `dtable`: 0x80 everywhere, then the loop over base64_table, then the padding sign.
unfoldable pub dtable : ℕ → ℕ
unfolding fill
dtable = update (fill 0 base64_table (λ _. 0x80)) b'=' 0

-- The first loop: how many input bytes are symbols.
unfoldable pub count_symbols : Bytes → ℕ
count_symbols [] = 0
count_symbols (c ∷ s) = if dtable c == 0x80 then count_symbols s else suc (count_symbols s)

-- The three bytes that four symbols stand for; the stores truncate to unsigned char.
unfoldable pub block_bytes : ℕ → ℕ → ℕ → ℕ → Bytes
block_bytes i j k l =
    (bit_or (i * 2 ^ 2) (j / 2 ^ 4) % 256)
    ∷ (bit_or (j * 2 ^ 4) (k / 2 ^ 2) % 256)
    ∷ (bit_or (k * 2 ^ 6) l % 256)
    ∷ []

-- What the second loop has when it ends: in[2] and in[3], and the bytes written so far.
pub record Decoded : Type 0 where
  pub in2 : ℕ
  pub in3 : ℕ
  pub out : Bytes

-- One symbol: `group` is in[0 .. count - 1], and block[i] is dtable[in[i]].
unfoldable pub accept : Bytes → ℕ → Decoded → Bytes × Decoded
accept (p ∷ q ∷ r ∷ []) c d = (
  [],
  record {
    in2 = r;
    in3 = c;
    out = d.out ++ block_bytes (dtable p) (dtable q) (dtable r) (dtable c);
  },
)
accept group c d = (group ++ c ∷ [], d)

-- The second loop.
unfoldable pub decode_loop : Bytes → Bytes → Decoded → Decoded
unfolding accept
decode_loop [] group d = d
decode_loop (c ∷ s) group d = elim (dtable c == 0x80) [
  | true ↦ decode_loop s group d
  | false ↦ decode_loop s (accept group c d).0 (accept group c d).1
]

unfoldable pub drop_last : ℕ → Bytes → Bytes
drop_last n s = take (length s - n) s

-- The bytes that the padding stands for are taken off again, if anything was written.
unfoldable pub strip_padding : Decoded → Bytes
unfolding drop_last
strip_padding d = elim d.out [
  | [] ↦ []
  | b ∷ rest ↦
      if d.in2 == b'='
      then drop_last 2 d.out
      else if d.in3 == b'='
      then drop_last 1 d.out
      else d.out
]

-- in[2] and in[3] are read only after a whole group has been stored in them.
abbrev pub decode_start : Decoded
decode_start = record { in2 = 0; in3 = 0; out = [] }

unfoldable pub base64_decode : Bytes → Option Bytes
unfolding count_symbols decode_loop strip_padding
base64_decode src =
    if count_symbols src % 4 == 0
    then some (strip_padding (decode_loop src [] decode_start))
    else none
