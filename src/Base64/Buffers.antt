-- ===== src/Base64/Buffers.antt =====
-- The buffers that the two coders allocate, and the input that the decoder skips.
use tcos.Base.{
  ℕ, ◌+◌, ◌-◌, ◌*◌, ◌/◌, ◌^◌, ◌≤◌, ◌<◌, ◌≡◌, refl, arith, Bytes, [], ◌∷◌, ◌++◌, some, length,
  length-append, length-take,
}
use tcos.Base64.{
  dtable, block_bytes, Decoded, base64_encode, base64_decode, encode_olen, accept, count_symbols,
  decode_loop, strip_padding, decode_start,
}

-- Four symbols for each block of three bytes, a last incomplete block included.
pub length-encode : (s : Bytes) → length (base64_encode s) ≡ (length s + 2) / 3 * 4
unfolding base64_encode
length-encode [] = refl
length-encode (a ∷ []) = refl
length-encode (a ∷ b ∷ []) = refl
length-encode (a ∷ b ∷ c ∷ s) = omega (arith, length-encode s)

-- The coding of a text of fewer than 2 ^ 60 bytes, with its closing NUL, fits the buffer that
-- base64_encode allocates for it.
pub encode_fits :
    (s : Bytes) → length s < 2 ^ 60 → length (base64_encode s) + 1 ≤ encode_olen (length s)
unfolding encode_olen
encode_fits s h = omega (arith, length-encode s)

length-accept :
    (g : Bytes) (c : ℕ) (d : Decoded)
    → length g < 4
    → (length (accept g c d).0 < 4)
      × (length (accept g c d).1.out * 4 + length (accept g c d).0 * 3
          ≡ length d.out * 4 + length g * 3 + 3)
unfolding accept block_bytes
length-accept [] c d h = omega arith
length-accept (p ∷ []) c d h = omega arith
length-accept (p ∷ q ∷ []) c d h = omega arith
length-accept (p ∷ q ∷ r ∷ []) c d h = (
  omega arith,
  omega (arith, length-append d.out (block_bytes (dtable p) (dtable q) (dtable r) (dtable c))),
)
length-accept (p ∷ q ∷ r ∷ t ∷ g) c d h = absurd (omega arith)

-- Each symbol is worth three quarters of a byte; what is pending is not written yet.
length-decode_loop :
    (s g : Bytes) (d : Decoded)
    → length g < 4
    → length (decode_loop s g d).out * 4 ≤ length d.out * 4 + (length g + count_symbols s) * 3
unfolding decode_loop count_symbols
length-decode_loop [] g d h = omega arith
length-decode_loop (c ∷ s) g d h = ground (
  arith,
  length-accept g c d h,
  length-decode_loop s g d h,
  length-decode_loop s (accept g c d).0 (accept g c d).1,
)

length-strip : (d : Decoded) → length (strip_padding d) ≤ length d.out
unfolding strip_padding
length-strip d =
    ground (arith, length-take (length d.out - 2) d.out, length-take (length d.out - 1) d.out)

-- What base64_decode returns fits the buffer of count / 4 * 3 bytes that it allocates.
pub decode_fits :
    (s : Bytes) {out : Bytes} → base64_decode s ≡ some out → length out ≤ count_symbols s / 4 * 3
unfolding base64_decode
decode_fits s {out} h = ground (
  arith,
  length-strip (decode_loop s [] decode_start),
  length-decode_loop s [] decode_start (omega arith),
)

skip_loop :
    (s t g : Bytes) (c : ℕ) (d : Decoded)
    → dtable c ≡ 0x80
    → decode_loop (s ++ c ∷ t) g d ≡ decode_loop (s ++ t) g d
unfolding decode_loop
skip_loop [] t g c d h = rw (h, decode_loop)
skip_loop (x ∷ s) t g c d h =
    ground (arith, skip_loop s t g c d h, skip_loop s t (accept g x d).0 c (accept g x d).1 h)

skip_count :
    (s t : Bytes) (c : ℕ) → dtable c ≡ 0x80 → count_symbols (s ++ c ∷ t) ≡ count_symbols (s ++ t)
unfolding count_symbols
skip_count [] t c h = rw h
skip_count (x ∷ s) t c h = rw (skip_count s t c h)

-- A byte that is no symbol, such as a line break, changes nothing in what base64_decode returns,
-- wherever it stands.
pub decode_skips :
    (s t : Bytes) (c : ℕ) → dtable c ≡ 0x80 → base64_decode (s ++ c ∷ t) ≡ base64_decode (s ++ t)
unfolding base64_decode
decode_skips s t c h = rw (skip_count s t c h, skip_loop s t [] c decode_start h)
