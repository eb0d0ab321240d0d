-- ===== src/Base64/RoundTrip.antt =====
-- Decoding what was encoded.
use tcos.Base.{
  ℕ, suc, ◌+◌, ◌-◌, ◌*◌, ◌/◌, ◌%◌, ◌<◌, ◌≡◌, refl, sym, ap, ◌≢◌, arith, Bytes, [], ◌∷◌, ◌++◌,
  append_assoc, append-nil, some, All, length, take, length-append, ◌∙◌,
}
use tcos.Base64.{
  symbol, dtable, Decoded, base64_encode, base64_decode, count_symbols, decode_loop, drop_last,
  strip_padding, decode_start,
}
use tcos.Base64.Tables.{dtable-symbol, symbol-ne-padding, low_two, low_four, low_six}
use tcos.Base64.Groups.{second_index_lem, third_index_lem, block_bytes_lem, decode_loop_group}

abbrev pub IsByte : ℕ → Type 0
IsByte c = c < 256

dtable-padding : dtable b'=' ≡ 0
unfolding dtable
dtable-padding = refl

-- Four symbols of known indices.
group_symbols :
    (p q r t i j k l : ℕ) (s : Bytes) (d : Decoded)
    → dtable p ≡ i
    → dtable q ≡ j
    → dtable r ≡ k
    → dtable t ≡ l
    → i < 64
    → j < 64
    → k < 64
    → l < 64
    → decode_loop (p ∷ q ∷ r ∷ t ∷ s) [] d
      ≡ decode_loop s [] (record {
        in2 = r;
        in3 = t;
        out = d.out ++ (i * 4 + j / 16) ∷ (j % 16 * 16 + k / 4) ∷ (k % 4 * 64 + l) ∷ [];
      })
group_symbols p q r t i j k l s d ep eq er et hi hj hk hl =
    decode_loop_group p q r t (rw ep hi) (rw eq hj) (rw er hk) (rw et hl) s d
    ∙ rw (ep, eq, er, et, block_bytes_lem i j k l hi hj hk hl)

take-append : (xs ys : Bytes) → take (length xs) (xs ++ ys) ≡ xs
take-append [] ys = refl
take-append (x ∷ xs) ys = ap (λ r. x ∷ r) (take-append xs ys)

drop_last-append : (xs ys : Bytes) → drop_last (length ys) (xs ++ ys) ≡ xs
unfolding drop_last
drop_last-append xs ys =
    let e : length (xs ++ ys) - length ys ≡ length xs = omega (arith, length-append xs ys) in
    rw e (take-append xs ys)

-- The whole output is kept, or loses two bytes, or one.
strip_none : (d : Decoded) → d.in2 ≢ b'=' → d.in3 ≢ b'=' → strip_padding d ≡ d.out
unfolding strip_padding
strip_none d h2 h3 = ground arith

strip_two :
    (out : Bytes) (b c in3 : ℕ)
    → out ≢ []
    → strip_padding (record { in2 = b'='; in3 = in3; out = out ++ b ∷ c ∷ [] }) ≡ out
unfolding strip_padding
strip_two [] b c in3 h = absurd (h refl)
strip_two (o ∷ out) b c in3 h = drop_last-append (o ∷ out) (b ∷ c ∷ [])

strip_one :
    (out : Bytes) (c in2 : ℕ)
    → out ≢ []
    → in2 ≢ b'='
    → strip_padding (record { in2 = in2; in3 = b'='; out = out ++ c ∷ [] }) ≡ out
unfolding strip_padding
strip_one [] c in2 h _ = absurd (h refl)
strip_one (o ∷ out) c in2 h ne = ground (arith, drop_last-append (o ∷ out) (c ∷ []))

append-cons-ne-nil : (xs : Bytes) (y : ℕ) (ys : Bytes) → xs ++ y ∷ ys ≢ []
append-cons-ne-nil [] y ys h = cc
append-cons-ne-nil (x ∷ xs) y ys h = cc

decode_loop-nil : (d : Decoded) → decode_loop [] [] d ≡ d
unfolding decode_loop
decode_loop-nil d = refl

-- The bits of each byte, cut into the indices and put together again.
field_a : (a b : ℕ) → IsByte a → IsByte b → a / 4 * 4 + (a % 4 * 16 + b / 16) / 16 ≡ a
field_a a b ha hb = omega arith

field_b :
    (a b c : ℕ)
    → IsByte a
    → IsByte b
    → IsByte c
    → (a % 4 * 16 + b / 16) % 16 * 16 + (b % 16 * 4 + c / 64) / 4 ≡ b
field_b a b c ha hb hc = omega arith

field_c : (b c : ℕ) → IsByte b → IsByte c → (b % 16 * 4 + c / 64) % 4 * 64 + c % 64 ≡ c
field_c b c hb hc = omega arith

-- Three bytes of input pass through their four symbols.
encode_three :
    (a b c : ℕ) (s : Bytes) (d : Decoded)
    → IsByte a
    → IsByte b
    → IsByte c
    → decode_loop (base64_encode (a ∷ b ∷ c ∷ s)) [] d
      ≡ decode_loop (base64_encode s) [] (record {
        in2 = symbol (b % 16 * 4 + c / 64);
        in3 = symbol (c % 64);
        out = d.out ++ a ∷ b ∷ c ∷ [];
      })
unfolding base64_encode
encode_three a b c s d ha hb hc =
    rw (second_index_lem a b ha hb, third_index_lem b c hb hc, low_six c hc)
      (rw
        (group_symbols _ _ _ _ (a / 4) (a % 4 * 16 + b / 16) (b % 16 * 4 + c / 64) (c % 64)
          (base64_encode s) d (dtable-symbol _ (omega arith)) (dtable-symbol _ (omega arith))
          (dtable-symbol _ (omega arith)) (dtable-symbol _ (omega arith)) (omega arith)
          (omega arith) (omega arith) (omega arith))
        (rw (field_a a b ha hb, field_b a b c ha hb hc, field_c b c hb hc)))

encode_two :
    (a b : ℕ) (d : Decoded)
    → IsByte a
    → IsByte b
    → strip_padding (decode_loop (base64_encode (a ∷ b ∷ [])) [] d) ≡ d.out ++ a ∷ b ∷ []
unfolding base64_encode
encode_two a b d ha hb =
    rw (second_index_lem a b ha hb, low_four b hb)
      (rw
        (group_symbols _ _ _ _ (a / 4) (a % 4 * 16 + b / 16) (b % 16 * 4) 0 [] d
          (dtable-symbol _ (omega arith)) (dtable-symbol _ (omega arith))
          (dtable-symbol _ (omega arith)) dtable-padding (omega arith) (omega arith) (omega arith)
          (omega arith))
        (rw
          (
            field_a a b ha hb,
            ← append_assoc d.out (a ∷ _ ∷ []) (_ ∷ []),
            decode_loop-nil,
            strip_one (d.out ++ a ∷ _ ∷ []) _ _ (append-cons-ne-nil d.out a _)
                (symbol-ne-padding (b % 16 * 4) (omega arith)),
          )
          (ap (λ (x : ℕ). d.out ++ a ∷ x ∷ []) (omega arith))))

encode_one :
    (a : ℕ) (d : Decoded)
    → IsByte a
    → strip_padding (decode_loop (base64_encode (a ∷ [])) [] d) ≡ d.out ++ a ∷ []
unfolding base64_encode
encode_one a d ha = rw (low_two a ha) (
    rw
      (group_symbols _ _ _ _ (a / 4) (a % 4 * 16) 0 0 [] d (dtable-symbol _ (omega arith))
        (dtable-symbol _ (omega arith)) dtable-padding dtable-padding (omega arith) (omega arith)
        (omega arith) (omega arith))
      (rw
        (
          ← append_assoc d.out (_ ∷ []) (_ ∷ _ ∷ []),
          decode_loop-nil,
          strip_two (d.out ++ _ ∷ []) _ _ _ (append-cons-ne-nil d.out _ _),
        )
        (ap (λ (x : ℕ). d.out ++ x ∷ []) (omega arith))))

decode_loop-encode :
    (s : Bytes) (d : Decoded)
    → All IsByte s
    → d.in2 ≢ b'='
    → d.in3 ≢ b'='
    → strip_padding (decode_loop (base64_encode s) [] d) ≡ d.out ++ s
decode_loop-encode [] d h h2 h3 =
    unfold base64_encode decode_loop in strip_none d h2 h3 ∙ sym (append-nil d.out)
decode_loop-encode (a ∷ []) d h h2 h3 = encode_one a d h.0
decode_loop-encode (a ∷ b ∷ []) d h h2 h3 = encode_two a b d h.0 h.1.0
decode_loop-encode (a ∷ b ∷ c ∷ s) d h h2 h3 = rw (encode_three a b c s d h.0 h.1.0 h.1.1.0) (
    decode_loop-encode s _ h.1.1.1 (symbol-ne-padding _ (omega arith))
      (symbol-ne-padding _ (omega arith))
    ∙ append_assoc d.out (a ∷ b ∷ c ∷ []) s)

count-symbol : (i : ℕ) (s : Bytes) → i < 64 → count_symbols (symbol i ∷ s) ≡ suc (count_symbols s)
unfolding count_symbols
count-symbol i s h = ground (arith, dtable-symbol i h)

count_padding_two : suc (suc (count_symbols (b'=' ∷ b'=' ∷ []))) % 4 ≡ 0
unfolding count_symbols dtable
count_padding_two = refl

count_padding_one : suc (suc (suc (count_symbols (b'=' ∷ [])))) % 4 ≡ 0
unfolding count_symbols dtable
count_padding_one = refl

-- The length of a coding is a multiple of four symbols.
count-encode : (s : Bytes) → All IsByte s → count_symbols (base64_encode s) % 4 ≡ 0
unfolding base64_encode
count-encode [] h = unfold count_symbols in refl
count-encode (a ∷ []) h =
    rw
      (
        low_two a h.0,
        count-symbol (a / 4) _ (omega arith),
        count-symbol (a % 4 * 16) _ (omega arith),
      )
      count_padding_two
count-encode (a ∷ b ∷ []) h =
    rw
      (
        second_index_lem a b h.0 h.1.0,
        low_four b h.1.0,
        count-symbol (a / 4) _ (omega arith),
        count-symbol (a % 4 * 16 + b / 16) _ (omega arith),
        count-symbol (b % 16 * 4) _ (omega arith),
      )
      count_padding_one
count-encode (a ∷ b ∷ c ∷ s) h =
    rw
      (
        second_index_lem a b h.0 h.1.0,
        third_index_lem b c h.1.0 h.1.1.0,
        low_six c h.1.1.0,
        count-symbol (a / 4) _ (omega arith),
        count-symbol (a % 4 * 16 + b / 16) _ (omega arith),
        count-symbol (b % 16 * 4 + c / 64) _ (omega arith),
        count-symbol (c % 64) _ (omega arith),
      )
      (omega (arith, count-encode s h.1.1.1))

-- Every sequence of bytes is decoded from its coding.
pub decode-encode : (s : Bytes) → All IsByte s → base64_decode (base64_encode s) ≡ some s
unfolding base64_decode
decode-encode s h =
    rw (count-encode s h)
      (ap some (decode_loop-encode s decode_start h (omega arith) (omega arith)))
