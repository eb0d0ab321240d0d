-- ===== src/TmixerAlsa/Tlv/Dumped.antt =====
-- The words that decode_tlv of tmixer/tmixer-alsa.c prints for a kind that it does not know.
use tcos.Base.{
  ltb, ◌==◌, false, Bool-cases, inl, inr, ℕ, zero, suc, ◌+◌, ◌-◌, ◌*◌, ◌/◌, ◌%◌, ◌^◌, ◌≤◌, ◌<◌, ◌≡◌,
  ◌≢◌, refl, arith, Bytes, codes, List, [], ◌∷◌, ◌++◌, some, length, take,
}
use mathlib.Core.List.{map}
use tcos.Host.{bad_pointer}
use tcos.TmixerAlsa.{Result, ok, einval, undefined, endless, ◌>>=◌}
use tcos.CText.Decimal.{print_int}
use tcos.TmixerAlsa.Card.{Card, concat, print_hex}
use tcos.TmixerAlsa.ControlId.{to_signed}
use tcos.TmixerAlsa.Tlv.{dump, print_spaces, line, values, sized, decode_tlv}
use tcos.TmixerAlsa.Tlv.Compound.{decode-words}

-- Each word in hexadecimal, with a comma behind it.
unfoldable pub hex_words : List ℕ → Bytes
hex_words [] = []
hex_words (w ∷ ws) = codes "0x" ++ (print_hex 8 w ++ (b',' ∷ hex_words ws))

-- How the loop ends for a size, on words that are all there.
pub data Dumped (size : ℕ) (ws : List ℕ) : Result Bytes → Type 0 where
  shown : (n : ℕ) → size ≡ n * 4 → n ≤ length ws → Dumped size ws (ok (hex_words (take n ws)))
  overrun : ((n : ℕ) → size ≡ n * 4 → length ws < n) → Dumped size ws (undefined bad_pointer)

next_size : (k : ℕ) → 4 ≤ k → k < 2 ^ 32 → (k + (2 ^ 32 - 4)) % 2 ^ 32 ≡ k - 4
next_size k low high = omega arith

wrapped_size : (k : ℕ) → 0 < k → k < 4 → (k + (2 ^ 32 - 4)) % 2 ^ 32 ≡ k + (2 ^ 32 - 4)
wrapped_size k low high = omega arith

Dumped-more :
    (size more w : ℕ) (ws : List ℕ) (r : Result Bytes)
    → more ≡ size + 4
    → Dumped size ws r
    → Dumped more (w ∷ ws) (r >>= λ rest. ok (codes "0x" ++ (print_hex 8 w ++ (b',' ∷ rest))))
unfolding hex_words
Dumped-more size more w ws _ e (shown n e' le) = shown (suc n) (omega arith) (omega arith)
Dumped-more size more w ws _ e (overrun past) = overrun by_words
  where
    by_words : (n : ℕ) → more ≡ n * 4 → suc (length ws) < n
    by_words zero e' = absurd (omega arith)
    by_words (suc n) e' = omega (arith, past n (omega arith))

-- A size that is no multiple of four never comes to 0.
dump-odd : (ws : List ℕ) (size : ℕ) → size % 4 ≢ 0 → dump size (map some ws) ≡ undefined bad_pointer
unfolding dump
dump-odd ws zero odd = absurd (odd refl)
dump-odd [] (suc k) odd = refl
dump-odd (w ∷ ws) (suc k) odd =
    rw (dump-odd ws ((suc k + (2 ^ 32 - 4)) % 2 ^ 32) (λ e. odd (omega arith))) refl

dump-multiple :
    (ws : List ℕ) (size n : ℕ)
    → size ≡ n * 4
    → size < 2 ^ 32
    → Dumped size ws (dump size (map some ws))
unfolding dump hex_words
dump-multiple ws zero n e lt = shown 0 refl (omega arith)
dump-multiple [] (suc k) n e lt = overrun (λ m e'. omega arith)
dump-multiple (w ∷ ws) (suc k) n e lt =
    let rest = dump-multiple ws (suc k - 4) (n - 1) (omega arith) (omega arith) in
    rw (next_size (suc k) (omega arith) lt)
      (Dumped-more (suc k - 4) (suc k) w ws _ (omega arith) rest)

pub dump-Dumped :
    (size : ℕ) (ws : List ℕ) → size < 2 ^ 32 → Dumped size ws (dump size (map some ws))
dump-Dumped size ws lt = elim (Bool-cases (size % 4 == 0)) [
  | inl e ↦ dump-multiple ws size (size / 4) (ground (arith, e)) lt
  | inr e ↦
      let odd : size % 4 ≢ 0 = λ z. ground (arith, e, z) in
      rw (dump-odd ws size odd) (overrun (λ n e'. absurd (odd (omega arith))))
]

-- The line for an unknown kind.
abbrev pub unknown_text : ℕ → ℕ → Bytes → Bytes
unknown_text spaces kind text =
    (print_spaces spaces ++ codes "| ")
    ++ ((codes "unk-" ++ (print_int (to_signed kind) ++ codes "-")) ++ (text ++ codes "\n"))

-- A kind that decode_tlv has no case for.
pub record IsUnknown (c : Card) (kind : ℕ) : Type 0 where
  pub no_container : kind ≢ c.tlv_types.container
  pub no_scale : kind ≢ c.tlv_types.db_scale
  pub no_linear : kind ≢ c.tlv_types.db_linear
  pub no_range : kind ≢ c.tlv_types.db_range

shown_line :
    (spaces kind : ℕ) (r : Result Bytes)
    → (line (concat (codes "unk-" ∷ print_int (to_signed kind) ∷ codes "-" ∷ [])) r >>= λ shown.
        ok ((print_spaces spaces ++ codes "| ") ++ shown))
      ≡ (r >>= λ text. ok (unknown_text spaces kind text))
unfolding concat
shown_line spaces kind (ok text) = refl
shown_line spaces kind einval = refl
shown_line spaces kind (undefined cause) = refl
shown_line spaces kind endless = refl

-- For an element of an unknown kind, whose size fits the room that is given and whose words are all
-- there, decode_tlv shows the kind as a number and the words, if the size is a multiple of four that
-- they last for. With any other size the loop over the words reads behind them.
pub decode_tlv-Dumped :
    (c : Card) (spaces kind size tlv_size : ℕ) (ws : List ℕ)
    → IsUnknown c kind
    → size < 2 ^ 32
    → size + 8 ≤ tlv_size
    → (r : Result Bytes) × Dumped size ws r
      × (decode_tlv c spaces (some kind ∷ some size ∷ map some ws) tlv_size
          ≡ (r >>= λ text. ok (unknown_text spaces kind text)))
unfolding decode_tlv sized values
decode_tlv-Dumped c spaces kind size tlv_size ws u lt room =
    let small : ltb tlv_size 8 ≡ false = ground (arith, room) in
    let fits : ltb (tlv_size - 8) size ≡ false = ground (arith, room) in
    let a : (kind == c.tlv_types.container) ≡ false = ground (arith, u.no_container) in
    let b : (kind == c.tlv_types.db_scale) ≡ false = ground (arith, u.no_scale) in
    let d : (kind == c.tlv_types.db_linear) ≡ false = ground (arith, u.no_linear) in
    let e : (kind == c.tlv_types.db_range) ≡ false = ground (arith, u.no_range) in
    let fuel : length (some kind ∷ some size ∷ map some ws) + 1 ≡ suc (length (map some ws) + 2) =
      omega arith in
    (
      dump size (map some ws),
      dump-Dumped size ws lt,
      rw
          (
            fuel,
            decode-words c (length (map some ws) + 2) spaces kind size tlv_size (map some ws) small,
            fits,
          )
          (rw (a, b, d, e) (shown_line spaces kind (dump size (map some ws)))),
    )
