-- ===== src/TmixerAlsa/Tlv/Compound.antt =====
-- What decode_tlv of tmixer/tmixer-alsa.c shows of a compound.
use tcos.Base.{
  ℕ, suc, ◌+◌, ◌-◌, ◌*◌, ◌/◌, ◌≤◌, ◌<◌, ◌≡◌, refl, true, false, ltb, lt→ltb, arith, Bytes, codes,
  [], ◌∷◌, ◌++◌, some, Bool-cases, inl, inr, length, if◌then◌else◌, ==_refl,
}
use tcos.CText.Decimal.{print_int}
use tcos.TmixerAlsa.{ok}
use tcos.TmixerAlsa.Card.{Card, Memory, concat}
use tcos.TmixerAlsa.ControlId.{to_signed}
use tcos.TmixerAlsa.Tlv.{Nested, print_spaces, word, container, values, sized, decode, decode_tlv}

-- The message for an element of `len` bytes, which is handed over as the room that the element has
-- together with its two first words.
abbrev pub element_error : ℕ → ℕ → ℕ → Bytes
element_error spaces kind len =
    if ltb len 8
    then codes "TLV size error!\n"
    else concat (
        (print_spaces spaces ++ codes "| ")
        ∷ codes "TLV size error ("
        ∷ print_int (to_signed kind)
        ∷ codes ", "
        ∷ print_int (to_signed len)
        ∷ codes ", "
        ∷ print_int (to_signed (len - 8))
        ∷ codes ")!\n"
        ∷ [])

abbrev pub compound_error : ℕ → ℕ → ℕ → ℕ → Bytes
compound_error spaces own kind len =
    if ltb (((own + 3) / 4 - 2) * 4) len
    then codes "TLV size error in compound!\n"
    else element_error (spaces + 2) kind len ++ codes "\n"

decode_element :
    (c : Card) (fuel spaces kind len : ℕ) (rest : Memory)
    → decode c (suc fuel) spaces (some kind ∷ some len ∷ rest) len
      ≡ ok (element_error spaces kind len)
unfolding decode sized word
decode_element c fuel spaces kind len rest = elim (Bool-cases (ltb len 8)) [
  | inl short ↦ rw short refl
  | inr long ↦
      let beyond : ltb (len - 8) len ≡ true = lt→ltb _ _ (ground arith) in rw (long, beyond) refl
]

pub decode-words :
    (c : Card) (fuel spaces kind size tlv_size : ℕ) (rest : Memory)
    → ltb tlv_size 8 ≡ false
    → decode c (suc fuel) spaces (some kind ∷ some size ∷ rest) tlv_size
      ≡ sized c (decode c fuel) spaces (some kind ∷ some size ∷ rest) kind size (tlv_size - 8)
unfolding decode word
decode-words c fuel spaces kind size tlv_size rest room = rw room refl

-- The loop over a compound goes round once.
container_once :
    (nested : Nested) (spaces fuel own first kind len : ℕ) (rest : Memory) (shown : Bytes)
    → 8 < own
    → nested (spaces + 2) (some kind ∷ some len ∷ rest) len ≡ ok shown
    → container nested spaces
        (some first ∷ some own ∷ some kind ∷ some len ∷ rest)
        own
        ((own + 3) / 4)
        (suc (suc fuel))
        2
      ≡ ok (
          if ltb (((own + 3) / 4 - 2) * 4) len
          then codes "TLV size error in compound!\n"
          else shown ++ codes "\n")
unfolding container word
container_once nested spaces fuel own first kind len rest shown some_words e =
    let some_round : ltb 2 ((own + 3) / 4) ≡ true = lt→ltb _ _ (omega arith) in
    let no_round : ltb (2 + (2 + (own + 3) / 4)) ((own + 3) / 4) ≡ false = ground arith in
    elim (Bool-cases (ltb (((own + 3) / 4 - 2) * 4) len)) [
      | inl wide ↦ rw (some_round, wide) refl
      | inr fits_in ↦ rw (some_round, fits_in, e, no_round) refl
    ]

-- decode_tlv shows no element of a compound: for one of more than eight bytes that fits its room,
-- the text has a size error for its first element, whatever that is, and nothing of the others.
pub compound_shows_none :
    (c : Card) (spaces own kind len tlv_size : ℕ) (rest : Memory)
    → 8 < own
    → own + 8 ≤ tlv_size
    → decode_tlv c spaces
        (some c.tlv_types.container ∷ some own ∷ some kind ∷ some len ∷ rest)
        tlv_size
      ≡ ok ((print_spaces spaces ++ codes "| ") ++ compound_error spaces own kind len)
unfolding decode_tlv sized values
compound_shows_none c spaces own kind len tlv_size rest some_words fits =
    let words : Memory = some c.tlv_types.container ∷ some own ∷ some kind ∷ some len ∷ rest in
    let fuel : length words + 1 ≡ suc (suc (length rest + 3)) = omega arith in
    let room : ltb tlv_size 8 ≡ false = ground arith in
    let sizes : ltb (tlv_size - 8) own ≡ false = ground arith in
    let once =
      container_once (decode c (suc (length rest + 3))) spaces (length rest + 3) own
        c.tlv_types.container kind len rest (element_error (spaces + 2) kind len) some_words
        (decode_element c (length rest + 3) (spaces + 2) kind len rest) in
    rw
      (
        fuel,
        decode-words c (suc (length rest + 3)) spaces c.tlv_types.container own tlv_size
            (some kind ∷ some len ∷ rest) room,
        sizes,
        ==_refl,
      )
      (rw (fuel, once) refl)
