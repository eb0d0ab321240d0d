-- ===== src/CText/Tokens.antt =====
-- What `split` returns.
use tcos.Base.{
  ℕ, zero, suc, ◌≤◌, ◌<◌, subst, Option-cases, ◌≡◌, refl, ap, ◌≢◌, true, false, inl, inr, some,
  Bytes, List, [], ◌∷◌, ◌++◌, arith, All, length,
}
use tcos.CText.{is_delim, skip_delims, token, after_token, strtok, split_loop, split, max_tokens}

-- A token: not empty, and without a delimiter.
pub record IsToken (delim : Bytes) (tok : Bytes) : Type 0 where
  pub filled : tok ≢ []
  pub plain : All (λ c. is_delim delim c ≡ false) tok

token-plain : (delim s : Bytes) → All (λ c. is_delim delim c ≡ false) (token delim s)
unfolding token
token-plain delim [] = tt
token-plain delim (c ∷ s) = ground (arith, token-plain delim s)

-- skip_delims stops at a byte that is no delimiter.
skip-head :
    (delim s : Bytes) {c : ℕ} {r : Bytes} → skip_delims delim s ≡ c ∷ r → is_delim delim c ≡ false
unfolding skip_delims
skip-head delim [] h = cc
skip-head delim (b ∷ s) {c} {r} h = ground (arith, skip-head delim s {c = c} {r = r})

token-filled :
    (delim : Bytes) (c : ℕ) (r : Bytes) → is_delim delim c ≡ false → token delim (c ∷ r) ≢ []
unfolding token
token-filled delim c r h = ground arith

strtok-IsToken :
    (delim s : Bytes) {tok rest : Bytes} → strtok delim s ≡ some (tok, rest) → IsToken delim tok
unfolding strtok
strtok-IsToken delim s {tok} {rest} h = go (skip_delims delim s) refl
  where
    go : (l : Bytes) → skip_delims delim s ≡ l → IsToken delim tok
    go [] e = cc (rw (e, strtok) at h)
    go (c ∷ r) e =
        let e' : token delim (c ∷ r) ≡ tok = ground (arith, e) in
        subst (IsToken delim) e' (record {
          filled = token-filled delim c r (skip-head delim s e);
          plain = token-plain delim (c ∷ r);
        })

pub split_loop-IsToken : (n : ℕ) (delim s : Bytes) → All (IsToken delim) (split_loop n delim s)
unfolding split_loop
split_loop-IsToken zero delim s = tt
split_loop-IsToken (suc n) delim s = elim (Option-cases (strtok delim s)) [
  | inl e ↦ rw (e, split_loop) tt
  | inr (t, e) ↦ rw (e, split_loop) (strtok-IsToken delim s e, split_loop-IsToken n delim t.1)
]

pub length-split_loop : (n : ℕ) (delim s : Bytes) → length (split_loop n delim s) ≤ n
unfolding split_loop
length-split_loop zero delim s = omega arith
length-split_loop (suc n) delim s = elim (Option-cases (strtok delim s)) [
  | inl e ↦ rw (e, split_loop) (omega arith)
  | inr (t, e) ↦ rw (e, split_loop) (omega (arith, length-split_loop n delim t.1))
]

-- Every part of `split` is a token, and there are at most 255, so the last entry of the array
-- stays NULL.
pub split_tokens :
    (s delim : Bytes) → All (IsToken delim) (split s delim) × (length (split s delim) < max_tokens)
unfolding split
split_tokens s delim =
    (split_loop-IsToken 255 delim s, omega (arith, length-split_loop 255 delim s))

-- The parts with one delimiter behind each but the last.
abbrev pub delimited : ℕ → List Bytes → Bytes
delimited d [] = []
delimited d (p ∷ []) = p
delimited d (p ∷ q ∷ ps) = p ++ d ∷ delimited d (q ∷ ps)

module _ (delim : Bytes) where
  skip_plain : (p : Bytes) (r : Bytes) → IsToken delim p → skip_delims delim (p ++ r) ≡ p ++ r
  unfolding skip_delims
  skip_plain [] r h = absurd (h.filled refl)
  skip_plain (c ∷ p) r h = rw (h.plain.0)

  token_to_end :
      (p : Bytes)
      → All (λ c. is_delim delim c ≡ false) p
      → (token delim p ≡ p) × (after_token delim p ≡ [])
  unfolding token after_token
  token_to_end [] h = (refl, refl)
  token_to_end (c ∷ p) h = ground (arith, token_to_end p h.1, h.0)

  token_to_delim :
      (p r : Bytes) (d : ℕ)
      → All (λ c. is_delim delim c ≡ false) p
      → is_delim delim d ≡ true
      → (token delim (p ++ d ∷ r) ≡ p) × (after_token delim (p ++ d ∷ r) ≡ r)
  unfolding token after_token
  token_to_delim [] r d h hd = ground (arith, hd)
  token_to_delim (c ∷ p) r d h hd = ground (arith, token_to_delim p r d h.1 hd, h.0)

  strtok_last : (p : Bytes) → IsToken delim p → strtok delim p ≡ some (p, [])
  unfolding strtok
  strtok_last [] h = absurd (h.filled refl)
  strtok_last (c ∷ p) h =
      let e : skip_delims delim (c ∷ p) ≡ c ∷ p = unfold skip_delims in rw (h.plain.0) in
      ground (arith, e, token_to_end (c ∷ p) h.plain)

  strtok_next :
      (p r : Bytes) (d : ℕ)
      → IsToken delim p
      → is_delim delim d ≡ true
      → strtok delim (p ++ d ∷ r) ≡ some (p, r)
  unfolding strtok
  strtok_next [] r d h hd = absurd (h.filled refl)
  strtok_next (c ∷ p) r d h hd =
      ground (arith, skip_plain (c ∷ p) (d ∷ r) h, token_to_delim (c ∷ p) r d h.plain hd)

  pub split_loop-delimited :
      (n d : ℕ) (ps : List Bytes)
      → All (IsToken delim) ps
      → is_delim delim d ≡ true
      → length ps ≤ n
      → split_loop n delim (delimited d ps) ≡ ps
  unfolding split_loop
  split_loop-delimited zero d [] h hd le = refl
  split_loop-delimited zero d (p ∷ ps) h hd le = absurd (omega arith)
  split_loop-delimited (suc n) d [] h hd le = unfold strtok skip_delims in refl
  split_loop-delimited (suc zero) d (p ∷ []) h hd le = rw (strtok_last p h.0, split_loop)
  split_loop-delimited (suc (suc n)) d (p ∷ []) h hd le =
      rw (strtok_last p h.0, split_loop) (unfold strtok skip_delims in refl)
  split_loop-delimited (suc n) d (p ∷ q ∷ ps) h hd le =
      rw (strtok_next p (delimited d (q ∷ ps)) d h.0 hd, split_loop)
        (ap (λ r. p ∷ r) (split_loop-delimited n d (q ∷ ps) h.1 hd (omega arith)))

-- Up to 255 tokens with one delimiter between them are split into themselves.
pub split-delimited :
    (delim : Bytes) (d : ℕ) (ps : List Bytes)
    → All (IsToken delim) ps
    → is_delim delim d ≡ true
    → length ps < max_tokens
    → split (delimited d ps) delim ≡ ps
unfolding split
split-delimited delim d ps h hd le = split_loop-delimited delim 255 d ps h hd (omega arith)

-- Each part with a delimiter behind it.
abbrev pub terminated : ℕ → List Bytes → Bytes
terminated d [] = []
terminated d (p ∷ ps) = p ++ d ∷ terminated d ps

split_loop-terminated :
    (delim : Bytes) (n d : ℕ) (ps : List Bytes)
    → All (IsToken delim) ps
    → is_delim delim d ≡ true
    → length ps ≤ n
    → split_loop n delim (terminated d ps) ≡ ps
unfolding split_loop
split_loop-terminated delim zero d [] h hd le = refl
split_loop-terminated delim zero d (p ∷ ps) h hd le = absurd (omega arith)
split_loop-terminated delim (suc n) d [] h hd le = unfold strtok skip_delims in refl
split_loop-terminated delim (suc n) d (p ∷ ps) h hd le =
    rw (strtok_next delim p (terminated d ps) d h.0 hd, split_loop)
      (ap (λ r. p ∷ r) (split_loop-terminated delim n d ps h.1 hd (omega arith)))

pub split-terminated :
    (delim : Bytes) (d : ℕ) (ps : List Bytes)
    → All (IsToken delim) ps
    → is_delim delim d ≡ true
    → length ps < max_tokens
    → split (terminated d ps) delim ≡ ps
unfolding split
split-terminated delim d ps h hd le = split_loop-terminated delim 255 d ps h hd (omega arith)
