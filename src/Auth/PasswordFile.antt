-- ===== src/Auth/PasswordFile.antt =====
-- The account check of validate-tcos.c on a file that holds a line "user:hash".
use tcos.Base.{
  ℕ, ◌+◌, ◌<◌, some, false, Bytes, codes, [], ◌∷◌, ◌++◌, ◌≡◌, ◌≢◌, refl, sym, ap, ◌∙◌, arith, ◌↔◌,
  str_eq_refl, All, All-append, length, length-append, append_assoc,
}
use tcos.CText.{fgets, is_delim, split}
use tcos.CText.Lines.{fgets-line}
use tcos.CText.Tokens.{delimited, split-delimited}
use tcos.Auth.Decisions.{compare_sound}
use tcos.Host.{Host, Trace, done, pure, ask, deref}
use tcos.Auth.{
  bsize, login_ok, pass_id, tcospasswd_file, drop_last_byte, compare_tcos, check_tokens, read_tcos,
  validate_tcos,
}

-- What a field of the file may hold.
abbrev pub IsFieldByte : ℕ → Type 0
IsFieldByte c = (c ≢ 0) × (c ≢ b':') × (c ≢ b'\n')

drop_last_byte-append : (s : Bytes) (c : ℕ) → drop_last_byte (s ++ c ∷ []) ≡ s
unfolding drop_last_byte
drop_last_byte-append [] c = refl
drop_last_byte-append (b ∷ []) c = refl
drop_last_byte-append (b ∷ d ∷ s) c = ap (λ r. b ∷ r) (drop_last_byte-append (d ∷ s) c)

-- The bytes of a field, seen one property at a time.
module _ {P : ℕ → Type 0} (f : (c : ℕ) → IsFieldByte c → P c) where
  field_bytes : (s : Bytes) → All IsFieldByte s → All P s
  field_bytes [] h = tt
  field_bytes (c ∷ s) (p, h) = (f c p, field_bytes s h)

nonempty : (s : Bytes) (c : ℕ) → s ++ c ∷ [] ≢ []
nonempty [] c h = cc
nonempty (b ∷ s) c h = cc

colon_delim : (c : ℕ) → c ≢ b':' → is_delim (codes ":") c ≡ false
unfolding is_delim
colon_delim c h = ground arith

-- The first line of the file, as fgets stores it.
module _ (user hash : Bytes) (hu : All IsFieldByte user) (hh : All IsFieldByte hash) where
  entry : Bytes
  entry = delimited b':' (user ∷ (hash ++ b'\n' ∷ []) ∷ [])

  line_bytes :
      {P : ℕ → Type 0} (f : (c : ℕ) → IsFieldByte c → P c) → P b':' → All P (user ++ b':' ∷ hash)
  line_bytes {P} f colon =
      All-append P user (b':' ∷ hash) (field_bytes f user hu) (colon, field_bytes f hash hh)

  fgets-entry :
      (n : ℕ) (rest : Bytes)
      → length user + length hash + 2 < n
      → fgets n (user ++ b':' ∷ hash ++ b'\n' ∷ rest) ≡ some entry
  unfolding entry
  fgets-entry n rest lt =
      fgets-line n (user ++ b':' ∷ hash) rest (line_bytes (λ c p. p.2) (omega arith))
        (line_bytes (λ c p. p.0) (omega arith)) (omega (arith, length-append user (b':' ∷ hash)))
      ∙ ap some (append_assoc user (b':' ∷ hash) (b'\n' ∷ []))

  split-entry : user ≢ [] → split entry (codes ":") ≡ user ∷ (hash ++ b'\n' ∷ []) ∷ []
  unfolding entry
  split-entry ne =
      split-delimited (codes ":") b':' (user ∷ (hash ++ b'\n' ∷ []) ∷ [])
        (
          record { filled = ne; plain = field_bytes (λ c p. colon_delim c p.1) user hu },
          (
            record {
              filled = nonempty hash b'\n';
              plain =
                  All-append (λ c. is_delim (codes ":") c ≡ false) hash (b'\n' ∷ [])
                    (field_bytes (λ c p. colon_delim c p.1) hash hh)
                    (colon_delim b'\n' (omega arith), tt);
            },
            tt,
          ),
        )
        (unfold is_delim in refl) (omega arith)

compare_complete :
    (h : Host) (t : Trace) (name pass user hash : Bytes)
    → name ≡ user
    → h.crypt pass pass_id ≡ some hash
    → compare_tcos h name pass user (some hash) t ≡ done login_ok t
unfolding compare_tcos pure deref
compare_complete h t name pass user hash same coded =
    rw (same, str_eq_refl user, coded, deref, str_eq_refl hash)

compare_decides :
    (h : Host) (t : Trace) (name pass user hash : Bytes)
    → (compare_tcos h name pass user (some hash) t ≡ done login_ok t)
      ↔ ((name ≡ user) × (h.crypt pass pass_id ≡ some hash))
compare_decides h t name pass user hash =
    (sound, λ (same, coded). compare_complete h t name pass user hash same coded)
  where
    sound :
        compare_tcos h name pass user (some hash) t ≡ done login_ok t
        → (name ≡ user) × (h.crypt pass pass_id ≡ some hash)
    sound k =
        let (p, e, same, coded) = compare_sound h name pass user (some hash) t k in
        (sym same, cc (e, coded))

module _ (user hash rest : Bytes) (hu : All IsFieldByte user) (hh : All IsFieldByte hash) where
  read_line :
      (h : Host) (t : Trace) (name pass : Bytes)
      → user ≢ []
      → length user + length hash + 2 < bsize
      → read_tcos h name pass (some (user ++ b':' ∷ hash ++ b'\n' ∷ rest)) t
        ≡ compare_tcos h name pass user (some hash) t
  unfolding read_tcos deref check_tokens
  read_line h t name pass ne lt = rw (
    fgets-entry user hash hu hh bsize rest lt,
    deref,
    split-entry user hash hu hh ne,
    check_tokens,
    drop_last_byte-append hash b'\n',
  )

  -- If the first line of /etc/tcospasswd is "user:hash" and fits the buffer, the user's name is not
  -- empty, and neither field holds a NUL, a colon or a line break, validate_tcos accepts exactly
  -- that user, with a password that crypt codes to the hash.
  pub tcospasswd_decides :
      (h : Host) (t : Trace) (name pass : Bytes)
      → user ≢ []
      → length user + length hash + 2 < bsize
      → h.read_file t tcospasswd_file ≡ some (user ++ b':' ∷ hash ++ b'\n' ∷ rest)
      → (validate_tcos h name pass t ≡ done login_ok t)
        ↔ ((name ≡ user) × (h.crypt pass pass_id ≡ some hash))
  unfolding validate_tcos ask
  tcospasswd_decides h t name pass ne lt file =
      rw (file, read_line h t name pass ne lt) (compare_decides h t name pass user hash)
