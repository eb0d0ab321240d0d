-- ===== src/TmixerAlsa/ArgLines/Quoted.antt =====
-- Arguments in quotes are read back by split_line of tmixer/tmixer-alsa.c.
use tcos.Base.{
  ℕ, zero, suc, ◌≤◌, ◌≡◌, ◌≢◌, refl, arith, true, false, ◌||◌, ◌==◌, Bool-cases, inl, inr, Bytes,
  List, [], ◌∷◌, All, length, ◌++◌, ap, if◌then◌else◌,
}
use tcos.CText.Decimal.{is_space, skip_spaces}
use tcos.TmixerAlsa.ArgLines.{
  State, copy, leave_out, move, read_token, start, split_from, split_line,
}

-- A token between double quotes, with a backslash before a quote or a backslash in it, in front of
-- a text.
unfoldable pub escape : Bytes → Bytes → Bytes
escape [] rest = b'"' ∷ b' ' ∷ rest
escape (c ∷ t) rest =
    let s = escape t rest in if c == b'"' || c == b'\\' then b'\\' ∷ c ∷ s else c ∷ s

-- The tokens, each in quotes and with a space behind it.
unfoldable pub line_of : List Bytes → Bytes
unfolding escape
line_of [] = []
line_of (t ∷ ts) = b'"' ∷ escape t (line_of ts)

abbrev in_quotes : State
in_quotes = record { esc = false; quote = b'"'; moved = true }

move-plain :
    (c : ℕ) → c ≢ b'\n' → (c == b'"' || c == b'\\') ≡ false → move in_quotes c ≡ copy in_quotes
unfolding move
move-plain c break plain = ground (arith, break, plain)

move-escaped : (c : ℕ) → c ≢ b'\n' → move (record in_quotes { esc = true }) c ≡ copy in_quotes
unfolding move
move-escaped c break = ground (arith, break)

module _ (st next : State) (c : ℕ) (s : Bytes) where
  read_token-copy :
      {token rest : Bytes}
      → move st c ≡ copy next
      → read_token next s ≡ (token, rest)
      → read_token st (c ∷ s) ≡ (c ∷ token, rest)
  unfolding read_token
  read_token-copy moves reads = rw (moves, read_token) (rw reads refl)

  read_token-leave :
      {token rest : Bytes}
      → move st c ≡ leave_out next
      → read_token next s ≡ (token, rest)
      → read_token st (c ∷ s) ≡ (token, rest)
  unfolding read_token
  read_token-leave moves reads = rw (moves, read_token) (rw reads refl)

read_token-escape :
    (t rest : Bytes) → All (λ c. c ≢ b'\n') t → read_token in_quotes (escape t rest) ≡ (t, rest)
unfolding escape
read_token-escape [] rest h = unfold read_token move is_space in refl
read_token-escape (c ∷ t) rest h = elim (Bool-cases (c == b'"' || c == b'\\')) [
  | inl e ↦ rw e (
      read_token-leave in_quotes (record in_quotes { esc = true }) b'\\' _
        (unfold move is_space in refl)
        (read_token-copy _ in_quotes c _ (move-escaped c h.0) (read_token-escape t rest h.1)))
  | inr e ↦
      rw e (
        read_token-copy in_quotes in_quotes c _ (move-plain c h.0 e) (read_token-escape t rest h.1))
]

-- Any arguments without line breaks, up to the limit, can be given on a line: in double quotes,
-- with a backslash in front of the double quotes and backslashes in them.
pub split_line-quoted :
    (ts : List Bytes) (max_token : ℕ)
    → All (All (λ c. c ≢ b'\n')) ts
    → length ts ≤ max_token
    → split_line (line_of ts) max_token ≡ ts
unfolding split_line line_of split_from
split_line-quoted [] zero h le = refl
split_line-quoted [] (suc n) h le = unfold skip_spaces in refl
split_line-quoted (t ∷ ts) zero h le = absurd (omega arith)
split_line-quoted (t ∷ ts) (suc n) h le =
    let reads =
      read_token-leave start in_quotes b'"' (escape t (line_of ts)) (unfold move is_space in refl)
        (read_token-escape t (line_of ts) h.0) in
    let spaces : skip_spaces (b'"' ∷ escape t (line_of ts)) ≡ b'"' ∷ escape t (line_of ts) =
      unfold skip_spaces is_space in refl in
    rw (spaces, reads, split_line-quoted ts n h.1 (omega arith)) refl

escape-append : (t rest end : Bytes) → escape t rest ++ end ≡ escape t (rest ++ end)
unfolding escape
escape-append [] rest end = refl
escape-append (c ∷ t) rest end = elim (Bool-cases (c == b'"' || c == b'\\')) [
  | inl e ↦ rw e (ap (λ s. b'\\' ∷ c ∷ s) (escape-append t rest end))
  | inr e ↦ rw e (ap (λ s. c ∷ s) (escape-append t rest end))
]

-- The same with the line break behind the line.
pub split_line-broken :
    (ts : List Bytes) (max_token : ℕ)
    → All (All (λ c. c ≢ b'\n')) ts
    → length ts ≤ max_token
    → split_line (line_of ts ++ b'\n' ∷ []) max_token ≡ ts
unfolding split_line line_of split_from
split_line-broken [] zero h le = refl
split_line-broken [] (suc n) h le = unfold skip_spaces is_space in refl
split_line-broken (t ∷ ts) zero h le = absurd (omega arith)
split_line-broken (t ∷ ts) (suc n) h le =
    let text = line_of ts ++ b'\n' ∷ [] in
    let reads =
      read_token-leave start in_quotes b'"' (escape t text) (unfold move is_space in refl)
        (read_token-escape t text h.0) in
    let spaces : skip_spaces (b'"' ∷ escape t text) ≡ b'"' ∷ escape t text =
      unfold skip_spaces is_space in refl in
    rw (escape-append t (line_of ts) (b'\n' ∷ []))
      (rw (spaces, reads, split_line-broken ts n h.1 (omega arith)) refl)
