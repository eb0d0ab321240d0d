-- ===== src/TmixerAlsa/ArgLines.antt =====
-- split_line of tmixer/tmixer-alsa.c: a line of stdin as arguments. A token is moved to the front
-- of the line when quotes or backslashes are taken out of it.
pub mod Quoted
use tcos.Base.{
  ℕ, zero, suc, Bool, true, false, ◌&&◌, ◌||◌, ◌==◌, Bytes, List, [], ◌∷◌, if◌then◌else◌,
}
use tcos.CText.Decimal.{is_space, skip_spaces}

-- `quote` is 0 outside quotes; `moved` says whether dst is behind buf.
pub record State : Type 0 where
  pub esc : Bool
  pub quote : ℕ
  pub moved : Bool

-- What the loop does with a byte.
pub data Move : Type 0 where
  line_break : Move
  space : Move
  leave_out : State → Move
  copy : State → Move

abbrev pub is_quote : ℕ → Bool
is_quote c = c == b'\'' || c == b'"'

unfoldable pub move : State → ℕ → Move
unfolding is_space
move st c =
    if c == b'\n'
    then line_break
    else if st.esc
    then copy (record st { esc = false })
    else if st.quote == 0 && is_space c
    then space
    else if c == b'\\'
    then leave_out (record st { esc = true; moved = true })
    else if is_quote c && st.quote == 0
    then leave_out (record st { quote = c; moved = true })
    else if is_quote c && c == st.quote
    then leave_out (record st { quote = 0; moved = true })
    else copy st

-- The NUL behind a token that was not moved replaces the line break.
abbrev pub at_break : Bool → Bytes → Bytes
at_break true s = s
at_break false s = []

-- A token, and what is left of the line.
unfoldable pub read_token : State → Bytes → Bytes × Bytes
read_token st [] = ([], [])
read_token st (c ∷ s) = elim (move st c) [
  | line_break ↦ ([], at_break st.moved (c ∷ s))
  | space ↦ ([], s)
  | leave_out next ↦ read_token next s
  | copy next ↦ let (token, rest) = read_token next s in (c ∷ token, rest)
]

abbrev pub start : State
start = record { esc = false; quote = 0; moved = false }

-- A line whose next word starts a comment, or that has none, ends the arguments.
unfoldable pub split_from : ℕ → Bytes → List Bytes
unfolding read_token skip_spaces
split_from zero buf = []
split_from (suc n) buf = elim (skip_spaces buf) [
  | [] ↦ []
  | c ∷ s ↦
      let (token, rest) = read_token start (c ∷ s) in
      let tokens = split_from n rest in
      if c == b'\n' || c == b'#' || c == b'!' then [] else token ∷ tokens
]

unfoldable pub split_line : Bytes → ℕ → List Bytes
unfolding split_from
split_line buf max_token = split_from max_token buf

-- MAX_ARGS
abbrev pub max_args : ℕ
max_args = 32
