-- ===== src/CText.antt =====
-- The text routines that the programs take from the C library, on byte lists, and `split` and
-- `remove_line_break` of xmlrpc/common.c (`split` of tnc/tcos-net-controller.c is the same text).
pub mod Tokens
pub mod Lines
pub mod Decimal
use tcos.Base.{
  ℕ, zero, suc, ◌-◌, Bool, true, false, ◌||◌, Option, none, some, Bytes, [], ◌∷◌, ◌++◌, ◌==◌, List,
  take, if◌then◌else◌,
}

-- What stands before the first byte `c`: a C string ends at its NUL.
unfoldable pub until : ℕ → Bytes → Bytes
until c [] = []
until c (b ∷ s) = let rest = until c s in if b == c then [] else b ∷ rest

-- s[strcspn(s, "\n")] = '\0'
unfoldable pub remove_line_break : Bytes → Bytes
unfolding until
remove_line_break s = until b'\n' s

-- The bytes that fgets stores with room for `n`: up to the line break, which is kept.
unfoldable pub take_line : ℕ → Bytes → Bytes
take_line zero s = []
take_line (suc n) [] = []
take_line (suc n) (c ∷ s) = let rest = take_line n s in if c == b'\n' then c ∷ [] else c ∷ rest

-- fgets(buf, size, fp) on a stream that holds `s`: `none` is NULL, which leaves `buf` as it was.
unfoldable pub fgets : ℕ → Bytes → Option Bytes
unfolding take_line until
fgets size [] = none
fgets size (c ∷ s) = some (until 0 (take_line (size - 1) (c ∷ s)))

-- `line` after fgets(line, size, fp): its old contents if the stream is at its end.
unfoldable pub fgets_into : Bytes → ℕ → Bytes → Bytes
unfolding fgets
fgets_into old size s = elim (fgets size s) [ none ↦ old | some line ↦ line ]

-- snprintf(buf, size, …) keeps what fits beside the closing NUL.
unfoldable pub snprintf : ℕ → Bytes → Bytes
snprintf size s = take (size - 1) s

-- c is one of the delimiters of strtok.
unfoldable pub is_delim : Bytes → ℕ → Bool
is_delim [] c = false
is_delim (d ∷ ds) c = d == c || is_delim ds c

module _ (delim : Bytes) where
  unfoldable pub skip_delims : Bytes → Bytes
  skip_delims [] = []
  skip_delims (c ∷ s) = let rest = skip_delims s in if is_delim delim c then rest else c ∷ s

  unfoldable pub token : Bytes → Bytes
  token [] = []
  token (c ∷ s) = let rest = token s in if is_delim delim c then [] else c ∷ rest

  -- What strtok keeps for its next call: the text behind the delimiter that ended the token.
  unfoldable pub after_token : Bytes → Bytes
  after_token [] = []
  after_token (c ∷ s) = let rest = after_token s in if is_delim delim c then s else rest

-- strtok: the next token and the text left, or NULL.
unfoldable pub strtok : Bytes → Bytes → Option (Bytes × Bytes)
strtok delim s = elim (skip_delims delim s) [
  | [] ↦ none
  | c ∷ r ↦ some (token delim (c ∷ r), after_token delim (c ∷ r))
]

abbrev pub max_tokens : ℕ
max_tokens = 256

-- The loop of `split` has MAXTOKENS - 1 - idx rounds left.
unfoldable pub split_loop : ℕ → Bytes → Bytes → List Bytes
split_loop zero delim s = []
split_loop (suc n) delim s = elim (strtok delim s) [
  | none ↦ []
  | some (tok, rest) ↦ tok ∷ split_loop n delim rest
]

unfoldable pub split : Bytes → Bytes → List Bytes
unfolding split_loop strtok skip_delims token after_token is_delim
split s delim = split_loop (max_tokens - 1) delim s
