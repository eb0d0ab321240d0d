-- ===== src/TmixerAlsa.antt =====
-- tmixer/tmixer-alsa.c, the command line tool over the ALSA mixer: how it reads the identifiers of
-- controls, the lines of stdin and the arguments of sset. The C locale is assumed for strncasecmp,
-- isdigit and isspace.
pub mod SimpleId
pub mod Volumes
pub mod Masks
pub mod Channels
pub mod Enums
pub mod Allowed
pub mod InRange
pub mod ArgLines
pub mod ControlId
pub mod Scans
pub mod Card
pub mod Integers
pub mod Tlv
pub mod Elements
pub mod Simples
pub mod Sset
pub mod Cset
pub mod Listening
pub mod CommandLine
pub mod Main
pub mod Safe
use tcos.Base.{
  ℕ, ◌+◌, ◌≡◌, ℤ, Bool, true, false, ◌&&◌, ◌||◌, ◌==◌, leb, Bytes, List, [], ◌∷◌, Option, none,
  some, if◌then◌else◌,
}
use tcos.CText.Decimal.{atoi, is_digit}
use tcos.Host.{Cause, int_overflow}

-- What a parser returns: a value, -EINVAL, or behaviour that C leaves undefined. `endless` is a
-- loop that has no rounds left.
pub data Result (A : Type 0) : Type 0 where
  ok : A → Result A
  einval : Result A
  undefined : Cause → Result A
  endless : Result A

infixl 5 ◌>>=◌
abbrev pub ◌>>=◌ : {A B : Type 0} → Result A → (A → Result B) → Result B
◌>>=◌ (ok a) f = f a
◌>>=◌ einval f = einval
◌>>=◌ (undefined c) f = undefined c
◌>>=◌ endless f = endless

unfoldable pub to_lower : ℕ → ℕ
to_lower c = if leb b'A' c && leb c b'Z' then c + 32 else c

-- strncasecmp(s, word, n) == 0, for a word of n bytes in lower case.
unfoldable pub has_prefix : Bytes → Bytes → Bool
unfolding to_lower
has_prefix s [] = true
has_prefix [] (d ∷ word) = false
has_prefix (c ∷ s) (d ∷ word) = to_lower c == d && has_prefix s word

-- while (*str == ' ' || *str == '\t') str++;
unfoldable pub skip_blanks : Bytes → Bytes
skip_blanks [] = []
skip_blanks (c ∷ s) = let rest = skip_blanks s in if c == b' ' || c == b'\t' then rest else c ∷ s

-- while (isdigit(*str)) str++;
unfoldable pub skip_digits : Bytes → Bytes
unfolding is_digit
skip_digits [] = []
skip_digits (c ∷ s) = let rest = skip_digits s in if is_digit c then rest else c ∷ s

-- The bytes in front of the first `c`, and what is left from there on.
unfoldable pub break_at : ℕ → Bytes → Bytes × Bytes
break_at c [] = ([], [])
break_at c (d ∷ s) =
    let (before, rest) = break_at c s in if d == c then ([], d ∷ s) else (d ∷ before, rest)

-- atoi, which is undefined for a number that is no int.
unfoldable pub to_int : Bytes → Result ℤ
unfolding atoi
to_int s = elim (atoi s) [ none ↦ undefined int_overflow | some v ↦ ok v ]
