-- ===== src/TmixerAlsa/SimpleId.antt =====
-- parse_simple_id of tmixer/tmixer-alsa.c: the name and the index of a simple control.
pub mod Reading
use tcos.Base.{
  ℕ, ◌+◌, ℤ, pos, Bool, true, false, ◌&&◌, ◌||◌, not, ◌==◌, Bytes, List, [], ◌∷◌, take, drop, ◌-◌,
  if◌then◌else◌,
}
use tcos.CText.Decimal.{is_digit}
use tcos.TmixerAlsa.{Result, ok, einval, ◌>>=◌, skip_blanks, break_at, to_int}

-- snd_mixer_selem_id_set_name and snd_mixer_selem_id_set_index.
pub record SimpleId : Type 0 where
  pub name : Bytes
  pub index : ℤ

-- sizeof(buf)
abbrev pub name_size : ℕ
name_size = 128

-- The bytes of a name, those that fit, and what is left behind its closing quote.
unfoldable pub read_name : Bytes → Bytes × Bytes
unfolding break_at
read_name [] = ([], [])
read_name (c ∷ s) =
    if c == b'"' || c == b'\''
    then (let (kept, rest) = break_at c s in (take (name_size - 1) kept, drop 1 rest))
    else (let (kept, rest) = break_at b',' (c ∷ s) in (take (name_size - 1) kept, rest))

unfoldable pub after_name : Bytes → Bytes → Result SimpleId
unfolding to_int is_digit
after_name name [] = ok (record { name = name; index = pos 0 })
after_name name (c ∷ []) = einval
after_name name (c ∷ d ∷ s) =
    if not (c == b',')
    then einval
    else if not (is_digit d)
    then einval
    else (to_int (d ∷ s) >>= λ i. ok (record { name = name; index = i }))

unfoldable pub parse_from : Bytes → Result SimpleId
unfolding read_name after_name
parse_from [] = einval
parse_from (c ∷ s) = let (name, rest) = read_name (c ∷ s) in after_name name rest

unfoldable pub parse_simple_id : Bytes → Result SimpleId
unfolding parse_from skip_blanks
parse_simple_id str = parse_from (skip_blanks str)
