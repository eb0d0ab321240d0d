-- ===== src/TmixerAlsa/Volumes.antt =====
-- The words and the volumes of `sset` in tmixer/tmixer-alsa.c: get_bool_simple, simple_skip_word and
-- set_volume_simple.
use tcos.Base.{
  ℕ, ◌+◌, ltb, ℤ, pos, negsuc, ltb_ℤ, ◌+ℤ◌, sub_ℕ, Bool, false, ◌&&◌, ◌||◌, not, ◌==◌, Bytes, [],
  ◌∷◌, Option, none, some, if◌then◌else◌,
}
use tcos.CText.Decimal.{is_digit}
use tcos.Host.{
  Trace, Event, ControlSide, VolType, vol_raw, vol_decibel, set_volume, M, pure, ask, emit, deref,
  int_overflow, ◌>>=◌, ◌>>◌,
}
use tcos.TmixerAlsa.{has_prefix}

-- A control of ALSA's mixer, what the C library reads from a text, and the options of the program.
pub record Control : Type 0 where
  pub has_volume : ControlSide → Bool
  pub get_range : Trace → ControlSide → VolType → Option (ℤ × ℤ)
  pub get_volume : Trace → ControlSide → VolType → ℕ → Option ℤ
  pub has_channel : ControlSide → ℕ → Bool
  pub has_switch : ControlSide → Bool
  pub switch_joined : ControlSide → Bool
  pub get_switch : Trace → ControlSide → ℕ → Bool
  pub is_enumerated : Bool
  pub enum_items : ℕ
  -- The name of an item, or an error.
  pub item_name : ℕ → Option Bytes
  -- Whether a setter accepts its value.
  pub accepts : Trace → Event → Bool
  -- strtol(s, &p, 10), with what is left
  pub strtol : Bytes → ℤ × Bytes
  -- (long)convert_prange1(strtod(s, NULL), min, max)
  pub percent : Bytes → ℤ → ℤ → ℤ
  -- (long)(strtod(s, NULL) * 100.0)
  pub hundredths : Bytes → ℤ
  -- LONG_MAX + 1
  pub long_limit : ℕ
  pub no_check : Bool
  pub ignore_error : Bool

-- if (*p == c) p++;
abbrev pub skip_one : ℕ → Bytes → Bytes
skip_one c [] = []
skip_one c (d ∷ s) = if d == c then s else d ∷ s

-- To the end of a value, which a comma or a colon ends, and past it.
unfoldable pub skip_value : Bytes → Bytes
skip_value [] = []
skip_value (c ∷ s) = let rest = skip_value s in if c == b',' || c == b':' then s else rest

abbrev pub skip_separator : Bytes → Bytes
skip_separator [] = []
skip_separator (c ∷ s) = if c == b',' || c == b':' then s else c ∷ s

unfoldable pub get_bool_simple : Bytes → Bytes → Bool → Bool → Bool × Bytes
unfolding has_prefix skip_value
get_bool_simple ptr str invert orig =
    let value = skip_one b':' ptr in
    if has_prefix value str then (not invert, skip_value value) else (orig, skip_separator value)

-- `none` if the word is another one.
unfoldable pub simple_skip_word : Bytes → Bytes → Option Bytes
unfolding has_prefix skip_value
simple_skip_word ptr str =
    let xptr = skip_one b':' ptr in if has_prefix xptr str then some (skip_value xptr) else none

unfoldable pub check_range : Bool → ℤ → ℤ → ℤ → ℤ
check_range no_check val min max =
    if no_check then val else if ltb_ℤ val min then min else if ltb_ℤ max val then max else val

-- The volume that is to be set; `none` where `invalid` is set.
pub record Pending : Type 0 where
  pub val : ℤ
  pub pmin : ℤ
  pub pmax : ℤ
  pub vol_type : VolType

abbrev pub within : VolType → ℤ → Option (ℤ × ℤ) → Option Pending
within vol_type val none = none
within vol_type val (some (pmin, pmax)) =
    some (record { val = val; pmin = pmin; pmax = pmax; vol_type = vol_type })

-- The number in front; digits behind a point are skipped.
unfoldable pub read_volume : (Bytes → ℤ × Bytes) → Bytes → ℤ × Bytes
read_volume strtol s = let (val, p) = strtol s in (val, skip_fraction strtol p)
  where
    skip_fraction : (Bytes → ℤ × Bytes) → Bytes → Bytes
    skip_fraction scan [] = []
    skip_fraction scan (d ∷ p) = if d == b'.' then (scan p).1 else d ∷ p

unfoldable pub to_percent : Control → Bytes → Option Pending → Option Pending
to_percent c s none = none
to_percent c s (some v) = some (record v { val = c.percent s v.pmin v.pmax })

unfoldable pub to_decibel : Control → Trace → ControlSide → Bytes → Option Pending → Option Pending
to_decibel c t dir s none = none
to_decibel c t dir s (some v) = within vol_decibel (c.hundredths s) (c.get_range t dir vol_decibel)

-- "%" or "dB" behind the number
unfoldable pub read_unit :
    Control → Trace → ControlSide → Bytes → Option Pending → Bytes → Option Pending × Bytes
unfolding to_percent to_decibel
read_unit c t dir s v [] = (v, [])
read_unit c t dir s v (b ∷ []) = if b == b'%' then (to_percent c s v, []) else (v, b ∷ [])
read_unit c t dir s v (b ∷ d ∷ p) =
    if b == b'%'
    then (to_percent c s v, d ∷ p)
    else if b == b'd' && d == b'B'
    then (to_decibel c t dir s v, p)
    else (v, b ∷ d ∷ p)

-- A long, if it is one.
unfoldable pub to_long : ℕ → ℤ → Option ℤ
to_long limit (pos n) = if ltb n limit then some (pos n) else none
to_long limit (negsuc n) = if ltb n limit then some (negsuc n) else none

abbrev pub opposite : ℤ → ℤ
opposite (pos n) = sub_ℕ 0 n
opposite (negsuc n) = pos (n + 1)

-- The volume that the channel has, more or less the value.
unfoldable pub relative : Control → ControlSide → ℕ → (ℤ → ℤ) → Option Pending → M (Option Pending)
unfolding to_long
relative c dir chn sign none = pure none
relative c dir chn sign (some v) = do
  orig ← ask (λ t. c.get_volume t dir v.vol_type chn)
  elim orig as (λ _. M (Option Pending)) [
    | none ↦ pure none
    | some o ↦ deref int_overflow (to_long c.long_limit (o +ℤ sign v.val)) >>= λ val.
        pure (some (record v { val = val }))
  ]

-- "+" or "-" behind the number
unfoldable pub read_sign :
    Control → ControlSide → ℕ → Option Pending → Bytes → M (Option Pending × Bytes)
unfolding relative
read_sign c dir chn v [] = pure (v, [])
read_sign c dir chn v (b ∷ p) =
    if b == b'+'
    then (relative c dir chn (λ val. val) v >>= λ w. pure (w, p))
    else if b == b'-'
    then (relative c dir chn opposite v >>= λ w. pure (w, p))
    else pure (v, b ∷ p)

-- The setter, with whether it returns no error.
unfoldable pub put_volume : Control → ControlSide → ℕ → Option Pending → M Bool
unfolding check_range
put_volume c dir chn none = pure false
put_volume c dir chn (some v) = do
  let event = set_volume dir v.vol_type chn (check_range c.no_check v.val v.pmin v.pmax)
  accepted ← ask (λ t. c.accepts t event)
  emit event
  pure accepted

abbrev pub starts_number : Bytes → Bool
starts_number [] = false
starts_number (b ∷ p) = is_digit b || b == b'-'

-- set_volume_simple(…) >= 0, and what is left of the text.
unfoldable pub set_volume_simple : Control → ControlSide → ℕ → Bytes → M (Bool × Bytes)
unfolding read_volume read_unit read_sign put_volume
set_volume_simple c dir chn ptr = do
  let s = skip_one b':' ptr
  if not (starts_number s) then pure (c.has_volume dir, skip_one b',' s) else do
    range ← ask (λ t. if c.has_volume dir then c.get_range t dir vol_raw else none)
    let (val, p) = read_volume c.strtol s
    (scaled, q) ← ask (λ t. read_unit c t dir s (within vol_raw val range) p)
    (volume, r) ← read_sign c dir chn scaled q
    accepted ← put_volume c dir chn volume
    pure (accepted, skip_one b',' r)
