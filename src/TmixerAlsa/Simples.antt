-- ===== src/TmixerAlsa/Simples.antt =====
-- show_selem and selems of tmixer/tmixer-alsa.c: what is shown of the simple controls. A volume
-- that cannot be read is an uninitialised variable: each of the two is read once at most.
use tcos.Base.{
  ℕ, zero, suc, ◌+◌, ◌==◌, ℤ, pos, ◌+ℤ◌, Bool, false, ◌&&◌, ◌||◌, not, Bytes, codes, List, [], ◌∷◌,
  Option, none, some, length, if◌then◌else◌,
}
use tcos.CText.Decimal.{print_int, int_limit}
use tcos.Host.{
  M, ControlSide, playback, capture, vol_raw, uninitialised, int_overflow, mixer_close, alsa, deref,
  pure, ask, emit, ◌>>=◌, ◌>>◌,
}
use tcos.TmixerAlsa.Card.{Card, Options, Simple, Status, success, negative, say, open_mixer}
use tcos.TmixerAlsa.Elements.{Level, is_zero}
use tcos.TmixerAlsa.SimpleId.{SimpleId}
use tcos.TmixerAlsa.Volumes.{Control, to_long, opposite}

-- The difference of two ints, if it is one.
unfoldable pub difference : ℤ → ℤ → Option ℤ
unfolding to_long
difference a b = to_long int_limit (a +ℤ opposite b)

-- (val - min) / (max - min) in percent, for ints; `none` where a difference is no int.
unfoldable pub convert_prange : Card → ℤ → ℤ → ℤ → Option ℤ
unfolding difference
convert_prange c val min max = elim (difference max min) [
  | none ↦ none
  | some range ↦ if is_zero range then some (pos 0) else elim (difference val min) [
    | none ↦ none
    | some above ↦ some (c.rint_percent above range)
  ]
]

unfoldable pub get_percent : Card → ℤ → ℤ × ℤ → M Bytes
unfolding convert_prange
get_percent c val (min, max) = do
  p ← deref int_overflow (convert_prange c (c.to_int val) (c.to_int min) (c.to_int max))
  pure (print_int p)

abbrev pub on_off : Bool → Bytes
on_off value = if value then codes "on" else codes "off"

-- The volume of a channel as a percentage, with `mark` behind it.
unfoldable pub show_volume : Card → Control → ControlSide → ℕ → ℤ × ℤ → Bytes → M (Unit {0})
unfolding get_percent say
show_volume c control side chn range mark = do
  volume ← ask (λ t. control.get_volume t side vol_raw chn)
  val ← deref uninitialised volume
  percent ← get_percent c val range
  say (percent ∷ mark ∷ [])

unfoldable pub show_switch : Control → ControlSide → ℕ → Bytes → M (Unit {0})
unfolding say
show_switch control side chn mark = do
  value ← ask (λ t. control.get_switch t side chn)
  say (mark ∷ on_off value ∷ [])

abbrev pub both_zero : Option (ℤ × ℤ) → ℤ × ℤ
both_zero none = (pos 0, pos 0)
both_zero (some range) = range

-- The range of a side, where the code asks for it; else, and where the call fails, 0 and 0.
unfoldable pub side_range : Simple → ControlSide → M (ℤ × ℤ)
side_range s side =
    let control = s.control in
    let asked =
      if s.common_volume
      then control.has_volume playback || control.has_volume capture
      else control.has_volume side in
    ask (λ t. if asked then both_zero (control.get_range t side vol_raw) else (pos 0, pos 0))

-- pmono and cmono
unfoldable pub is_mono : Card → Simple → ControlSide → Bool
is_mono c s side =
    let control = s.control in
    control.has_channel side c.ids.mono
    && (s.is_mono side || (not (control.has_volume side) && not (control.has_switch side)))

-- The values of the one channel of a side.
unfoldable pub show_mono : Card → Simple → ControlSide → ℤ × ℤ → M (Unit {0})
unfolding show_volume show_switch
show_mono c s side range =
    let control = s.control in
    (if not s.common_volume && control.has_volume side
      then show_volume c control side c.ids.mono range []
      else pure tt)
    >> (if not s.common_switch && control.has_switch side
        then show_switch control side c.ids.mono (codes ",")
        else pure tt)

-- What is shown of a channel's side: its volume and its switch, common ones only where neither side
-- is mono; the capture side tests pmono too.
unfoldable pub shows_volume : Simple → ControlSide → Bool → Bool → Bool
shows_volume s side pmono cmono =
    if s.common_volume then not pmono && not cmono else not pmono && s.control.has_volume side

unfoldable pub shows_switch : Simple → ControlSide → Bool → Bool → Bool
shows_switch s side pmono cmono =
    if s.common_switch then not pmono && not cmono else not pmono && s.control.has_switch side

-- Where only one of the two is common, that one comes first.
unfoldable pub show_channel_side : Card → Simple → ControlSide → ℕ → ℤ × ℤ → Bool → Bool → M Bool
unfolding show_volume show_switch shows_volume shows_switch
show_channel_side c s side chn range pmono cmono =
    let control = s.control in
    let volume = shows_volume s side pmono cmono in
    let switch = shows_switch s side pmono cmono in
    let put_volume = if volume then show_volume c control side chn range (codes ",") else pure tt in
    let put_switch = if switch then show_switch control side chn [] else pure tt in
    if not (control.has_channel side chn)
    then pure false
    else ((if s.common_switch && not s.common_volume
          then put_switch >> put_volume
          else put_volume >> put_switch)
        >> pure (volume || switch))

-- The loop over the channels from `chn` on, of which `n` are left: the first one of which something
-- is shown is the last.
unfoldable pub show_channels : Card → Simple → Bool → Bool → ℤ × ℤ → ℤ × ℤ → ℕ → ℕ → M (Unit {0})
unfolding show_channel_side
show_channels c s pmono cmono prange crange zero chn = pure tt
show_channels c s pmono cmono prange crange (suc n) chn =
    let rest = show_channels c s pmono cmono prange crange n (chn + 1) in
    let control = s.control in
    if (pmono || not (control.has_channel playback chn))
      && (cmono || not (control.has_channel capture chn))
    then rest
    else (do
      left ← show_channel_side c s playback chn prange pmono cmono
      right ← show_channel_side c s capture chn crange pmono cmono
      if left || right then pure tt else rest)

abbrev pub has_any_volume : Simple → Bool
has_any_volume s =
    s.common_volume || (s.control.has_volume playback || s.control.has_volume capture)

abbrev pub has_any_switch : Simple → Bool
has_any_switch s =
    s.common_switch || (s.control.has_switch playback || s.control.has_switch capture)

-- A line with the name, the kinds and the values.
unfoldable pub show_contents : Card → SimpleId → Simple → M (Unit {0})
unfolding say side_range is_mono show_mono show_channels
show_contents c sid s = do
  say (sid.name ∷ codes "," ∷ [])
  if has_any_volume s then say (codes "volume|" ∷ []) else pure tt
  if has_any_switch s then say (codes "switch|" ∷ []) else pure tt
  say (codes "," ∷ [])
  prange ← side_range s playback
  crange ← side_range s capture
  let pmono = is_mono c s playback
  let cmono = is_mono c s capture
  if pmono then show_mono c s playback prange else pure tt
  if pmono && s.control.has_channel capture c.ids.mono
      then show_mono c s capture crange
      else pure tt
  if not pmono || not cmono
      then show_channels c s pmono cmono prange crange (c.ids.last + 1) 0
      else pure tt
  say (codes "\n" ∷ [])

unfoldable pub show_found : Card → SimpleId → Level → Option Simple → M Status
unfolding say show_contents
show_found c sid level none = pure negative
show_found c sid level (some s) =
    if s.control.is_enumerated
    then pure success
    else if level.basic
    then show_contents c sid s >> pure success
    else if length sid.name == 0
    then pure success
    else say (sid.name ∷ codes "|" ∷ []) >> pure success

unfoldable pub show_selem : Card → SimpleId → Level → M Status
unfolding show_found
show_selem c sid level = ask (λ t. c.find_simple t sid) >>= show_found c sid level

unfoldable pub list_simples : Card → Level → List SimpleId → M (Unit {0})
unfolding show_selem
list_simples c level [] = pure tt
list_simples c level (sid ∷ sids) =
    let rest = list_simples c level sids in
    ask (λ t. c.is_active t sid) >>= λ active.
    if not level.inactive && not active then rest else show_selem c sid level >> rest

unfoldable pub selems : Card → Options → Level → M Status
unfolding open_mixer list_simples
selems c o level = do
  opened ← open_mixer c o
  if not opened
      then pure negative
      else do sids ← ask c.simples; list_simples c level sids; emit (alsa mixer_close); pure success
