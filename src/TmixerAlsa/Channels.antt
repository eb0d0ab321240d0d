-- ===== src/TmixerAlsa/Channels.antt =====
-- sset_channels of tmixer/tmixer-alsa.c: what the arguments of
-- `sset` do to the channels of a control.
use tcos.Base.{
  ℕ, zero, suc, ◌+◌, ◌-◌, ◌^◌, ltb, bit_and, Bool, true, false, ◌&&◌, ◌||◌, not, ◌==◌, Bytes, codes,
  List, [], ◌∷◌, ◌++◌, Option, none, some, drop, length, str_prefix, str_contains, if◌then◌else◌,
}
use tcos.CText.Decimal.{is_digit}
use tcos.Host.{
  ControlSide, playback, capture, set_switch, M, pure, undef, ask, emit, buffer_overflow, ◌>>=◌,
  ◌>>◌,
}
use tcos.TmixerAlsa.Volumes.{Control, get_bool_simple, simple_skip_word, set_volume_simple}
use tcos.TmixerAlsa.Masks.{ChannelIds, bit, channels_mask, dir_mask}

-- The words that set a switch, with `invert`, and the words of the other side, which are skipped.
unfoldable pub switch_words : ControlSide → List (Bytes × Bool)
switch_words playback =
    (codes "mute", true) ∷ (codes "off", true) ∷ (codes "unmute", false) ∷ (codes "on", false) ∷ []
switch_words capture =
    (codes "cap", false) ∷ (codes "rec", false) ∷ (codes "nocap", true) ∷ (codes "norec", true) ∷ []

unfoldable pub skipped_words : ControlSide → List Bytes
skipped_words playback = codes "cap" ∷ codes "rec" ∷ codes "nocap" ∷ codes "norec" ∷ []
skipped_words capture = codes "mute" ∷ codes "off" ∷ codes "unmute" ∷ codes "on" ∷ []

unfoldable pub find_word : Bytes → List (Bytes × Bool) → Option (Bytes × Bool)
find_word ptr [] = none
find_word ptr ((word, invert) ∷ words) =
    let rest = find_word ptr words in if str_prefix ptr word then some (word, invert) else rest

unfoldable pub skip_first : Bytes → List Bytes → Option Bytes
unfolding simple_skip_word
skip_first ptr [] = none
skip_first ptr (word ∷ words) =
    let rest = skip_first ptr words in
    elim (simple_skip_word ptr word) [ none ↦ rest | some s ↦ some s ]

-- check_flag: -1, 0 or 1.
pub data Check : Type 0 where
  failed skipped changed : Check

-- The loop over the channels: the argument from optr on, where ptr stands in it, how many bytes
-- behind its NUL can be written, and the flags.
pub record Loop : Type 0 where
  pub text : Bytes
  pub ptr : ℕ
  pub room : ℕ
  pub firstchn : Bool
  pub ok_playback : Bool
  pub ok_capture : Bool
  pub check_flag : Check

abbrev pub rest_of : Loop → Bytes
rest_of st = drop st.ptr st.text

-- ptr moves on to where `rest` starts.
abbrev pub moved_to : Bytes → Loop → Loop
moved_to rest st = record st { ptr = length st.text - length rest }

abbrev pub checked : Bool → Loop → Loop
checked accepted st = if accepted then record st { check_flag = changed } else st

unfoldable pub put_switch : Control → ControlSide → ℕ → Bool → M Bool
put_switch c dir chn value = do
  accepted ← ask (λ t. c.accepts t (set_switch dir chn value))
  emit (set_switch dir chn value)
  pure accepted

-- ptr = strcat(ptr, "%"), on the playback side only
unfoldable pub add_percent : ControlSide → Loop → M Loop
add_percent capture st = pure st
add_percent playback st =
    if ltb 0 st.room
    then pure (record st { text = st.text ++ b'%' ∷ []; room = st.room - 1 })
    else undef buffer_overflow

unfoldable pub use_word : Control → ControlSide → ℕ → Loop → Bytes → Bool → M Loop
unfolding get_bool_simple put_switch
use_word c dir chn st word invert = do
  ival ← ask (λ t. c.get_switch t dir chn)
  let (value, rest) = get_bool_simple (rest_of st) word invert ival
  accepted ← put_switch c dir chn value
  pure (checked accepted (moved_to rest st))

abbrev pub after_skip : Option Bytes → Loop → Loop
after_skip none st = st
after_skip (some rest) st = moved_to rest st

unfoldable pub toggle : Control → ControlSide → ℕ → Loop → M Loop
unfolding put_switch simple_skip_word
toggle c dir chn st =
    let skip = λ (s : Loop). pure (after_skip (simple_skip_word (rest_of s) (codes "toggle")) s) in
    if st.firstchn || not (c.switch_joined dir)
    then (do
      ival ← ask (λ t. c.get_switch t dir chn)
      accepted ← put_switch c dir chn (not ival)
      skip (checked accepted st))
    else skip st

unfoldable pub use_number : Control → ControlSide → ℕ → Loop → M Loop
unfolding add_percent set_volume_simple
use_number c dir chn st = do
  longer ← add_percent dir st
  (accepted, rest) ← set_volume_simple c dir chn (rest_of longer)
  pure (checked accepted (moved_to rest longer))

abbrev pub unknown : ControlSide → Loop → Loop
unknown playback st = record st { ok_playback = false }
unknown capture st = record st { ok_capture = false }

abbrev pub skipped_or_unknown : ControlSide → Loop → Option Bytes → Loop
skipped_or_unknown dir st none = unknown dir st
skipped_or_unknown dir st (some rest) = moved_to rest st

abbrev pub is_number : Bytes → Bool
is_number [] = false
is_number (b ∷ s) = is_digit b || b == b'-' || b == b'+'

unfoldable pub use_other : Control → ControlSide → ℕ → Loop → M Loop
unfolding toggle use_number skip_first skipped_words
use_other c dir chn st =
    if str_prefix (rest_of st) (codes "toggle") && c.has_switch dir
    then toggle c dir chn st
    else if is_number (rest_of st)
    then use_number c dir chn st
    else pure (skipped_or_unknown dir st (skip_first (rest_of st) (skipped_words dir)))

-- What one side of a channel does with the text at ptr.
unfoldable pub set_side : Control → ControlSide → ℕ → Loop → M Loop
unfolding use_word use_other find_word switch_words
set_side c dir chn st =
    elim (if c.has_switch dir then find_word (rest_of st) (switch_words dir) else none)
      as (λ _. M Loop) [
        | none ↦ use_other c dir chn st
        | some (word, invert) ↦ use_word c dir chn st word invert
      ]

abbrev pub takes_part : Control → ControlSide → ℕ → ℕ → Bool
takes_part c playback dir chn = not (bit_and dir 1 == 0) && c.has_channel playback chn
takes_part c capture dir chn = not (bit_and dir 2 == 0) && c.has_channel capture chn

unfoldable pub on_side : Control → ControlSide → ℕ → ℕ → Loop → M Loop
unfolding set_side
on_side c side dir chn st = if takes_part c side dir chn then set_side c side chn st else pure st

-- Both sides read the text from where ptr stands before.
unfoldable pub set_channel : Control → ℕ → ℕ → Loop → M Loop
unfolding on_side
set_channel c dir chn st = do
  next ← on_side c playback dir chn st
  on_side c capture dir chn
      (if takes_part c capture dir chn then record next { ptr = st.ptr } else next)

-- The channels from `chn` on, of which `n` are left; the Boolean says that no side knew the text.
unfoldable pub set_channels : Control → ℕ → ℕ → Bool → ℕ → ℕ → Loop → M (Bool × Loop)
unfolding set_channel
set_channels c channels dir multi zero chn st = pure (false, st)
set_channels c channels dir multi (suc n) chn st =
    if bit_and channels (bit chn) == 0
    then set_channels c channels dir multi n (chn + 1) st
    else (set_channel c dir chn st >>= λ next.
        if not next.ok_playback && not next.ok_capture
        then pure (true, next)
        else set_channels c channels dir multi n (chn + 1)
            (record next { ptr = if multi then next.ptr else 0; firstchn = false }))

-- The flags that go from one argument to the next.
pub record Flags : Type 0 where
  pub channels : ℕ
  pub dir : ℕ
  pub playback_flag : Bool
  pub capture_flag : Bool
  pub check : Check

unfoldable pub start_loop : Flags → Bytes → ℕ → Loop
start_loop flags text room = record {
  text = text;
  ptr = 0;
  room = room;
  firstchn = true;
  ok_playback = flags.playback_flag;
  ok_capture = flags.capture_flag;
  check_flag = flags.check;
}

unfoldable pub after_loop : Flags → Loop → Flags
after_loop flags st = record flags {
  playback_flag = st.ok_playback;
  capture_flag = st.ok_capture;
  check = st.check_flag;
}

-- The loop over the arguments, each with the bytes behind it that nothing else uses.
unfoldable pub set_arguments : Control → ChannelIds → List (Bytes × ℕ) → Flags → M Check
unfolding channels_mask dir_mask set_channels start_loop after_loop
set_arguments c ids [] flags = pure flags.check
set_arguments c ids ((arg, room) ∷ args) flags = do
  let (channels, ptr) = channels_mask ids arg flags.channels
  let named = record flags { channels = channels }
  if length ptr == 0 then set_arguments c ids args named else do
    let (dir, text) = dir_mask ptr flags.dir
    let aimed = record named { dir = dir }
    if length text == 0 then set_arguments c ids args aimed else do
      let multi = str_contains text (codes ",")
      (unknown_text, st) ←
          set_channels c channels dir multi (ids.last + 1) 0 (start_loop aimed text room)
      if unknown_text then pure skipped else set_arguments c ids args (after_loop aimed st)

-- All channels, both directions.
unfoldable pub start_flags : Control → Flags
start_flags c = record {
  channels = 2 ^ 32 - 1;
  dir = 3;
  playback_flag = true;
  capture_flag = true;
  check = if c.ignore_error then skipped else failed;
}

unfoldable pub sset_channels : Control → ChannelIds → List (Bytes × ℕ) → M Check
unfolding set_arguments start_flags
sset_channels c ids args = set_arguments c ids args (start_flags c)
