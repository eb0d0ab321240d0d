-- ===== src/Tests/Volumes.antt =====
-- The arguments of tmixer-alsa's sset, for a control with two playback channels and 32 steps.
use tcos.Base.{
  if◌then◌else◌, ◌==◌, ℕ, ◌+◌, ◌*◌, ◌/◌, ◌≡◌, refl, pos, ltb, true, false, Bool, codes, [], ◌∷◌,
  some, none, str_prefix, str_contains,
}
use tcos.CText.Decimal.{read_digits, is_digit, is_space}
use tcos.Host.{
  set_enum_item, ControlSide, playback, capture, vol_raw, set_volume, set_switch, done, pure, ask,
  emit,
}
use tcos.TmixerAlsa.{has_prefix, to_lower}
use tcos.TmixerAlsa.Volumes.{
  Control, skip_value, get_bool_simple, check_range, read_volume, to_percent, read_unit, read_sign,
  put_volume, set_volume_simple,
}
use tcos.TmixerAlsa.Channels
use tcos.TmixerAlsa.Masks
use tcos.TmixerAlsa.Channels.{Check, changed, sset_channels}
use tcos.TmixerAlsa.Masks.{ChannelIds}
use tcos.TmixerAlsa.Enums.{
  set_control, sset_enum, enum_arguments, set_items, get_enum_item_index, find_item,
  skip_separators, put_item,
}

abbrev two_of : ControlSide → ℕ → Bool
two_of playback chn = ltb chn 2
two_of capture chn = false

abbrev is_playback : ControlSide → Bool
is_playback playback = true
is_playback capture = false

abbrev pub front : Control
front = record {
  has_volume = is_playback;
  get_range = λ t dir vol_type. some (pos 0, pos 31);
  get_volume = λ t dir vol_type chn. some (pos 10);
  has_channel = two_of;
  has_switch = is_playback;
  switch_joined = λ dir. false;
  get_switch = λ t dir chn. true;
  is_enumerated = false;
  enum_items = 0;
  item_name = λ i. none;
  accepts = λ t e. true;
  strtol = λ s. (pos ((read_digits 0 s).0), (read_digits 0 s).1);
  percent = λ s pmin pmax. pos (((read_digits 0 s).0 * 31 + 99) / 100);
  hundredths = λ s. pos 0;
  long_limit = 1000;
  no_check = false;
  ignore_error = false;
}

abbrev pub ids : ChannelIds
ids = record {
  mono = 0;
  front_left = 0;
  front_right = 1;
  front_center = 4;
  rear_left = 2;
  rear_right = 3;
  woofer = 5;
  last = 5;
}

-- Both channels are set to half of the steps, on a percent sign that each adds.
sets_both :
    sset_channels front ids ((codes "50", 8) ∷ []) []
    ≡ done changed
        (set_volume playback vol_raw 1 (pos 16) ∷ set_volume playback vol_raw 0 (pos 16) ∷ [])
unfolding sset_channels Channels.set_arguments Channels.start_flags Masks.channels_mask
    Masks.dir_mask Channels.set_channels Channels.start_loop Channels.after_loop Masks.find_mask
    Masks.chanmask Channels.set_channel Channels.on_side Channels.set_side Channels.find_word
    Channels.switch_words Channels.use_other Channels.use_number Channels.add_percent
    set_volume_simple read_volume read_unit to_percent read_sign put_volume check_range has_prefix
    to_lower str_prefix str_contains read_digits is_digit ask emit pure
sets_both = refl

-- With a value for each channel, the percent sign stands behind the last one only: the first is
-- taken as it is.
first_value_raw :
    sset_channels front ids ((codes "5,50", 8) ∷ []) []
    ≡ done changed
        (set_volume playback vol_raw 1 (pos 16) ∷ set_volume playback vol_raw 0 (pos 5) ∷ [])
unfolding sset_channels Channels.set_arguments Channels.start_flags Masks.channels_mask
    Masks.dir_mask Channels.set_channels Channels.start_loop Channels.after_loop Masks.find_mask
    Masks.chanmask Channels.set_channel Channels.on_side Channels.set_side Channels.find_word
    Channels.switch_words Channels.use_other Channels.use_number Channels.add_percent
    set_volume_simple read_volume read_unit to_percent read_sign put_volume check_range has_prefix
    to_lower str_prefix str_contains read_digits is_digit ask emit pure
first_value_raw = refl

unmutes_front :
    sset_channels front ids ((codes "frontleft playback unmute", 0) ∷ []) []
    ≡ done changed (set_switch playback 0 true ∷ [])
unfolding sset_channels Channels.set_arguments Channels.start_flags Masks.channels_mask
    Masks.dir_mask Masks.skip_word Channels.set_channels Channels.start_loop Channels.after_loop
    Masks.find_mask Masks.chanmask Channels.set_channel Channels.on_side Channels.set_side
    Channels.find_word Channels.switch_words Channels.use_word Channels.put_switch get_bool_simple
    skip_value has_prefix to_lower str_prefix str_contains ask emit pure
unmutes_front = refl

-- A control with two items; the second is set, and what follows it is unknown.
abbrev source : Control
source = record front {
  is_enumerated = true;
  enum_items = 2;
  item_name = λ i. if i == 0 then some (codes "Mic") else some (codes "Line");
}

sets_item :
    set_control source ids ((codes "Line, CD", 0) ∷ []) [] ≡ done changed (set_enum_item 0 1 ∷ [])
unfolding set_control sset_enum enum_arguments set_items get_enum_item_index find_item
    skip_separators put_item is_space str_prefix ask emit pure
sets_item = refl
