-- ===== src/TmixerAlsa/InRange.antt =====
-- Which volumes `sset` of tmixer/tmixer-alsa.c sets.
use tcos.Base.{
  ℕ, zero, suc, ◌+◌, Bool, Option-cases, inl, inr, Bytes, List, [], ◌∷◌, length, ◌<◌, Option, some,
  none, if◌then◌else◌,
}
use tcos.Host.{set_enum_item, M, pure, ◌>>=◌, ControlSide, playback, capture}
use tcos.Host.Emits.{Emits, emits_rules, Emits-bind, Emits-pure, Emits-if}
use tcos.TmixerAlsa.Volumes.{Control}
use tcos.TmixerAlsa.Channels.{
  rest_of, find_word, switch_words, Loop, Flags, put_switch, add_percent, use_word, toggle,
  use_number, use_other, set_side, on_side, set_channel, set_channels, set_arguments, sset_channels,
  start_flags, Check,
}
use tcos.TmixerAlsa.Masks.{ChannelIds}
use tcos.TmixerAlsa.Enums.{
  set_control, sset_enum, enum_arguments, set_items, put_item, flag, skip_separators,
  get_enum_item_index, Items, stopped, finished, endless,
}
use tcos.TmixerAlsa.Enums.Ends.{Found, get_enum_item_index-Found}
use tcos.TmixerAlsa.Allowed.{IsAllowed, IsChecking, set_volume_simple-Allowed}

module _ (c : Control) (checking : IsChecking c) (dir : ControlSide) where
  put_switch-Allowed : (chn : ℕ) (value : Bool) → Emits (IsAllowed c) (put_switch c dir chn value)
  unfolding put_switch
  put_switch-Allowed chn value = search (emits_rules, IsAllowed.switch)

  use_word-Allowed :
      (chn : ℕ) (st : Loop) (word : Bytes) (invert : Bool)
      → Emits (IsAllowed c) (use_word c dir chn st word invert)
  unfolding use_word
  use_word-Allowed chn st word invert = search (emits_rules, put_switch-Allowed)

  toggle-Allowed : (chn : ℕ) (st : Loop) → Emits (IsAllowed c) (toggle c dir chn st)
  unfolding toggle
  toggle-Allowed chn st = search (emits_rules, put_switch-Allowed)

  add_percent-Allowed : (side : ControlSide) (st : Loop) → Emits (IsAllowed c) (add_percent side st)
  unfolding add_percent
  add_percent-Allowed capture st = search emits_rules
  add_percent-Allowed playback st = search emits_rules

  use_number-Allowed : (chn : ℕ) (st : Loop) → Emits (IsAllowed c) (use_number c dir chn st)
  unfolding use_number
  use_number-Allowed chn st =
      search (emits_rules, add_percent-Allowed, set_volume_simple-Allowed c checking dir)

  use_other-Allowed : (chn : ℕ) (st : Loop) → Emits (IsAllowed c) (use_other c dir chn st)
  unfolding use_other
  use_other-Allowed chn st = search (emits_rules, toggle-Allowed, use_number-Allowed)

  set_side-Allowed : (chn : ℕ) (st : Loop) → Emits (IsAllowed c) (set_side c dir chn st)
  unfolding set_side
  set_side-Allowed chn st =
      elim (Option-cases
        (if c.has_switch dir then find_word (rest_of st) (switch_words dir) else none)) [
          | inl e ↦ rw (e, set_side) (use_other-Allowed chn st)
          | inr (word, e) ↦ rw (e, set_side) (use_word-Allowed chn st (word.0) (word.1))
        ]

module _ (c : Control) (checking : IsChecking c) where
  on_side-Allowed :
      (side : ControlSide) (dir chn : ℕ) (st : Loop)
      → Emits (IsAllowed c) (on_side c side dir chn st)
  unfolding on_side
  on_side-Allowed side dir chn st =
      Emits-if _ _ _ (set_side-Allowed c checking side chn st) (Emits-pure st)

  set_channel-Allowed : (dir chn : ℕ) (st : Loop) → Emits (IsAllowed c) (set_channel c dir chn st)
  unfolding set_channel
  set_channel-Allowed dir chn st = search (emits_rules, on_side-Allowed)

  set_channels-Allowed :
      (channels dir : ℕ) (multi : Bool) (n chn : ℕ) (st : Loop)
      → Emits (IsAllowed c) (set_channels c channels dir multi n chn st)
  unfolding set_channels
  set_channels-Allowed channels dir multi zero chn st = Emits-pure _
  set_channels-Allowed channels dir multi (suc n) chn st =
      let rest = set_channels-Allowed channels dir multi n (chn + 1) in
      Emits-if _ _ _ (rest st) (
        Emits-bind _ _ (set_channel-Allowed dir chn st)
          (λ next. Emits-if _ _ _ (Emits-pure _) (rest _)))

  set_arguments-Allowed :
      (ids : ChannelIds) (args : List (Bytes × ℕ)) (flags : Flags)
      → Emits (IsAllowed c) (set_arguments c ids args flags)
  unfolding set_arguments
  set_arguments-Allowed ids [] flags = Emits-pure _
  set_arguments-Allowed ids ((arg, room) ∷ args) flags =
      let rest = set_arguments-Allowed ids args in search (emits_rules, rest, set_channels-Allowed)

  put_item-Allowed : (i : ℕ) → i < c.enum_items → Emits (IsAllowed c) (put_item c i)
  unfolding put_item
  put_item-Allowed i below =
      let allowed : IsAllowed c (set_enum_item 0 i) = IsAllowed.item i below in
      search (emits_rules, allowed)

  set_item-Allowed :
      (fuel k : ℕ) (check : Check) (o : Option (ℕ × Bytes))
      → Found c.enum_items k o
      → ((ptr : Bytes) (found : Check) → Emits (IsAllowed c) (set_items c fuel ptr found))
      → Emits (IsAllowed c) (elim o as (λ _. M Items) [
        | none ↦ pure (stopped check)
        | some (ival, rest) ↦ put_item c ival >>= λ accepted.
            set_items c fuel (skip_separators rest) (flag accepted check)
      ])
  set_item-Allowed fuel k check _ Found.nothing h = Emits-pure _
  set_item-Allowed fuel k check _ (Found.found i rest below shorter) h =
      Emits-bind (put_item c i)
        (λ accepted. set_items c fuel (skip_separators rest) (flag accepted check))
        (put_item-Allowed i below) (λ accepted. h _ _)

  set_items-Allowed :
      (fuel : ℕ) (ptr : Bytes) (check : Check) → Emits (IsAllowed c) (set_items c fuel ptr check)
  unfolding set_items
  set_items-Allowed fuel [] check = Emits-pure _
  set_items-Allowed zero (b ∷ p) check = Emits-pure _
  set_items-Allowed (suc fuel) (b ∷ p) check =
      set_item-Allowed fuel (length p) check (get_enum_item_index c (b ∷ p))
        (get_enum_item_index-Found c b p) (set_items-Allowed fuel)

  next_argument-Allowed :
      (args : List Bytes) (check : Check) (items : Items)
      → ((found : Check) → Emits (IsAllowed c) (enum_arguments c args found))
      → Emits (IsAllowed c) (elim items as (λ _. M Check) [
        | stopped found ↦ pure found
        | finished found ↦ enum_arguments c args found
        | endless ↦ pure check
      ])
  next_argument-Allowed args check (stopped found) h = Emits-pure _
  next_argument-Allowed args check (finished found) h = h found
  next_argument-Allowed args check endless h = Emits-pure _

  enum_arguments-Allowed :
      (args : List Bytes) (check : Check) → Emits (IsAllowed c) (enum_arguments c args check)
  unfolding enum_arguments
  enum_arguments-Allowed [] check = Emits-pure _
  enum_arguments-Allowed (arg ∷ args) check =
      Emits-bind (set_items c (length arg) arg check) _ (set_items-Allowed (length arg) arg check)
        (λ items. next_argument-Allowed args check items (enum_arguments-Allowed args))

  -- With the range check on, and where no range that the control reports is empty, the setter of
  -- `sset` only sets switches, items that the control has, and volumes that lie in a reported range
  -- of their side and unit, whatever its arguments.
  pub sset_in_range :
      (ids : ChannelIds) (args : List (Bytes × ℕ)) → Emits (IsAllowed c) (set_control c ids args)
  unfolding set_control sset_channels sset_enum
  sset_in_range ids args =
      Emits-if _ _ _ (enum_arguments-Allowed _ _) (set_arguments-Allowed ids args (start_flags c))
