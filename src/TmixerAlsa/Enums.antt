-- ===== src/TmixerAlsa/Enums.antt =====
-- sset_enum of tmixer/tmixer-alsa.c, and which setter `sset` calls.
pub mod Ends
use tcos.Base.{
  ℕ, zero, suc, ◌+◌, Bool, true, false, ◌||◌, ◌&&◌, ◌==◌, Bytes, List, [], ◌∷◌, Option, none, some,
  drop, length, str_prefix, if◌then◌else◌,
}
use mathlib.Core.List.{map}
use tcos.CText.Decimal.{is_space}
use tcos.Host.{M, set_enum_item, pure, ask, emit, ◌>>=◌, ◌>>◌}
use tcos.TmixerAlsa.Masks.{ChannelIds}
use tcos.TmixerAlsa.Volumes.{Control}
use tcos.TmixerAlsa.Channels.{Check, failed, skipped, changed, sset_channels}

-- What may follow the name of an item.
abbrev pub ends_item : Bytes → Bool
ends_item [] = true
ends_item (c ∷ s) = c == b',' || c == b'\n'

abbrev pub is_item : Bytes → Bytes → Bool
is_item ptr name = str_prefix ptr name && ends_item (drop (length name) ptr)

-- The loop over the items from `i` on, of which `n` are left: the first one whose name stands at
-- ptr, with what is behind it.
unfoldable pub find_item : Control → Bytes → ℕ → ℕ → Option (ℕ × Bytes)
find_item c ptr zero i = none
find_item c ptr (suc n) i =
    let rest = find_item c ptr n (i + 1) in
    elim (c.item_name i) [
      | none ↦ rest
      | some name ↦ if is_item ptr name then some (i, drop (length name) ptr) else rest
    ]

unfoldable pub get_enum_item_index : Control → Bytes → Option (ℕ × Bytes)
unfolding find_item
get_enum_item_index c ptr = find_item c ptr c.enum_items 0

unfoldable pub skip_separators : Bytes → Bytes
unfolding is_space
skip_separators [] = []
skip_separators (c ∷ s) =
    let rest = skip_separators s in if c == b',' || is_space c then rest else c ∷ s

-- How the loop over an argument ends: with an unknown item, or at the end of the argument.
pub data Items : Type 0 where
  stopped : Check → Items
  finished : Check → Items
  endless : Items

unfoldable pub put_item : Control → ℕ → M Bool
put_item c ival = do
  accepted ← ask (λ t. c.accepts t (set_enum_item 0 ival))
  emit (set_enum_item 0 ival)
  pure accepted

abbrev pub flag : Bool → Check → Check
flag accepted check = if accepted then changed else check

-- The loop over an argument, of at most as many rounds as there is fuel.
unfoldable pub set_items : Control → ℕ → Bytes → Check → M Items
unfolding get_enum_item_index skip_separators put_item
set_items c fuel [] check = pure (finished check)
set_items c zero (b ∷ p) check = pure endless
set_items c (suc fuel) (b ∷ p) check = elim (get_enum_item_index c (b ∷ p)) as (λ _. M Items) [
  | none ↦ pure (stopped check)
  | some (ival, rest) ↦
      put_item c ival >>= λ accepted. set_items c fuel (skip_separators rest) (flag accepted check)
]

unfoldable pub enum_arguments : Control → List Bytes → Check → M Check
unfolding set_items
enum_arguments c [] check = pure check
enum_arguments c (arg ∷ args) check = set_items c (length arg) arg check >>= λ items.
    elim items as (λ _. M Check) [
      | stopped found ↦ pure found
      | finished found ↦ enum_arguments c args found
      | endless ↦ pure check
    ]

unfoldable pub sset_enum : Control → List Bytes → M Check
unfolding enum_arguments
sset_enum c args = enum_arguments c args (if c.ignore_error then skipped else failed)

-- The setter that `sset` calls for a control.
unfoldable pub set_control : Control → ChannelIds → List (Bytes × ℕ) → M Check
unfolding sset_enum sset_channels
set_control c ids args =
    if c.is_enumerated then sset_enum c (map (λ a. a.0) args) else sset_channels c ids args
