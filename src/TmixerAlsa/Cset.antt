-- ===== src/TmixerAlsa/Cset.antt =====
-- cset of tmixer/tmixer-alsa.c, for `cset` and `cget`, with its static handle of the control.
pub mod Toggle
use tcos.Base.{
  ℕ, zero, suc, ◌+◌, ◌-◌, ◌%◌, ◌^◌, ◌==◌, ltb, ℤ, pos, negsuc, ltb_ℤ, Bool, true, false, ◌||◌, not,
  Bytes, codes, List, [], ◌∷◌, ◌++◌, Option, none, some, drop, length, get_or, str_contains,
  if◌then◌else◌,
}
use tcos.CText.Decimal.{is_digit}
use tcos.Host.{
  M, ctl_open, ctl_close, hctl_close, alsa, write_element, pure, ask, emit, ◌>>=◌, ◌>>◌,
}
use tcos.TmixerAlsa.{Result, ok, has_prefix, skip_digits, break_at, to_int}
use tcos.TmixerAlsa
use tcos.TmixerAlsa.Card.{
  option_case, Card, Options, Element, ElementInfo, ElementType, boolean, integer, integer64,
  enumerated, bytes, iec958, other, success, negative, say, call, read,
}
use tcos.TmixerAlsa.ControlId.{
  Setting, ControlInfo, parse_control_id, show_control_id, to_signed, is_positive,
}
use tcos.TmixerAlsa.Elements.{Level, show_control, open_hctl}
use tcos.TmixerAlsa.Enums.{is_item}
use tcos.TmixerAlsa.Integers.{get_integer, get_integer64}
use tcos.TmixerAlsa.Sset.{Kept}

-- The loop over the items from `i` on, of which `n` are left; it ends where an item cannot be read.
unfoldable pub find_ctl_item : ElementInfo → Bytes → ℕ → ℕ → Option (ℕ × Bytes)
find_ctl_item info ptr zero i = none
find_ctl_item info ptr (suc n) i =
    let rest = find_ctl_item info ptr n (i + 1) in
    elim (info.item_name i) [
      | none ↦ none
      | some name ↦ if is_item ptr name then some (i, drop (length name) ptr) else rest
    ]

-- The number of items is an int.
unfoldable pub get_ctl_enum_item_index : ElementInfo → Bytes → Option (ℕ × Bytes)
unfolding find_ctl_item is_positive
get_ctl_enum_item_index info ptr =
    if is_positive (to_signed info.items) then find_ctl_item info ptr info.items 0 else none

-- A long as an unsigned number of `w` bits.
unfoldable pub unsigned : ℕ → ℤ → ℤ
unsigned w (pos n) = pos (n % 2 ^ w)
unsigned w (negsuc n) = pos (2 ^ w - 1 - n % 2 ^ w)

abbrev pub starts_digit : Bytes → Bool
starts_digit [] = false
starts_digit (b ∷ s) = is_digit b

abbrev pub flag_of : Bool → ℤ
flag_of b = if b then pos 1 else pos 0

abbrev pub above_zero : ℤ → Bool
above_zero v = ltb_ℤ (pos 0) v

-- A switch, with the value that the buffer holds at its index.
unfoldable pub read_boolean : ℤ → Bytes → Result (ℤ × Bytes)
unfolding has_prefix skip_digits break_at to_int
read_boolean current ptr =
    if has_prefix ptr (codes "on") || has_prefix ptr (codes "up")
    then ok (pos 1, drop 2 ptr)
    else if has_prefix ptr (codes "yes")
    then ok (pos 1, drop 3 ptr)
    else if has_prefix ptr (codes "toggle")
    then ok (flag_of (not (above_zero current)), drop 6 ptr)
    else if starts_digit ptr
    then TmixerAlsa.◌>>=◌ (to_int ptr) (λ v. ok (flag_of (above_zero v), skip_digits ptr))
    else ok (pos 0, (break_at b',' ptr).1)

-- items - 1, for an unsigned int, as a long
abbrev pub last_item : Card → ElementInfo → ℤ
last_item c info = c.to_long (pos ((info.items + (2 ^ 32 - 1)) % 2 ^ 32))

abbrev pub narrowed : ℕ → ℤ × Bytes → ℤ × Bytes
narrowed w (v, rest) = (unsigned w v, rest)

-- A value of the type, and what is left; the other types are not set.
unfoldable pub read_value :
    Card → Options → ElementInfo → ElementType → ℤ → Bytes → Result (ℤ × Bytes)
unfolding read_boolean get_integer get_integer64 get_ctl_enum_item_index unsigned
read_value c o info boolean current ptr = read_boolean current ptr
read_value c o info integer current ptr = ok (get_integer c o.no_check ptr info.min info.max)
read_value c o info integer64 current ptr = ok (get_integer64 c o.no_check ptr info.min info.max)
read_value c o info enumerated current ptr = elim (get_ctl_enum_item_index info ptr) [
  | none ↦ ok (narrowed 32 (get_integer c o.no_check ptr (pos 0) (last_item c info)))
  | some (i, rest) ↦ ok (pos i, rest)
]
read_value c o info bytes current ptr =
    ok (narrowed 8 (get_integer c o.no_check ptr (pos 0) (pos 255)))
read_value c o info iec958 current ptr = ok (current, ptr)
read_value c o info other current ptr = ok (current, ptr)

-- Where the next value stands: again at the start of a text without a comma.
unfoldable pub next_value : Bytes → Bytes → Bytes
next_value text [] = if str_contains text (codes ",") then [] else text
next_value text (b ∷ rest) =
    if not (str_contains text (codes ",")) then text else if b == b',' then rest else b ∷ rest

-- The loop over the values from `idx` on, of which `n` are left. The buffer held zeros before, so a
-- value that is still to be set is 0.
unfoldable pub read_values :
    Card → Options → ElementInfo → Bytes → ℕ → List ℤ → Bytes → Result (List ℤ)
unfolding read_value next_value
read_values c o info text zero values ptr = ok values
read_values c o info text (suc n) values [] = ok values
read_values c o info text (suc n) values (b ∷ ptr) =
    TmixerAlsa.◌>>=◌
      (read_value c o info info.element_type (get_or values (length values) (pos 0)) (b ∷ ptr))
      (λ (v, rest). read_values c o info text n (values ++ v ∷ []) (next_value text rest))

-- idx < count && idx < 128
abbrev pub rounds : ElementInfo → ℕ
rounds info = if ltb info.count 128 then info.count else 128

-- The values of argv[1], none where it is missing.
unfoldable pub given_values : Card → Options → ElementInfo → List Bytes → Result (List ℤ)
unfolding read_values
given_values c o info [] = ok []
given_values c o info (text ∷ more) = read_values c o info text (rounds info) [] text

unfoldable pub close_ctl : Bool → M Bool
close_ctl keep = if keep then pure true else emit (alsa ctl_close) >> pure false

-- LEVEL_BASIC | LEVEL_ID
abbrev pub with_id : Level
with_id = record { basic = true; inactive = false; id = true }

unfoldable pub show_shown : Card → Option Element → M (Unit {0})
unfolding say show_control
show_shown c none = say (codes "Could not find the specified element\n" ∷ [])
show_shown c (some elem) = show_control c (codes "  ") elem with_id >> pure tt

unfoldable pub show_element : Card → Options → ControlInfo → Bool → M Kept
unfolding open_hctl show_shown
show_element c o id handle = if o.quiet then pure (success, handle) else do
  opened ← open_hctl c o
  if not opened then pure (negative, handle) else do
    elem ← ask (λ t. c.find_shown t id)
    show_shown c elem
    emit (alsa hctl_close)
    pure (success, handle)

-- snd_ctl_elem_write, with whether it returns no error.
unfoldable pub write_values : Card → ElementInfo → List ℤ → M Bool
write_values c info values = do
  accepted ← ask (λ t. c.accepts_values t info.id.numid values)
  emit (write_element info.id.numid values)
  pure accepted

unfoldable pub set_values : Card → Options → Bool → Bool → ElementInfo → List Bytes → M Bool
unfolding read given_values write_values
set_values c o roflag keep info args =
    if roflag
    then pure true
    else read (given_values c o info args) >>= λ given.
        option_case given (pure false) (write_values c info)

unfoldable pub set_element : Card → Options → List Bytes → Bool → Bool → Option ElementInfo → M Kept
unfolding set_values close_ctl show_element
set_element c o args roflag keep none =
    if o.ignore_error
    then pure (success, true)
    else close_ctl keep >>= λ handle. pure (negative, handle)
set_element c o args roflag keep (some info) = do
  written ← set_values c o roflag keep info args
  handle ← close_ctl keep
  if written
      then show_element c o info.id handle
      else pure ((if o.ignore_error then success else negative), handle)

unfoldable pub on_settings :
    Card → Options → List Bytes → Bool → Bool → Bool → Option (List Setting) → M Kept
unfolding say show_control_id call set_element
on_settings c o args roflag keep handle none = pure (negative, handle)
on_settings c o args roflag keep handle (some settings) = do
  if o.debugflag
      then say (codes "VERIFY ID: " ∷ show_control_id (c.id_of settings) ∷ codes "\n" ∷ [])
      else pure tt
  opened ← if handle then pure true else call c (ctl_open o.card)
  if not opened
      then pure (negative, false)
      else do info ← ask (λ t. c.find_element t settings); set_element c o args roflag keep info

unfoldable pub cset : Card → Options → List Bytes → Bool → Bool → Bool → M Kept
unfolding read on_settings
cset c o [] roflag keep handle = pure (negative, handle)
cset c o (id ∷ args) roflag keep handle =
    read (parse_control_id id) >>= on_settings c o args roflag keep handle
