-- ===== src/TmixerAlsa/Elements.antt =====
-- show_control, control_access and controls of tmixer/tmixer-alsa.c: what is shown of the raw
-- controls. Where the high level interface cannot be loaded, it stays open.
use tcos.Base.{
  ℕ, zero, suc, ◌+◌, ◌==◌, ℤ, pos, Bool, true, false, ◌&&◌, not, Bytes, codes, List, [], ◌∷◌, ◌++◌,
  Option, none, some, length, if◌then◌else◌,
}
use tcos.CText.Decimal.{print_int}
use tcos.Host.{M, hctl_open, hctl_load, hctl_close, alsa, pure, ask, emit, ◌>>=◌, ◌>>◌}
use tcos.TmixerAlsa.Card.{
  option_case, Card, Options, Element, ElementInfo, ElementType, boolean, integer, integer64,
  enumerated, bytes, iec958, other, Memory, Status, success, negative, say, call, read, print_long,
  print_hex, concat,
}
use tcos.TmixerAlsa.ControlId.{show_control_id, to_signed}
use tcos.TmixerAlsa.Tlv.{decode_tlv}

-- LEVEL_…
pub record Level : Type 0 where
  pub basic : Bool
  pub inactive : Bool
  pub id : Bool

abbrev pub access : ℕ → Bool → ℕ
access letter has = if has then letter else b'-'

unfoldable pub control_access : ElementInfo → Bytes
control_access info =
    access b'r' info.is_readable
    ∷ access b'w' info.is_writable
    ∷ access b'i' info.is_inactive
    ∷ access b'v' info.is_volatile
    ∷ access b'l' info.is_locked
    ∷ access b'R' info.is_tlv_readable
    ∷ access b'W' info.is_tlv_writable
    ∷ access b'C' info.is_tlv_commandable
    ∷ []

-- The loop over the items from `item` on, of which `n` are left; `false` where a call fails.
unfoldable pub show_items : Bytes → ElementInfo → ℕ → ℕ → M Bool
unfolding say
show_items space info zero item = pure true
show_items space info (suc n) item =
    let rest = show_items space info n (item + 1) in
    option_case (info.item_name item) (pure false) (λ name.
      say (space ∷ codes "; Item #" ∷ print_int (pos item) ∷ codes " '" ∷ name ∷ codes "'\n" ∷ [])
      >> rest)

abbrev pub limits : ElementInfo → List Bytes
limits info =
    codes ",min="
    ∷ print_long info.min
    ∷ codes ",max="
    ∷ print_long info.max
    ∷ codes ",step="
    ∷ print_long info.step
    ∷ codes "\n"
    ∷ []

-- What stands behind the number of values, by the type.
unfoldable pub show_limits : Bytes → ElementInfo → ElementType → M Bool
unfolding say show_items print_long
show_limits space info integer = say (limits info) >> pure true
show_limits space info integer64 = say (limits info) >> pure true
show_limits space info enumerated =
    say (codes ",items=" ∷ print_int (pos info.items) ∷ codes "\n" ∷ [])
    >> show_items space info info.items 0
show_limits space info boolean = say (codes "\n" ∷ []) >> pure true
show_limits space info bytes = say (codes "\n" ∷ []) >> pure true
show_limits space info iec958 = say (codes "\n" ∷ []) >> pure true
show_limits space info other = say (codes "\n" ∷ []) >> pure true

abbrev pub is_zero : ℤ → Bool
is_zero v = elim v [ pos n ↦ n == 0 | _ ↦ false ]

abbrev pub low_byte : ℤ → ℕ
low_byte v = elim v [ pos n ↦ n | _ ↦ 0 ]

-- A value as it is shown; bytes and item numbers are unsigned.
unfoldable pub value_text : ElementType → (ℕ → ℕ) → ℤ → Bytes
unfolding print_long print_hex concat
value_text boolean status v = if is_zero v then codes "off" else codes "on"
value_text integer status v = print_long v
value_text integer64 status v = print_long v
value_text enumerated status v = print_long v
value_text bytes status v = codes "0x" ++ print_hex 2 (low_byte v)
value_text iec958 status v = concat (
    codes "[AES0=0x"
    ∷ print_hex 2 (status 0)
    ∷ codes " AES1=0x"
    ∷ print_hex 2 (status 1)
    ∷ codes " AES2=0x"
    ∷ print_hex 2 (status 2)
    ∷ codes " AES3=0x"
    ∷ print_hex 2 (status 3)
    ∷ codes "]"
    ∷ [])
value_text other status v = codes "?"

-- The loop over the values from `idx` on, of which `n` are left.
unfoldable pub show_values : ElementType → (ℕ → ℕ) → (ℕ → ℤ) → ℕ → ℕ → M (Unit {0})
unfolding say value_text
show_values kind status values zero idx = pure tt
show_values kind status values (suc n) idx =
    let rest = show_values kind status values n (idx + 1) in
    say ((if idx == 0 then [] else codes ",") ∷ value_text kind status (values idx) ∷ []) >> rest

unfoldable pub show_tlv : Card → Bytes → Option Memory → M Status
unfolding read say
show_tlv c space none = pure negative
show_tlv c space (some tlv) = read (decode_tlv c (length space) tlv 4096) >>= λ text.
    option_case text (pure success) (λ shown. say (shown ∷ []) >> pure success)

unfoldable pub show_current : Card → Bytes → Element → ElementInfo → Option (ℕ → ℤ) → M Status
unfolding say show_values show_tlv
show_current c space elem info none = pure negative
show_current c space elem info (some values) = do
  say (space ∷ codes ": values=" ∷ [])
  status ← ask elem.iec958_status
  show_values info.element_type status values info.count 0
  say (codes "\n" ∷ [])
  tlv ← ask elem.tlv
  if not info.is_tlv_readable then pure success else show_tlv c space tlv

unfoldable pub show_info : Card → Bytes → Element → Level → Option ElementInfo → M Status
unfolding say show_limits show_current control_access show_control_id
show_info c space elem level none = pure negative
show_info c space elem level (some info) = do
  if level.id then say (show_control_id elem.id ∷ codes "\n" ∷ []) else pure tt
  say (
      space
      ∷ codes "; type="
      ∷ info.type_name
      ∷ codes ",access="
      ∷ control_access info
      ∷ codes ",values="
      ∷ print_int (to_signed info.count)
      ∷ [])
  shown ← show_limits space info info.element_type
  values ← ask elem.values
  if not shown
      then pure negative
      else if level.basic
      then show_current c space elem info values
      else pure success

unfoldable pub show_control : Card → Bytes → Element → Level → M Status
unfolding show_info
show_control c space elem level = ask elem.info >>= show_info c space elem level

-- LEVEL_BASIC
abbrev pub only_basic : Level
only_basic = record { basic = true; inactive = false; id = false }

-- The loop over the elements, which ends where one has no info.
unfoldable pub list_elements : Card → Level → List Element → M Bool
unfolding say show_control show_control_id
list_elements c level [] = pure true
list_elements c level (elem ∷ elems) =
    let rest = list_elements c level elems in
    ask elem.info >>= λ info. option_case info (pure false) (λ i.
      if not level.inactive && i.is_inactive
      then rest
      else say (show_control_id elem.id ∷ codes "\n" ∷ [])
        >> (if level.basic then (show_control c (codes "  ") elem only_basic >> rest) else rest))

unfoldable pub open_hctl : Card → Options → M Bool
unfolding call
open_hctl c o = do
  opened ← call c (hctl_open o.card)
  if opened then call c hctl_load else pure false

unfoldable pub controls : Card → Options → Level → M Status
unfolding open_hctl list_elements
controls c o level = do
  opened ← open_hctl c o
  if not opened then pure negative else do
    elems ← ask c.elements
    listed ← list_elements c level elems
    if not listed then pure negative else do emit (alsa hctl_close); pure success
