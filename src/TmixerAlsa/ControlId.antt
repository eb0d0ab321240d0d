-- ===== src/TmixerAlsa/ControlId.antt =====
-- parse_control_id of tmixer/tmixer-alsa.c: which setters of a control's identifier are called.
pub mod Fuel
pub mod Names
pub mod Written
use tcos.Base.{
  ℕ, zero, suc, ◌+◌, ◌-◌, ◌^◌, ◌≤◌, leb, ltb, ℤ, pos, negsuc, Bool, true, false, ◌&&◌, ◌||◌, ◌==◌,
  Bytes, codes, List, [], ◌∷◌, ◌++◌, Option, none, some, length, take, drop, if◌then◌else◌,
}
use tcos.CText.Decimal.{print_int}
use tcos.Host.{uninitialised, buffer_overflow}
use tcos.TmixerAlsa.{
  Result, ok, einval, undefined, endless, ◌>>=◌, has_prefix, skip_blanks, skip_digits, break_at,
  to_int,
}

-- snd_ctl_elem_iface_t, the values that can be named.
pub data Iface : Type 0 where
  card mixer pcm rawmidi timer sequencer : Iface

-- The calls of snd_ctl_elem_id_set_…
pub data Setting : Type 0 where
  set_numid : ℤ → Setting
  set_interface : Iface → Setting
  set_name : Bytes → Setting
  set_index : ℤ → Setting
  set_device : ℤ → Setting
  set_subdevice : ℤ → Setting

-- sizeof(buf)
abbrev pub buf_size : ℕ
buf_size = 64

-- A step takes a setting off the text, or finds none at its start.
abbrev pub Step : Type 0
Step = Result (Option Setting × Bytes)

abbrev pub took : Setting → Bytes → Step
took s rest = ok (some s, rest)

unfoldable pub read_number : (ℤ → Setting) → Bytes → Step
unfolding to_int skip_digits
read_number set str = to_int str >>= λ i. took (set i) (skip_digits str)

unfoldable pub is_positive : ℤ → Bool
is_positive (pos n) = ltb 0 n
is_positive (negsuc n) = false

unfoldable pub read_numid : Bytes → Step
unfolding read_number is_positive
read_numid str =
    to_int str >>= λ numid. if is_positive numid then read_number set_numid str else einval

unfoldable pub read_iface : Bytes → Step
unfolding has_prefix
read_iface str =
    if has_prefix str (codes "card")
    then took (set_interface card) (drop 4 str)
    else if has_prefix str (codes "mixer")
    then took (set_interface mixer) (drop 5 str)
    else if has_prefix str (codes "pcm")
    then took (set_interface pcm) (drop 3 str)
    else if has_prefix str (codes "rawmidi")
    then took (set_interface rawmidi) (drop 7 str)
    else if has_prefix str (codes "timer")
    then took (set_interface timer) (drop 5 str)
    else if has_prefix str (codes "sequencer")
    then took (set_interface sequencer) (drop 9 str)
    else einval

-- A bare name and its NUL; the NUL of a name that fills the buffer is written behind it.
unfoldable pub put_name : Bytes × Bytes → Step
put_name (name, rest) =
    if ltb (length name) buf_size then took (set_name name) rest else undefined buffer_overflow

-- A name in quotes gets no NUL at all.
unfoldable pub read_name : Bytes → Step
unfolding put_name break_at
read_name [] = took (set_name []) []
read_name (c ∷ s) =
    if c == b'\'' || c == b'"' then undefined uninitialised else put_name (break_at b',' (c ∷ s))

unfoldable pub read_setting : Bytes → Step
unfolding has_prefix read_numid read_iface read_name read_number
read_setting str =
    if has_prefix str (codes "numid=")
    then read_numid (drop 6 str)
    else if has_prefix str (codes "iface=")
    then read_iface (drop 6 str)
    else if has_prefix str (codes "name=")
    then read_name (drop 5 str)
    else if has_prefix str (codes "index=")
    then read_number set_index (drop 6 str)
    else if has_prefix str (codes "device=")
    then read_number set_device (drop 7 str)
    else if has_prefix str (codes "subdevice=")
    then read_number set_subdevice (drop 10 str)
    else ok (none, str)

abbrev pub add : Option Setting → List Setting → List Setting
add none settings = settings
add (some s) settings = s ∷ settings

-- What follows a setting: a comma, which is skipped, or the end.
unfoldable pub next_text : Bytes → Result Bytes
next_text [] = ok []
next_text (c ∷ s) = if c == b',' then ok s else einval

-- The loop, of at most as many rounds as there is fuel.
unfoldable pub read_settings : ℕ → Bytes → Result (List Setting)
unfolding read_setting next_text
read_settings fuel [] = ok []
read_settings zero (c ∷ s) = endless
read_settings (suc fuel) (c ∷ s) = do
  (setting, rest) ← read_setting (c ∷ s)
  str ← next_text rest
  settings ← read_settings fuel str
  ok (add setting settings)

unfoldable pub parse_from : Bytes → Result (List Setting)
unfolding read_settings
parse_from [] = einval
parse_from (c ∷ s) =
    read_settings (length (c ∷ s)) (c ∷ s) >>= λ settings. ok (set_interface mixer ∷ settings)

unfoldable pub parse_control_id : Bytes → Result (List Setting)
unfolding parse_from skip_blanks
parse_control_id str = parse_from (skip_blanks str)

-- What the snd_ctl_elem_id_get_… functions return.
pub record ControlInfo : Type 0 where
  pub numid : ℕ
  pub iface : Bytes
  pub name : Bytes
  pub index : ℕ
  pub device : ℕ
  pub subdevice : ℕ

-- An `unsigned int` that is printed with %i.
abbrev pub to_signed : ℕ → ℤ
to_signed n = if ltb n (2 ^ 31) then pos n else negsuc (2 ^ 32 - 1 - n)

abbrev pub field : Bytes → ℕ → Bytes
field key n = if n == 0 then [] else key ++ print_int (to_signed n)

-- What show_control_id prints.
unfoldable pub show_control_id : ControlInfo → Bytes
show_control_id id =
    codes "numid="
    ++ (print_int (pos id.numid)
        ++ (codes ",iface="
            ++ (id.iface
                ++ (codes ",name='"
                    ++ (id.name
                        ++ (codes "'"
                            ++ (field (codes ",index=") id.index
                                ++ (field (codes ",device=") id.device
                                    ++ field (codes ",subdevice=") id.subdevice))))))))
