-- ===== src/TmixerAlsa/Card.antt =====
-- What tmixer/tmixer-alsa.c finds behind ALSA's library, as a parameter, the options of the
-- program, and the calls that open a mixer. Messages on stderr are left out.
use tcos.Base.{
  ℕ, zero, suc, ◌+◌, ◌-◌, ◌%◌, ◌/◌, ltb, ℤ, pos, negsuc, Bool, true, false, not, Bytes, List, [],
  ◌∷◌, ◌++◌, Option, none, some, if◌then◌else◌,
}
use tcos.CText.Decimal.{digits}
use tcos.Host.{
  Trace, AlsaCall, mixer_open, mixer_attach, mixer_register, mixer_load, mixer_close, Abstraction,
  alsa, print, ControlSide, M, pure, undef, ask, emit, ◌>>=◌, ◌>>◌,
}
use tcos.TmixerAlsa.{Result, ok, einval, undefined, endless}
use tcos.TmixerAlsa.Masks.{ChannelIds}
use tcos.TmixerAlsa.SimpleId.{SimpleId}
use tcos.TmixerAlsa.ControlId.{Setting, ControlInfo}
use tcos.TmixerAlsa.Volumes.{Control}

-- snd_ctl_elem_type_t
pub data ElementType : Type 0 where
  boolean integer integer64 enumerated bytes iec958 other : ElementType

-- snd_ctl_elem_info_t
pub record ElementInfo : Type 0 where
  pub id : ControlInfo
  pub element_type : ElementType
  pub type_name : Bytes
  pub count : ℕ
  pub min : ℤ
  pub max : ℤ
  pub step : ℤ
  pub items : ℕ
  -- The name of an item, or an error.
  pub item_name : ℕ → Option Bytes
  pub is_readable : Bool
  pub is_writable : Bool
  pub is_inactive : Bool
  pub is_volatile : Bool
  pub is_locked : Bool
  pub is_tlv_readable : Bool
  pub is_tlv_writable : Bool
  pub is_tlv_commandable : Bool

-- Words of memory; `none` is one that nothing wrote.
abbrev pub Memory : Type 0
Memory = List (Option ℕ)

-- An element of the high level control interface; `none` where a call fails.
pub record Element : Type 0 where
  pub id : ControlInfo
  pub info : Trace → Option ElementInfo
  -- What snd_hctl_elem_read reads: a value for each index.
  pub values : Trace → Option (ℕ → ℤ)
  -- iec958.status[0] to [3]
  pub iec958_status : Trace → ℕ → ℕ
  -- The 1024 words of the buffer behind snd_hctl_elem_tlv_read.
  pub tlv : Trace → Option Memory

-- A simple control of the mixer.
pub record Simple : Type 0 where
  pub control : Control
  pub common_volume : Bool
  pub common_switch : Bool
  pub is_mono : ControlSide → Bool

-- snd_ctl_card_info_t
pub record CardInfo : Type 0 where
  pub id : Bytes
  pub longname : Bytes
  pub mixername : Bytes
  pub components : Bytes

-- SND_CTL_TLVT_…
pub record TlvTypes : Type 0 where
  pub container : ℕ
  pub db_scale : ℕ
  pub db_linear : ℕ
  pub db_range : ℕ

-- A callback's call: the tests of its mask, and what it is about.
pub record Notice (A : Type 0) : Type 0 where
  pub about : A
  -- For the whole card or mixer, or for a control of it.
  pub for_all : Bool
  pub is_add : Bool
  pub is_remove : Bool
  pub has_info : Bool
  pub has_value : Bool

-- What one wait for events returns, if it is no error, the callbacks that handling them makes, and
-- whether the assertion behind it holds.
pub record Poll (A : Type 0) : Type 0 where
  pub res : Option ℕ
  pub notices : List (Notice A)
  pub handled : Bool

pub record Card : Type 0 where
  -- Whether a call returns no error.
  pub succeeds : Trace → AlsaCall → Bool
  pub simples : Trace → List SimpleId
  pub find_simple : Trace → SimpleId → Option Simple
  pub is_active : Trace → SimpleId → Bool
  pub elements : Trace → List Element
  -- snd_ctl_elem_info for an identifier on which these setters were called.
  pub find_element : Trace → List Setting → Option ElementInfo
  -- snd_hctl_find_elem
  pub find_shown : Trace → ControlInfo → Option Element
  -- What the setters make of an identifier that was all zeros.
  pub id_of : List Setting → ControlInfo
  pub accepts_values : Trace → ℕ → List ℤ → Bool
  pub card_info : Trace → Option CardInfo
  -- snd_ctl_elem_list, with the number of elements
  pub element_count : Trace → Option ℕ
  pub simple_count : Trace → ℕ
  -- The waits that the loops over events have made so far.
  pub ctl_polls : List (Poll ControlInfo)
  pub mixer_polls : List (Poll SimpleId)
  pub card_get_index : Bytes → ℤ
  pub ids : ChannelIds
  pub tlv_types : TlvTypes
  -- strtol(s, &p, 10), with what is left
  pub strtol : Bytes → ℤ × Bytes
  -- (long)convert_prange1(strtod(s, NULL), min, max)
  pub percent : Bytes → ℤ → ℤ → ℤ
  -- The same for a long long.
  pub percent64 : Bytes → ℤ → ℤ → ℤ
  -- (int)rint((double)val / (double)range * 100)
  pub rint_percent : ℤ → ℤ → ℤ
  -- What is left of a long long, or of an unsigned int, as a long.
  pub to_long : ℤ → ℤ
  -- (int)val, for a long
  pub to_int : ℤ → ℤ
  -- How many bytes behind the argument at a position nothing else uses.
  pub room : List Bytes → ℕ → ℕ
  -- What is on stdin, and the version that the build sets.
  pub stdin : Bytes
  pub version : Bytes

-- The static variables of the program; smixer_level is 0 where there is no `abstraction`.
pub record Options : Type 0 where
  pub quiet : Bool
  pub debugflag : Bool
  pub no_check : Bool
  pub ignore_error : Bool
  pub abstraction : Option Abstraction
  pub card : Bytes

-- What a command returns: 0, 1 or an error. The loops over events do not return: they wait for the
-- next one, or an assertion fails.
pub data Status : Type 0 where
  success one negative listening aborted : Status

-- What follows a value that may be missing.
abbrev pub option_case : {A B : Type 0} → Option A → M B → (A → M B) → M B
option_case none m f = m
option_case (some a) m f = f a

unfoldable pub concat : List Bytes → Bytes
concat [] = []
concat (s ∷ parts) = s ++ concat parts

-- printf
unfoldable pub say : List Bytes → M (Unit {0})
unfolding concat
say parts = emit (print (concat parts))

-- "%li", "%Li" and "%u"
unfoldable pub print_long : ℤ → Bytes
unfolding digits
print_long (pos n) = digits 20 n []
print_long (negsuc n) = b'-' ∷ digits 20 (n + 1) []

-- "%02li", for less than 100
abbrev pub two_digits : ℕ → Bytes
two_digits n = (b'0' + n / 10) ∷ (b'0' + n % 10) ∷ []

abbrev pub hex_digit : ℕ → ℕ
hex_digit n = if ltb n 10 then b'0' + n else b'a' + (n - 10)

-- "%02x" and "%08x", by the number of digits.
unfoldable pub print_hex : ℕ → ℕ → Bytes
print_hex zero n = []
print_hex (suc width) n = print_hex width (n / 16) ++ hex_digit (n % 16) ∷ []

unfoldable pub call : Card → AlsaCall → M Bool
call c event = do succeeds ← ask (λ t. c.succeeds t event); emit (alsa event); pure succeeds

-- A reader's result, with `none` for -EINVAL. No reader of the program is endless.
unfoldable pub read : {A : Type 0} → Result A → M (Option A)
read (ok a) = pure (some a)
read einval = pure none
read (undefined cause) = undef cause
read endless = pure none

abbrev pub registered : Options → AlsaCall
registered o = elim o.abstraction [
  | none ↦ mixer_register none
  | some level ↦ mixer_register (some (level, o.card))
]

abbrev pub attached : Card → Options → M Bool
attached c o = option_case o.abstraction (call c (mixer_attach o.card)) (λ level. pure true)

unfoldable pub give_up : M Bool
give_up = emit (alsa mixer_close) >> pure false

-- The mixer is open, loaded and registered, or is closed again.
unfoldable pub open_mixer : Card → Options → M Bool
unfolding call give_up
open_mixer c o = do
  opened ← call c mixer_open
  if not opened then pure false else do
    is_attached ← attached c o
    if not is_attached then give_up else do
      is_registered ← call c (registered o)
      if not is_registered
          then give_up
          else do loaded ← call c mixer_load; if loaded then pure true else give_up
