-- ===== src/Tests/Cards.antt =====
-- tmixer-alsa and tmixer on a card with one simple control, two playback channels of 32 steps, and
-- one raw control, a switch with two values that are on.
use tcos.Base.{
  ◌*◌, ◌/◌, ◌+◌, ◌≡◌, sym, subst, arith, refl, pos, negsuc, ◌+ℤ◌, ◌-◌, ◌^◌, str_eq, str_contains,
  true, false, Bytes, codes, List, [], ◌∷◌, ◌++◌, Option, none, some,
}
use tcos.CText.Decimal.{read_digits, print_int}
use tcos.Host.{
  ask, emit, deref, trace_of, print, ctl_open, ctl_close, alsa, Trace, done, write_element, pure,
}
use tcos.Host.Emits.{Emits}
use tcos.Tests.Mixer.{mixer}
use tcos.Tests.Volumes.{front, ids}
use tcos.Tmixer
use tcos.Tmixer.Starts.{IsProgram, unset, alsa_program, run_chosen, main_starts}
use tcos.TmixerAlsa.{Result, ok, ◌>>=◌}
use tcos.TmixerAlsa.Card.{Card, Options, success, Simple, ElementInfo, ElementType}
use tcos.TmixerAlsa.ControlId.{ControlInfo, parse_control_id}
use tcos.TmixerAlsa.Cset.{set_values, rounds}
use tcos.TmixerAlsa.Cset.Toggle.{ones, toggle, toggle_sets_on}
use tcos.TmixerAlsa.Main.{main}
use tcos.TmixerAlsa.Main.Script.{Command, set_simple, set_element, command_line}
use tcos.MountListener.Lines.{file_of}
use mathlib.Core.List.{map}
use tcos.TmixerAlsa.Safe.{IsSafe}
use tcos.TmixerAlsa.Safe.Commands.{IsSound}
use tcos.TmixerAlsa.Safe.Values.{Proper}
use tcos.TmixerAlsa.Safe.Program.{main_in_range}
use tcos.TmixerAlsa.SimpleId.{SimpleId, parse_simple_id}
use tcos.TmixerAlsa.Tlv.{decode_tlv, print_spaces, print_db}
use tcos.TmixerAlsa.Tlv.Compound.{compound_error, compound_shows_none}
use tcos.TmixerAlsa.Tlv.Dumped.{IsUnknown, Dumped, unknown_text, decode_tlv-Dumped}

abbrev master : SimpleId
master = record { name = codes "Master"; index = pos 0 }

abbrev front_control : Simple
front_control = record {
  control = front;
  common_volume = false;
  common_switch = false;
  is_mono = λ side. false;
}

abbrev switch_id : ControlInfo
switch_id = record {
  numid = 9;
  iface = codes "MIXER";
  name = codes "Capture";
  index = 0;
  device = 0;
  subdevice = 0;
}

abbrev switch : ElementInfo
switch = record {
  id = switch_id;
  element_type = ElementType.boolean;
  type_name = codes "BOOLEAN";
  count = 2;
  min = pos 0;
  max = pos 1;
  step = pos 1;
  items = 0;
  item_name = λ i. none;
  is_readable = true;
  is_writable = true;
  is_inactive = false;
  is_volatile = false;
  is_locked = false;
  is_tlv_readable = false;
  is_tlv_writable = false;
  is_tlv_commandable = false;
}

abbrev card_with : Bytes → Card
card_with stdin = record {
  succeeds = λ t e. true;
  simples = λ t. master ∷ [];
  find_simple = λ t sid. some front_control;
  is_active = λ t sid. true;
  elements = λ t. [];
  find_element = λ t settings. some switch;
  find_shown = λ t id. none;
  id_of = λ settings. switch_id;
  accepts_values = λ t numid values. true;
  card_info = λ t. none;
  element_count = λ t. some 1;
  simple_count = λ t. 1;
  ctl_polls = [];
  mixer_polls = [];
  card_get_index = λ s. pos 0;
  ids = ids;
  tlv_types = record { container = 0; db_scale = 1; db_linear = 2; db_range = 3 };
  strtol = λ s. (pos ((read_digits 0 s).0), (read_digits 0 s).1);
  percent = λ s pmin pmax. pos (((read_digits 0 s).0 * 31 + 99) / 100);
  percent64 = λ s pmin pmax. pmin;
  rint_percent = λ val range. pos 32;
  to_long = λ v. v;
  to_int = λ v. v;
  room = λ args i. 8;
  stdin = stdin;
  version = codes "0.90";
}

card_with-IsSound : (stdin : Bytes) → IsSound (card_with stdin)
card_with-IsSound stdin = record {
  ranges = λ u t sid s dir vol_type pmin pmax found r.
      let only : front_control ≡ s = cc found in
      let range : Option.some (pos 0, pos 31) ≡ some (pmin, pmax) =
        subst (λ (x : Simple). x.control.get_range t dir vol_type ≡ some (pmin, pmax)) (sym only)
          r in
      cc range;
  elements = λ t settings info found.
      let only : switch ≡ info = cc found in
      subst (λ (x : ElementInfo). Proper (card_with stdin) x x.element_type) only tt;
}

abbrev card : Card
card = card_with []

main_in_range_example :
    Emits (IsSafe card) (main card [] (codes "sset" ∷ codes "Master" ∷ codes "50" ∷ []))
main_in_range_example =
    main_in_range card (card_with-IsSound []) [] (codes "sset" ∷ codes "Master" ∷ codes "50" ∷ [])
      tt

abbrev machine : Tmixer.Machine
machine = record { force = none; file_exists = λ t name. true; mixer = mixer; card = card }

abbrev arguments : Tmixer.Arguments
arguments = record {
  oss_options = [];
  oss_arguments = [];
  alsa_options = (b'q', []) ∷ [];
  alsa_arguments = codes "cset" ∷ codes "numid=9" ∷ codes "off" ∷ [];
}

-- The card of the machine decides.
main_starts_example :
    Tmixer.main machine arguments [] ≡ run_chosen machine arguments alsa_program []
main_starts_example = main_starts machine arguments [] (IsProgram.has_card unset refl)

abbrev by_default : Options
by_default = record {
  quiet = false;
  debugflag = false;
  no_check = false;
  ignore_error = false;
  abstraction = none;
  card = codes "default";
}

-- Two lines, each with a command.
abbrev script : List Command
script =
    set_simple (codes "Master" ∷ codes "50" ∷ [])
    ∷ set_element (codes "numid=9" ∷ codes "off" ∷ [])
    ∷ []

abbrev at_stdin : Card
at_stdin = card_with (file_of (map command_line script))

toggle_sets_on_example :
    set_values card by_default false false switch (toggle ∷ []) []
    ≡ done true (write_element 9 (ones (rounds switch)) ∷ [])
toggle_sets_on_example = toggle_sets_on card by_default switch refl false [] []

-- A compound of 16 bytes, with a scale of 8.
compound_shows_none_example :
    decode_tlv card 2 (some 0 ∷ some 16 ∷ some 1 ∷ some 8 ∷ some 0 ∷ some 100 ∷ []) 4096
    ≡ ok ((print_spaces 2 ++ codes "| ") ++ compound_error 2 16 1 8)
compound_shows_none_example =
    compound_shows_none card 2 16 1 8 4096 (some 0 ∷ some 100 ∷ []) (omega arith) (omega arith)

nine_IsUnknown : IsUnknown card 9
nine_IsUnknown = record {
  no_container = λ e. absurd (omega arith);
  no_scale = λ e. absurd (omega arith);
  no_linear = λ e. absurd (omega arith);
  no_range = λ e. absurd (omega arith);
}

-- An unknown kind, six bytes long.
decode_tlv-Dumped_example :
    (r : Result Bytes) × Dumped 6 (1 ∷ 2 ∷ []) r
    × (decode_tlv card 2 (some 9 ∷ some 6 ∷ some 1 ∷ some 2 ∷ []) 14
        ≡ (r >>= λ text. ok (unknown_text 2 9 text)))
decode_tlv-Dumped_example =
    decode_tlv-Dumped card 2 9 6 14 (1 ∷ 2 ∷ []) nine_IsUnknown (omega arith) (omega arith)

-- Both values are written, from one that is given.
switches_off :
    main card ((b'q', []) ∷ []) (codes "cset" ∷ codes "numid=9" ∷ codes "off" ∷ []) []
    ≡ done success (
        alsa ctl_close
        ∷ write_element 9 (pos 0 ∷ pos 0 ∷ [])
        ∷ alsa (ctl_open (codes "default"))
        ∷ [])
unfolding main str_eq parse_control_id pure ask emit str_contains
switches_off = refl

abbrev output : Trace → Bytes
output [] = []
output (print text ∷ t) = output t ++ text
output (e ∷ t) = output t

-- One channel is shown.
shows_master :
    output (trace_of (main card [] (codes "sget" ∷ codes "Master" ∷ []) []))
    ≡ codes "Master,volume|switch|,32,on\n"
unfolding main str_eq parse_simple_id pure ask emit deref ◌+ℤ◌ print_int
shows_master = refl

shows_scale :
    decode_tlv card 1 (some 1 ∷ some 8 ∷ some (2 ^ 32 - 5050) ∷ some 65636 ∷ []) 4096
    ≡ ok (codes " | dBscale-min=-50.50dB,step=1.00dB,mute=1\n")
unfolding decode_tlv print_int
shows_scale = refl

-- The sign of a level between -1 and 0 dB is lost.
loses_sign : print_db (negsuc 49) ≡ codes "0.50dB"
unfolding print_db
loses_sign = refl
