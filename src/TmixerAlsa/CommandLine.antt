-- ===== src/TmixerAlsa/CommandLine.antt =====
-- The options of tmixer/tmixer-alsa.c, as getopt_long returns them, each with its argument.
use tcos.Base.{
  ℕ, ◌==◌, ltb, ℤ, pos, negsuc, Bool, true, false, Bytes, codes, List, [], ◌∷◌, ◌++◌, none, some,
  take, str_eq, if◌then◌else◌,
}
use tcos.CText.Decimal.{print_int}
use tcos.Host.{Abstraction, abstract_none, abstract_basic}
use tcos.TmixerAlsa.Card.{Card, Options, Status, success, one}

abbrev pub help_text : Bytes → List Bytes
help_text card =
    codes "Usage: tmixer-alsa <options> [command]\n"
    ∷ codes "\nAvailable options:\n"
    ∷ codes "  -h,--help       this help\n"
    ∷ codes "  -c,--card N     select the card\n"
    ∷ codes "  -D,--device N   select the device, default '"
    ∷ card
    ∷ codes "'\n"
    ∷ codes "  -d,--debug      debug mode\n"
    ∷ codes "  -n,--nocheck    do not perform range checking\n"
    ∷ codes "  -v,--version    print version of this program\n"
    ∷ codes "  -q,--quiet      be quiet\n"
    ∷ codes "  -i,--inactive   show also inactive controls\n"
    ∷ codes "  -a,--abstract L select abstraction level (none or basic)\n"
    ∷ codes "  -s,--stdin      Read and execute commands from stdin sequentially\n"
    ∷ codes "\nAvailable commands:\n"
    ∷ codes "  scontrols       show all mixer simple controls\n"
    ∷ codes "  scontents\t  show contents of all mixer simple controls (default command)\n"
    ∷ codes "  sset sID P      set contents for one mixer simple control\n"
    ∷ codes "  sget sID        get contents for one mixer simple control\n"
    ∷ codes "  controls        show all controls for given card\n"
    ∷ codes "  contents        show contents of all controls for given card\n"
    ∷ codes "  cset cID P      set control contents for one control\n"
    ∷ codes "  cget cID        get control contents for one control\n"
    ∷ codes "\ntmixer-alsa output format:\n"
    ∷ codes
        "  ChannelName,   ChannelType [volume|switch] , Volume in % , SwitchStatus [on|off] \n\n"
    ∷ []

-- What the options set.
pub record Settings : Type 0 where
  pub options : Options
  pub inactive : Bool
  pub read_stdin : Bool
  pub morehelp : Bool

-- An option ends the program with a text, or the next one is read.
pub data Parsed : Type 0 where
  quit : List Bytes → Status → Parsed
  go : Settings → Parsed

abbrev pub on_card : Settings → Bytes → Settings
on_card st card = record st { options = record st.options { card = card } }

abbrev pub more_help : Settings → Settings
more_help st = record st { morehelp = true }

-- -c: the number of a card from 0 to 31
unfoldable pub select_card : Settings → ℤ → Settings
select_card st (pos i) =
    if ltb i 32 then on_card st (codes "hw:" ++ print_int (pos i)) else more_help st
select_card st (negsuc i) = more_help st

abbrev pub abstracted : Settings → Abstraction → Settings
abstracted st level = record st { options = record st.options { abstraction = some level } }

-- -a
unfoldable pub select_level : Settings → Bytes → Settings
select_level st name =
    if str_eq name (codes "none")
    then abstracted st abstract_none
    else if str_eq name (codes "basic")
    then abstracted st abstract_basic
    else more_help (abstracted st abstract_none)

unfoldable pub option : Card → Settings → ℕ → Bytes → Parsed
unfolding select_card select_level
option c st opt arg =
    if opt == b'h'
    then quit (help_text st.options.card) success
    else if opt == b'c'
    then go (select_card st (c.card_get_index arg))
    else if opt == b'D'
    then go (on_card st (take 63 arg))
    else if opt == b'q'
    then go (record st { options = record st.options { quiet = true } })
    else if opt == b'i'
    then go (record st { inactive = true })
    else if opt == b'd'
    then go (record st { options = record st.options { debugflag = true } })
    else if opt == b'n'
    then go (record st { options = record st.options { no_check = true } })
    else if opt == b'v'
    then quit (codes "tmixer-alsa version (TCOS) " ∷ c.version ∷ codes "\n" ∷ []) one
    else if opt == b'a'
    then go (select_level st arg)
    else if opt == b's'
    then go (record st { read_stdin = true })
    else go (more_help st)

unfoldable pub parse_options : Card → Settings → List (ℕ × Bytes) → Parsed
unfolding option
parse_options c st [] = go st
parse_options c st ((opt, arg) ∷ opts) = elim (option c st opt arg) [
  | quit text status ↦ quit text status
  | go next ↦ parse_options c next opts
]

abbrev pub start_settings : Settings
start_settings = record {
  options = record {
    quiet = false;
    debugflag = false;
    no_check = false;
    ignore_error = false;
    abstraction = none;
    card = codes "default";
  };
  inactive = false;
  read_stdin = false;
  morehelp = false;
}
