-- ===== src/TmixerAlsa/Main.antt =====
-- The command line of tmixer/tmixer-alsa.c, its stdin, `help` and `info`. The options are what
-- getopt_long returns, each with its argument, and the arguments are argv from optind on.
pub mod Lines
pub mod Script
use tcos.Base.{
  ℕ, pos, Bool, true, false, ◌||◌, not, Bytes, codes, List, [], ◌∷◌, Option, none, some, length,
  str_eq, if◌then◌else◌,
}
use tcos.CText.Decimal.{print_int}
use tcos.Host.{M, ctl_open, ctl_close, mixer_close, alsa, pure, ask, emit, ◌>>=◌, ◌>>◌}
use tcos.MountListener.{read_lines}
use tcos.TmixerAlsa.ArgLines.{split_line, max_args}
use tcos.TmixerAlsa.Card.{
  option_case, Card, CardInfo, Options, Status, success, one, negative, listening, aborted, say,
  call, open_mixer,
}
use tcos.TmixerAlsa.CommandLine.{
  help_text, Settings, Parsed, quit, go, parse_options, start_settings,
}
use tcos.TmixerAlsa.Cset.{cset}
use tcos.TmixerAlsa.Elements.{Level, controls}
use tcos.TmixerAlsa.Listening.{events, sevents}
use tcos.TmixerAlsa.Simples.{selems}
use tcos.TmixerAlsa.Sset.{sset}

unfoldable pub show_card : Card → Options → Option CardInfo → Option ℕ → M Bool
unfolding say
show_card c o none count = pure false
show_card c o (some i) count = do
  say (codes "Card " ∷ o.card ∷ codes " '" ∷ i.id ∷ codes "'/'" ∷ i.longname ∷ codes "'\n" ∷ [])
  say (codes "  Mixer name\t: '" ∷ i.mixername ∷ codes "'\n" ∷ [])
  say (codes "  Components\t: '" ∷ i.components ∷ codes "'\n" ∷ [])
  option_case count (pure tt)
      (λ n. say (codes "  Controls      : " ∷ print_int (pos n) ∷ codes "\n" ∷ []))
  emit (alsa ctl_close)
  pure true

unfoldable pub info : Card → Options → M Status
unfolding call show_card open_mixer say
info c o = do
  opened ← call c (ctl_open o.card)
  if not opened then pure negative else do
    card_info ← ask c.card_info
    count ← ask c.element_count
    shown ← show_card c o card_info count
    if not shown then pure negative else do
      mixer ← open_mixer c o
      if not mixer then pure negative else do
        n ← ask c.simple_count
        say (codes "  Simple ctrls  : " ∷ print_int (pos n) ∷ codes "\n" ∷ [])
        emit (alsa mixer_close)
        pure success

-- The static handles of sset and cset.
pub record Handles : Type 0 where
  pub mixer : Bool
  pub ctl : Bool

-- The status of a line's command, 0 for no known one.
unfoldable pub exec_line : Card → Options → Handles → List Bytes → M (Status × Handles)
unfolding sset cset
exec_line c o handles [] = pure (success, handles)
exec_line c o handles (cmd ∷ args) =
    if str_eq cmd (codes "sset") || str_eq cmd (codes "set")
    then (sset c o args false true handles.mixer >>= λ (status, open_now).
        pure (status, record handles { mixer = open_now }))
    else if str_eq cmd (codes "cset")
    then (cset c o args false true handles.ctl >>= λ (status, open_now).
        pure (status, record handles { ctl = open_now }))
    else pure (success, handles)

abbrev pub is_negative : Status → Bool
is_negative status = elim status [ negative ↦ true | _ ↦ false ]

-- The loop over the lines, which an error ends.
unfoldable pub exec_lines : Card → Options → Handles → List Bytes → M Status
unfolding exec_line split_line
exec_lines c o handles [] = pure success
exec_lines c o handles (line ∷ lines) =
    exec_line c o handles (split_line line max_args) >>= λ (status, next).
    if is_negative status then pure one else exec_lines c o next lines

-- sizeof(buf)
abbrev pub buf_size : ℕ
buf_size = 256

unfoldable pub exec_stdin : Card → Options → M Status
unfolding exec_lines read_lines
exec_stdin c o =
    exec_lines c (record o { ignore_error = true }) (record { mixer = false; ctl = false })
      (read_lines (length c.stdin) buf_size c.stdin)

-- … ? 1 : 0
abbrev pub as_exit : Status → Status
as_exit success = success
as_exit one = one
as_exit negative = one
as_exit listening = listening
as_exit aborted = aborted

abbrev pub level_of : Bool → Bool → Level
level_of inactive basic = record { basic = basic; inactive = inactive; id = false }

unfoldable pub command : Card → Options → Bool → Bytes → List Bytes → M Status
unfolding say info controls selems sset cset events sevents
command c o inactive cmd args =
    let level = level_of inactive in
    let exit = λ (m : M Status). m >>= λ status. pure (as_exit status) in
    if str_eq cmd (codes "help")
    then say (help_text o.card) >> pure success
    else if str_eq cmd (codes "info")
    then exit (info c o)
    else if str_eq cmd (codes "controls")
    then exit (controls c o (level false))
    else if str_eq cmd (codes "contents")
    then exit (controls c o (level true))
    else if str_eq cmd (codes "scontrols") || str_eq cmd (codes "simple")
    then exit (selems c o (level false))
    else if str_eq cmd (codes "scontents")
    then exit (selems c o (level true))
    else if str_eq cmd (codes "sset") || str_eq cmd (codes "set")
    then exit (sset c o args false false false >>= λ r. pure (r.0))
    else if str_eq cmd (codes "sget") || str_eq cmd (codes "get")
    then exit (sset c o args true false false >>= λ r. pure (r.0))
    else if str_eq cmd (codes "cset")
    then exit (cset c o args false false false >>= λ r. pure (r.0))
    else if str_eq cmd (codes "cget")
    then exit (cset c o args true false false >>= λ r. pure (r.0))
    else if str_eq cmd (codes "events")
    then events c o
    else if str_eq cmd (codes "sevents")
    then sevents c o
    else pure success

-- Without arguments the contents are shown.
unfoldable pub run_args : Card → Settings → List Bytes → M Status
unfolding selems command
run_args c st [] =
    selems c st.options (level_of st.inactive true) >>= λ status. pure (as_exit status)
run_args c st (cmd ∷ args) = command c st.options st.inactive cmd args

unfoldable pub run_program : Card → Settings → List Bytes → M Status
unfolding say exec_stdin run_args
run_program c st args =
    if st.morehelp
    then say (help_text st.options.card) >> pure one
    else if st.read_stdin
    then exec_stdin c st.options
    else run_args c st args

unfoldable pub start : Card → Parsed → List Bytes → M Status
unfolding say run_program
start c (quit text status) args = say text >> pure status
start c (go st) args = run_program c st args

unfoldable pub main : Card → List (ℕ × Bytes) → List Bytes → M Status
unfolding parse_options start
main c opts args = start c (parse_options c start_settings opts) args
