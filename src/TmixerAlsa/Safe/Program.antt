-- ===== src/TmixerAlsa/Safe/Program.antt =====
-- tmixer-alsa is safe as a whole, whatever its command line and its stdin say.
use tcos.Base.{
  ◌≡◌, ◌≢◌, ℕ, ℤ, pos, negsuc, refl, arith, true, false, ◌==◌, Bool, Bytes, List, [], ◌∷◌, All,
  length, if◌then◌else◌,
}
use tcos.Host.Emits.{Emits, Emits-bind, Emits-pure, Emits-if}
use tcos.MountListener.{read_lines}
use tcos.TmixerAlsa.Card.{Card, Options, Status}
use tcos.TmixerAlsa.CommandLine.{
  Settings, Parsed, select_card, select_level, option, parse_options, start_settings,
}
use tcos.TmixerAlsa.Main.{
  Handles, exec_line, exec_lines, exec_stdin, command, run_args, run_program, start, main, buf_size,
}
use tcos.TmixerAlsa.Safe.{IsSafe, safe_rules}
use tcos.TmixerAlsa.Safe.Commands.{IsSound, sset-Safe, cset-Safe}
use tcos.TmixerAlsa.Safe.Listings.{controls-Safe, selems-Safe, info-Safe, events-Safe, sevents-Safe}

-- The range check stays on where the program goes on.
data IsChecked : Parsed → Type 0 where
  stops : (text : List Bytes) (status : Status) → IsChecked (Parsed.quit text status)
  goes : (st : Settings) → st.options.no_check ≡ false → IsChecked (Parsed.go st)

IsChecked-if :
    (b : Bool) (x y : Parsed) → IsChecked x → IsChecked y → IsChecked (if b then x else y)
IsChecked-if true x y hx hy = hx
IsChecked-if false x y hx hy = hy

IsChecked-skip :
    (b : Bool) (x y : Parsed) → b ≡ false → IsChecked y → IsChecked (if b then x else y)
IsChecked-skip b x y e h = rw e h

module _ (st : Settings) (checks : st.options.no_check ≡ false) where
  select_card-checks : (i : ℤ) → (select_card st i).options.no_check ≡ false
  unfolding select_card
  select_card-checks (pos i) = ground arith
  select_card-checks (negsuc i) = checks

  select_level-checks : (name : Bytes) → (select_level st name).options.no_check ≡ false
  unfolding select_level
  select_level-checks name = ground arith

  option-IsChecked :
      (c : Card) (opt : ℕ) (arg : Bytes) → opt ≢ b'n' → IsChecked (option c st opt arg)
  unfolding option
  option-IsChecked c opt arg plain =
      let differs : (opt == b'n') ≡ false = ground arith in
      search
        (
          IsChecked-if, IsChecked-skip, IsChecked.stops, IsChecked.goes, select_card-checks,
          select_level-checks,
        )
        depth 16

parse_options-IsChecked :
    (c : Card) (st : Settings) (opts : List (ℕ × Bytes))
    → st.options.no_check ≡ false
    → All (λ o. o.0 ≢ b'n') opts
    → IsChecked (parse_options c st opts)
unfolding parse_options
parse_options-IsChecked c st [] checks plain = IsChecked.goes st checks
parse_options-IsChecked c st ((opt, arg) ∷ opts) checks plain =
    step (option c st opt arg) (option-IsChecked st checks c opt arg plain.0)
      (λ next ok. parse_options-IsChecked c next opts ok plain.1)
  where
    step :
        (p : Parsed)
        → IsChecked p
        → ((next : Settings)
            → next.options.no_check ≡ false
            → IsChecked (parse_options c next opts))
        → IsChecked (elim p [
          | Parsed.quit text status ↦ Parsed.quit text status
          | Parsed.go next ↦ parse_options c next opts
        ])
    step _ (IsChecked.stops text status) h = IsChecked.stops text status
    step _ (IsChecked.goes next ok) h = h next ok

module _ (c : Card) (sound : IsSound c) where
  module _ (o : Options) (checks : o.no_check ≡ false) where
    exec_line-Safe :
        (handles : Handles) (args : List Bytes) → Emits (IsSafe c) (exec_line c o handles args)
    unfolding exec_line
    exec_line-Safe handles [] = Emits-pure _
    exec_line-Safe handles (cmd ∷ args) =
        search (safe_rules, sset-Safe c sound o checks, cset-Safe c sound o checks)

    exec_lines-Safe :
        (handles : Handles) (lines : List Bytes) → Emits (IsSafe c) (exec_lines c o handles lines)
    unfolding exec_lines
    exec_lines-Safe handles [] = Emits-pure _
    exec_lines-Safe handles (line ∷ lines) =
        Emits-bind _ _ (exec_line-Safe handles _)
          (λ (status, next). Emits-if _ _ _ (Emits-pure _) (exec_lines-Safe next lines))

    command-Safe :
        (inactive : Bool) (cmd : Bytes) (args : List Bytes)
        → Emits (IsSafe c) (command c o inactive cmd args)
    unfolding command
    command-Safe inactive cmd args =
        search
          (
            safe_rules,
            sset-Safe c sound o checks,
            cset-Safe c sound o checks,
            controls-Safe,
            selems-Safe,
            info-Safe,
            events-Safe,
            sevents-Safe,
          )
          depth 40

  exec_stdin-Safe : (o : Options) → o.no_check ≡ false → Emits (IsSafe c) (exec_stdin c o)
  unfolding exec_stdin
  exec_stdin-Safe o checks =
      exec_lines-Safe (record o { ignore_error = true }) checks
        (record { mixer = false; ctl = false }) (read_lines (length c.stdin) buf_size c.stdin)

  run_args-Safe :
      (st : Settings) (args : List Bytes)
      → st.options.no_check ≡ false
      → Emits (IsSafe c) (run_args c st args)
  unfolding run_args
  run_args-Safe st [] checks = search (safe_rules, selems-Safe)
  run_args-Safe st (cmd ∷ args) checks = command-Safe st.options checks st.inactive cmd args

  start-Safe : (p : Parsed) (args : List Bytes) → IsChecked p → Emits (IsSafe c) (start c p args)
  unfolding start run_program
  start-Safe _ args (IsChecked.stops text status) = search safe_rules
  start-Safe _ args (IsChecked.goes st checks) =
      let stdin = exec_stdin-Safe st.options checks in
      let given = run_args-Safe st args checks in search safe_rules

  -- Without the option -n, and on a sound card, tmixer-alsa only prints, opens and closes handles,
  -- and sets simple controls and elements that it finds: switches, items that a control has,
  -- volumes within a range that the control reports, and no more values than an element has, each
  -- of which fits the element. That holds for all options, arguments and lines of stdin.
  pub main_in_range :
      (opts : List (ℕ × Bytes)) (args : List Bytes)
      → All (λ o. o.0 ≢ b'n') opts
      → Emits (IsSafe c) (main c opts args)
  unfolding main
  main_in_range opts args plain =
      start-Safe _ args (parse_options-IsChecked c start_settings opts refl plain)
