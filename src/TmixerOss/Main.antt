-- ===== src/TmixerOss/Main.antt =====
-- The command line of tmixer/tmixer-oss.c. The options are what getopt_long returns, one after
-- another, and the arguments are argv from optind on.
use tcos.Base.{
  ℕ, Bool, ◌||◌, ◌&&◌, ◌++◌, Bytes, codes, List, [], ◌∷◌, Option, none, some, str_eq, ◌==◌, ltb,
  length, get_or, get_elem?, if◌then◌else◌,
}
use tcos.Host.{M, print, null_pointer, continue}
use tcos.Host
use tcos.TmixerOss.{
  Mixer, Run, E, ◌>>=◌, ◌>>◌, lift, pure, quit, error_exit, initialize_mixer, nrdevices, set_show,
  show_from,
}

-- tmixer_oss_help
abbrev pub help : Bytes
help =
    codes "Usage: tmixer-oss [command]\n"
    ++ (codes "\nAvailable commands:\n"
        ++ (codes "  scontrols       show all mixer simple controls\n"
            ++ (codes
                  "  scontents\t  show contents of all mixer simple controls (default command)\n"
                ++ (codes "  sset sID P      set contents for one mixer simple control\n"
                    ++ (codes "  sget sID        get contents for one mixer simple control\n"
                        ++ (codes "\ntmixer-oss output format:\n"
                            ++ codes
                                "  ChannelName,   ChannelType [volume|switch] , Volume in % , SwitchStatus [on|off] \n\n"))))))

abbrev pub version_line : Mixer → Bytes
version_line m = codes "tmixer-oss version (TCOS) " ++ (m.version ++ b'\n' ∷ [])

-- The options c, D, q, i, d, n, a and s, which change nothing but stderr.
abbrev pub is_ignored : ℕ → Bool
is_ignored c =
    c == b'c'
    || c == b'D'
    || c == b'q'
    || c == b'i'
    || c == b'd'
    || c == b'n'
    || c == b'a'
    || c == b's'

-- The loop of getopt_long.
unfoldable pub options : Mixer → List ℕ → E (Unit {0})
unfolding lift pure quit
options m [] = pure tt
options m (c ∷ cs) =
    let rest = options m cs in
    if c == b'h'
    then (lift (Host.emit (print help)) >> quit 0)
    else if c == b'v'
    then (lift (Host.emit (print (version_line m))) >> quit 1)
    else if is_ignored c
    then rest
    else quit 1

-- The chain of strcmp in main, as the names with the index of each.
abbrev pub channel_names : List (Bytes × ℕ)
channel_names =
    (codes "Master", 0)
    ∷ (codes "Bass", 1)
    ∷ (codes "Treble", 2)
    ∷ (codes "Synth", 3)
    ∷ (codes "PCM", 4)
    ∷ (codes "Speaker", 5)
    ∷ (codes "Line", 6)
    ∷ (codes "Mic", 7)
    ∷ (codes "CD", 8)
    ∷ (codes "Mix", 9)
    ∷ (codes "PCM2", 10)
    ∷ (codes "Record", 11)
    ∷ (codes "Input", 12)
    ∷ (codes "Output", 13)
    ∷ (codes "Line 1", 14)
    ∷ (codes "Line 2", 15)
    ∷ (codes "Line 3", 16)
    ∷ (codes "Digital1", 17)
    ∷ (codes "Digital2", 18)
    ∷ (codes "Digital3", 19)
    ∷ (codes "Phone In", 20)
    ∷ (codes "PhoneOut", 21)
    ∷ (codes "Video", 22)
    ∷ (codes "Radio", 23)
    ∷ (codes "Monitor", 24)
    ∷ []

unfoldable pub first_named : Bytes → List (Bytes × ℕ) → Option ℕ
first_named name [] = none
first_named name ((s, index) ∷ rest) = if str_eq name s then some index else first_named name rest

unfoldable pub channel_index : Bytes → Option ℕ
unfolding first_named
channel_index name = first_named name channel_names

-- SetShowNoninter and the exit, for a channel that has an index.
unfoldable pub on_index : Mixer → Bytes → Bytes → Option ℕ → E (Unit {0})
unfolding set_show quit
on_index m action level none = quit 0
on_index m action level (some index) = set_show m index action level >> quit 0

-- "sset" and "sget"; the second argument of sget is not tested.
unfoldable pub on_channel : Mixer → Bytes → List Bytes → E (Unit {0})
unfolding on_index channel_index lift quit
on_channel m action args =
    if str_eq action (codes "sset") && ltb (length args) 2 then quit 1 else do
      name ← lift (Host.deref null_pointer (get_elem? args 0))
      on_index m action (get_or args 1 []) (channel_index name)

unfoldable pub show_all : Mixer → ℕ → Bytes → E (Unit {0})
unfolding show_from quit
show_all m mask action = show_from m mask action nrdevices 0 >> quit 0

-- The commands, for the devices of `mask`.
unfoldable pub command : Mixer → ℕ → List Bytes → E (Unit {0})
unfolding show_all on_channel lift quit error_exit
command m mask [] = show_all m mask (codes "scontents")
command m mask (cmd ∷ args) =
    if str_eq cmd (codes "help")
    then (lift (Host.emit (print help)) >> quit 0)
    else if str_eq cmd (codes "scontrols") || str_eq cmd (codes "simple")
    then show_all m mask (codes "scontrols")
    else if str_eq cmd (codes "scontents")
    then show_all m mask (codes "scontents")
    else if str_eq cmd (codes "sset") || str_eq cmd (codes "sget")
    then on_channel m cmd args
    else (error_exit 12 >> quit 1)

unfoldable pub program : Mixer → List ℕ → List Bytes → E (Unit {0})
unfolding options initialize_mixer command
program m opts args = do options m opts; mask ← initialize_mixer m; command m mask args

-- The exit code of a run.
abbrev pub exit_code : Run (Unit {0}) → ℕ
exit_code (Run.go r) = 0
exit_code (Run.exit c) = c

unfoldable pub main : Mixer → List ℕ → List Bytes → M ℕ
unfolding program
main m opts args t = continue (program m opts args t) (λ r. Host.pure (exit_code r))
