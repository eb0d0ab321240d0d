-- ===== src/TmixerOss/Levels.antt =====
-- Which levels tmixer/tmixer-oss.c sets, and on which devices.
use tcos.Base.{
  ℕ, zero, suc, ◌+◌, ◌<◌, ◌≤◌, ◌^◌, bit_and, ℤ, pos, negsuc, Bytes, List, [], ◌∷◌, Option, none,
  some, arith, Bool-cases, inl, inr, All, str_eq, ◌==◌, get_or,
}
use tcos.CText.Decimal.{atoi}
use tcos.Host.{Event, int_overflow, print, write_level, Trace, M}
use tcos.Host
use tcos.Host.Emits.{Emits, emits_rules, Emits-bind, Emits-pure, Emits-if, Emits-deref}
use tcos.TmixerOss.{
  Mixer, Run, E, proceed, ◌>>=◌, lift, pure, quit, error_exit, read_or_exit, initialize_mixer,
  nrdevices, oss_max_level, oss_unmute_level, show_contents, show_control, clamp_level, asked_level,
  put_level, set_level, set_show, show_from,
}
use tcos.TmixerOss.Main.{
  is_ignored, options, channel_names, first_named, channel_index, on_index, on_channel, show_all,
  command, program, exit_code, main,
}

-- What a run of the program may do.
pub data IsMixing : Event → Type 0 where
  printed : (s : Bytes) → IsMixing (print s)
  level_set :
      (dev level : ℕ)
      → dev < nrdevices
      → level ≤ oss_max_level
      → IsMixing (write_level dev (pos level))

abbrev to_list : Option ℕ → List ℕ
to_list none = []
to_list (some i) = i ∷ []

abbrev Mixes : {A : Type 0} → M A → Type 0
Mixes m = Emits IsMixing m

-- The ways in which the actions with an exit are built.
module _ {A B : Type 0} where
  Mixes-proceed : (f : A → E B) → ((a : A) → Mixes (f a)) → (r : Run A) → Mixes (proceed f r)
  Mixes-proceed f h (Run.go a) = h a
  Mixes-proceed f h (Run.exit c) = search emits_rules

  Mixes-then : (m : E A) (f : A → E B) → Mixes m → ((a : A) → Mixes (f a)) → Mixes (m >>= f)
  Mixes-then m f hm hf = Emits-bind m (proceed f) hm (Mixes-proceed f hf)

module _ {A : Type 0} where
  Mixes-lift : (m : M A) → Mixes m → Mixes (lift m)
  unfolding lift
  Mixes-lift m h = record { at = λ t. (Emits-bind m _ h (λ a. Emits-pure (Run.go a))).at t }

  Mixes-go : (a : A) → Mixes (pure a)
  unfolding pure
  Mixes-go a = search emits_rules

  Mixes-quit : (c : ℕ) → Mixes (quit {A = A} c)
  unfolding quit
  Mixes-quit c = search emits_rules

  Mixes-read : (c : ℕ) (o : Option A) → Mixes (read_or_exit c o)
  unfolding read_or_exit
  Mixes-read c none = Mixes-quit 1
  Mixes-read c (some a) = Mixes-go a

Mixes-error : (c : ℕ) → Mixes (error_exit c)
unfolding error_exit
Mixes-error c = search emits_rules

ruleset mixes_rules = (
  emits_rules, Mixes-then, Mixes-lift, Mixes-go, Mixes-quit, Mixes-read, Mixes-error,
  IsMixing.printed, IsMixing.level_set,
)

module _ (m : Mixer) where
  initialize_mixer-Mixes : Mixes (initialize_mixer m)
  unfolding initialize_mixer
  initialize_mixer-Mixes = search mixes_rules depth 30

  show_contents-Mixes : (dev : ℕ) → Mixes (show_contents m dev)
  unfolding show_contents
  show_contents-Mixes dev = search mixes_rules depth 12

  show_control-Mixes : (dev : ℕ) → Mixes (show_control m dev)
  unfolding show_control
  show_control-Mixes dev = search mixes_rules depth 12

  asked_level-Mixes : (level : Bytes) → Mixes (asked_level m level)
  unfolding asked_level
  asked_level-Mixes level = Emits-if _ _ _ (Emits-pure _) (
      Emits-if _ _ _
        (elim m.oss_mute_level
          as (λ o. Mixes (elim o as (λ _. M ℤ) [
            | none ↦ Host.pure (pos oss_unmute_level)
            | some env ↦ Host.deref int_overflow (atoi env)
          ])) [ none ↦ Emits-pure _ | some env ↦ Emits-deref _ _ ])
        (Emits-deref _ _))

  clamp_level-bound : (n : ℤ) → clamp_level n ≤ oss_max_level
  unfolding clamp_level
  clamp_level-bound (pos n) = ground arith
  clamp_level-bound (negsuc n) = omega arith

  set_level-Mixes : (dev : ℕ) (level : Bytes) → dev < nrdevices → Mixes (set_level m dev level)
  unfolding set_level put_level
  set_level-Mixes dev level lt =
      search (mixes_rules, asked_level-Mixes, clamp_level-bound, show_contents-Mixes, lt) depth 14

  set_show-Mixes :
      (dev : ℕ) (action level : Bytes) → dev < nrdevices → Mixes (set_show m dev action level)
  unfolding set_show
  set_show-Mixes dev action level lt =
      search (mixes_rules, show_contents-Mixes, show_control-Mixes, set_level-Mixes, lt)

  show_from-Mixes :
      (mask : ℕ) (action : Bytes) (n ii : ℕ)
      → ii + n ≤ nrdevices
      → Mixes (show_from m mask action n ii)
  unfolding show_from
  show_from-Mixes mask action zero ii lt = search mixes_rules
  show_from-Mixes mask action (suc n) ii lt =
      let rest = show_from-Mixes mask action n (ii + 1) (omega arith) in
      Emits-if (bit_and (2 ^ ii) mask == 0) _ _ rest
        (Mixes-then _ _ (set_show-Mixes ii action [] (omega arith)) (λ r. rest))

  options-Mixes : (opts : List ℕ) → Mixes (options m opts)
  unfolding options
  options-Mixes [] = search mixes_rules
  options-Mixes (c ∷ cs) = Emits-if (c == b'h') _ _ (search mixes_rules depth 12) (
      Emits-if (c == b'v') _ _ (search mixes_rules depth 12)
        (Emits-if (is_ignored c) _ _ (options-Mixes cs) (Mixes-quit 1)))

  -- A channel of the command line is one of the 25 devices.
  first_named-bound :
      (name : Bytes) (named : List (Bytes × ℕ))
      → All (λ p. p.1 < nrdevices) named
      → All (λ i. i < nrdevices) (to_list (first_named name named))
  unfolding first_named
  first_named-bound name [] h = tt
  first_named-bound name ((s, index) ∷ rest) (lt, h) = elim (Bool-cases (str_eq name s)) [
    | inl e ↦ rw e (lt, tt)
    | inr e ↦ rw e (first_named-bound name rest h)
  ]

  on_index-Mixes :
      (action level : Bytes) (index : Option ℕ)
      → All (λ i. i < nrdevices) (to_list index)
      → Mixes (on_index m action level index)
  unfolding on_index
  on_index-Mixes action level none h = search mixes_rules
  on_index-Mixes action level (some index) (lt, h) = search (mixes_rules, set_show-Mixes, lt)

  on_channel-Mixes : (action : Bytes) (args : List Bytes) → Mixes (on_channel m action args)
  unfolding on_channel channel_index
  on_channel-Mixes action args =
      let known = λ (name : Bytes).
        on_index-Mixes action (get_or args 1 []) (channel_index name)
          (first_named-bound name channel_names (omega arith)) in
      search (mixes_rules, known) depth 12

  show_all-Mixes : (mask : ℕ) (action : Bytes) → Mixes (show_all m mask action)
  unfolding show_all
  show_all-Mixes mask action =
      search (mixes_rules, show_from-Mixes mask action nrdevices 0 (omega arith))

  command-Mixes : (mask : ℕ) (args : List Bytes) → Mixes (command m mask args)
  unfolding command
  command-Mixes mask [] = show_all-Mixes mask _
  command-Mixes mask (cmd ∷ args) = search (mixes_rules, show_all-Mixes, on_channel-Mixes) depth 12

  program-Mixes : (opts : List ℕ) (args : List Bytes) → Mixes (program m opts args)
  unfolding program
  program-Mixes opts args =
      search (mixes_rules, options-Mixes, initialize_mixer-Mixes, command-Mixes)

-- Whatever its command line and the mixer, the program only prints and sets levels: of one of the
-- 25 devices, to at most 100.
pub main_mixes : (m : Mixer) (opts : List ℕ) (args : List Bytes) → Emits IsMixing (main m opts args)
unfolding main
main_mixes m opts args = record {
  at = λ t.
      (Emits-bind (program m opts args) _ (program-Mixes m opts args)
          (λ r. Emits-pure (exit_code r))).at
        t;
}
