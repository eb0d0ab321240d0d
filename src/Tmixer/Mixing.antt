-- ===== src/Tmixer/Mixing.antt =====
-- tmixer only mixes, whichever of its programs it starts.
use tcos.Base.{◌≢◌, ◌⊎◌, inl, inr, All, Option, none, some, Bytes}
use tcos.Host.{Event}
use tcos.Host.Emits.{Emits, emits_rules, Emits-weaken, Emits-bind, Emits-pure}
use tcos.Tmixer.{Machine, Arguments, tmixer_oss, tmixer_alsa, detect, choose, main}
use tcos.TmixerAlsa.Safe.{IsSafe}
use tcos.TmixerAlsa.Safe.Commands.{IsSound}
use tcos.TmixerAlsa.Safe.Program.{main_in_range}
use tcos.TmixerOss.Levels.{IsMixing, main_mixes}

-- What either program may do.
abbrev pub IsBounded : Machine → Event → Type 0
IsBounded m e = IsMixing e ⊎ IsSafe m.card e

module _ (m : Machine) (a : Arguments) where
  tmixer_oss-IsBounded : Emits (IsBounded m) (tmixer_oss m a)
  unfolding tmixer_oss
  tmixer_oss-IsBounded =
      let runs =
        Emits-weaken _ (λ e mixing. inl mixing)
          (main_mixes m.mixer a.oss_options a.oss_arguments) in
      Emits-bind _ _ runs (λ code. Emits-pure _)

  module _ (sound : IsSound m.card) (plain : All (λ o. o.0 ≢ b'n') a.alsa_options) where
    tmixer_alsa-IsBounded : Emits (IsBounded m) (tmixer_alsa m a)
    unfolding tmixer_alsa
    tmixer_alsa-IsBounded =
        let runs =
          Emits-weaken _ (λ e safe. inr safe)
            (main_in_range m.card sound a.alsa_options a.alsa_arguments plain) in
        Emits-bind _ _ runs (λ status. Emits-pure _)

    detect-IsBounded : Emits (IsBounded m) (detect m a)
    unfolding detect
    detect-IsBounded = search (emits_rules, tmixer_oss-IsBounded, tmixer_alsa-IsBounded) depth 12

    choose-IsBounded : (force : Option Bytes) → Emits (IsBounded m) (choose m a force)
    unfolding choose
    choose-IsBounded none = detect-IsBounded
    choose-IsBounded (some name) =
        search (emits_rules, tmixer_oss-IsBounded, tmixer_alsa-IsBounded, detect-IsBounded)

    -- On a sound card, and where the option -n is not given, tmixer does no more than its two
    -- programs may: levels from 0 to the highest one for OSS, and for ALSA values that the card
    -- reports as in range.
    pub tmixer_in_range : Emits (IsBounded m) (main m a)
    unfolding main
    tmixer_in_range = choose-IsBounded m.force
