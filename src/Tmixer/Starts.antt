-- ===== src/Tmixer/Starts.antt =====
-- Which mixer program tmixer starts.
use tcos.Base.{
  ◌≡◌, ◌≢◌, refl, ◌⊎◌, inl, inr, true, false, Bool-cases, Option, none, some, Bytes, codes, str_eq,
  str_eq_iff,
}
use tcos.Host.{Trace, M, pure, ask, ◌>>=◌}
use tcos.Tmixer.{
  Machine, Arguments, Exit, oss, alsa, undetected, tmixer_oss, tmixer_alsa, detect, choose, main,
}
use tcos.TmixerAlsa.Main
use tcos.TmixerOss.Main as Oss

pub data Program : Type 0 where
  oss_program alsa_program no_program : Program

-- TMIXER_FORCE is not set, or names neither program.
pub data Unforced : Option Bytes → Type 0 where
  unset : Unforced none
  other : (name : Bytes) → name ≢ codes "oss" → name ≢ codes "alsa" → Unforced (some name)

-- The program for a machine at a moment: the one that TMIXER_FORCE names; else that of ALSA, if
-- there is a sound card; else that of OSS, if both its devices are there.
pub data IsProgram (m : Machine) (t : Trace) : Program → Type 0 where
  forced_oss : m.force ≡ some (codes "oss") → IsProgram m t oss_program
  forced_alsa : m.force ≡ some (codes "alsa") → IsProgram m t alsa_program
  has_card :
      Unforced m.force
      → m.file_exists t (codes "/proc/asound/card0/id") ≡ true
      → IsProgram m t alsa_program
  has_devices :
      Unforced m.force
      → m.file_exists t (codes "/proc/asound/card0/id") ≡ false
      → m.file_exists t (codes "/dev/dsp") ≡ true
      → m.file_exists t (codes "/dev/mixer") ≡ true
      → IsProgram m t oss_program
  has_nothing :
      Unforced m.force
      → m.file_exists t (codes "/proc/asound/card0/id") ≡ false
      → (m.file_exists t (codes "/dev/dsp") ≡ false)
        ⊎ (m.file_exists t (codes "/dev/mixer") ≡ false)
      → IsProgram m t no_program

-- A run of the program, with what getopt makes of the command line for it.
abbrev pub run_chosen : Machine → Arguments → Program → M Exit
run_chosen m a oss_program =
    Oss.main m.mixer a.oss_options a.oss_arguments >>= λ code. pure (oss code)
run_chosen m a alsa_program =
    Main.main m.card a.alsa_options a.alsa_arguments >>= λ status. pure (alsa status)
run_chosen m a no_program = pure undetected

module _ (m : Machine) (a : Arguments) (t : Trace) where
  choose-Unforced : (force : Option Bytes) → Unforced force → choose m a force ≡ detect m a
  unfolding choose
  choose-Unforced _ unset = refl
  choose-Unforced _ (other name not_oss not_alsa) = elim (Bool-cases (str_eq name (codes "oss"))) [
    | inl e ↦ absurd (not_oss ((str_eq_iff name (codes "oss")).0 e))
    | inr e ↦ elim (Bool-cases (str_eq name (codes "alsa"))) [
      | inl e' ↦ absurd (not_alsa ((str_eq_iff name (codes "alsa")).0 e'))
      | inr e' ↦ rw (e, e') refl
    ]
  ]

  -- For every value of TMIXER_FORCE and any devices, tmixer runs the program that is forced, or else
  -- ALSA's where there is a sound card, or else that of OSS where both its devices are there, with
  -- the arguments of its own command line; where there is neither, it does nothing and fails.
  pub main_starts : {p : Program} → IsProgram m t p → main m a t ≡ run_chosen m a p t
  unfolding main choose detect tmixer_oss tmixer_alsa ask pure str_eq
  main_starts (forced_oss e) = rw e refl
  main_starts (forced_alsa e) = rw e refl
  main_starts (has_card u card) = rw (choose-Unforced m.force u, card) refl
  main_starts (has_devices u card dsp mixer) = rw (choose-Unforced m.force u, card, dsp, mixer) refl
  main_starts (has_nothing u card (inl dsp)) = rw (choose-Unforced m.force u, card, dsp) refl
  main_starts (has_nothing u card (inr mixer)) =
      elim (Bool-cases (m.file_exists t (codes "/dev/dsp"))) [
        | inl dsp ↦ rw (choose-Unforced m.force u, card, dsp, mixer) refl
        | inr dsp ↦ rw (choose-Unforced m.force u, card, dsp) refl
      ]
