-- ===== src/Tmixer.antt =====
-- tmixer/tmixer.c, which starts the mixer program of OSS or the one of ALSA. The message on stderr
-- is left out.
pub mod Mixing
pub mod Starts
use tcos.Base.{ℕ, Bool, ◌&&◌, Bytes, codes, List, Option, none, some, str_eq, if◌then◌else◌}
use tcos.Host.{Trace, M, pure, ask, ◌>>=◌}
use tcos.TmixerAlsa.Card.{Card, Status}
use tcos.TmixerAlsa.Main
use tcos.TmixerOss.{Mixer}
use tcos.TmixerOss.Main as Oss

-- getenv("TMIXER_FORCE") and stat
pub record Machine : Type 0 where
  pub force : Option Bytes
  pub file_exists : Trace → Bytes → Bool
  pub mixer : Mixer
  pub card : Card

-- What getopt makes of argv for either program.
pub record Arguments : Type 0 where
  pub oss_options : List ℕ
  pub oss_arguments : List Bytes
  pub alsa_options : List (ℕ × Bytes)
  pub alsa_arguments : List Bytes

-- The exit code of the program that was started, or 1 where none was.
pub data Exit : Type 0 where
  oss : ℕ → Exit
  alsa : Status → Exit
  undetected : Exit

unfoldable pub tmixer_oss : Machine → Arguments → M Exit
tmixer_oss m a = Oss.main m.mixer a.oss_options a.oss_arguments >>= λ code. pure (oss code)

unfoldable pub tmixer_alsa : Machine → Arguments → M Exit
tmixer_alsa m a = Main.main m.card a.alsa_options a.alsa_arguments >>= λ status. pure (alsa status)

unfoldable pub detect : Machine → Arguments → M Exit
unfolding tmixer_oss tmixer_alsa
detect m a = do
  has_alsa ← ask (λ t. m.file_exists t (codes "/proc/asound/card0/id"))
  has_dsp ← ask (λ t. m.file_exists t (codes "/dev/dsp"))
  has_mixer ← ask (λ t. m.file_exists t (codes "/dev/mixer"))
  if has_alsa
      then tmixer_alsa m a
      else if has_dsp && has_mixer
      then tmixer_oss m a
      else pure undetected

unfoldable pub choose : Machine → Arguments → Option Bytes → M Exit
unfolding detect tmixer_oss tmixer_alsa
choose m a none = detect m a
choose m a (some name) =
    if str_eq name (codes "oss")
    then tmixer_oss m a
    else if str_eq name (codes "alsa")
    then tmixer_alsa m a
    else detect m a

unfoldable pub main : Machine → Arguments → M Exit
unfolding choose
main m a = choose m a m.force
