-- ===== src/TmixerOss.antt =====
-- tmixer/tmixer-oss.c: the command line tool that shows and sets the channels of an OSS mixer.
-- What goes to stderr is left out.
pub mod Main
pub mod Levels
pub mod Channels
use tcos.Base.{
  ℕ, zero, suc, ◌+◌, ◌<◌, ◌%◌, ◌^◌, ℤ, pos, negsuc, ltb_ℤ, bit_and, bit_or, Bool, true, false, ◌||◌,
  ◌&&◌, not, Bytes, codes, List, [], ◌∷◌, ◌++◌, Option, none, some, ◌==◌, ltb, get_or, length,
  str_eq, if◌then◌else◌,
}
use tcos.CText.Decimal.{atoi, print_int}
use tcos.Host.{M, Trace, print, write_level, null_pointer, int_overflow, continue}
use tcos.Host

-- The mixer device and the environment of the program. A mask that cannot be read is `none`.
pub record Mixer : Type 0 where
  pub opens : Trace → Bool
  pub devmask : Trace → Option ℕ
  pub recmask : Trace → Option ℕ
  pub recsrc : Trace → Option ℕ
  pub stereodevs : Trace → Option ℕ
  -- ioctl(fd, MIXER_READ(device), &level)
  pub level : Trace → ℕ → Option ℕ
  pub accepts : Trace → ℕ → ℤ → Bool
  -- TCOS_VERSION of the build
  pub version : Bytes
  -- getenv("TMIXER_OSSMUTELEVEL")
  pub oss_mute_level : Option Bytes

-- A call of exit ends the program.
pub data Run (A : Type 0) : Type 0 where
  go : A → Run A
  exit : ℕ → Run A

abbrev pub E : Type 0 → Type 0
E A = M (Run A)

abbrev pub proceed : {A B : Type 0} → (A → E B) → Run A → E B
proceed f (go a) = f a
proceed f (exit c) = Host.pure (exit c)

infixl 5 ◌>>=◌ ◌>>◌
abbrev pub ◌>>=◌ : {A B : Type 0} → E A → (A → E B) → E B
◌>>=◌ m f = Host.◌>>=◌ m (proceed f)

abbrev pub ◌>>◌ : {A B : Type 0} → E A → E B → E B
m >> n = m >>= λ _. n

unfoldable pub lift : {A : Type 0} → M A → E A
lift m t = continue (m t) (λ a. Host.pure (go a))

unfoldable pub pure : {A : Type 0} → A → E A
pure a = Host.pure (go a)

unfoldable pub quit : {A : Type 0} → ℕ → E A
quit c = Host.pure (exit c)

-- The numbers of `enum` in tmixer-oss.h, and 12 for an unknown action.
abbrev pub eopenmix : ℕ
eopenmix = 1

abbrev pub efinddevice : ℕ
efinddevice = 2

abbrev pub ereaddev : ℕ
ereaddev = 3

abbrev pub ereadrecmask : ℕ
ereadrecmask = 4

abbrev pub ereadrecsrc : ℕ
ereadrecsrc = 5

abbrev pub ereadstereo : ℕ
ereadstereo = 6

abbrev pub ereadmix : ℕ
ereadmix = 8

abbrev pub ewritemix : ℕ
ewritemix = 9

abbrev pub oss_max_level : ℕ
oss_max_level = 100

abbrev pub oss_unmute_level : ℕ
oss_unmute_level = 85

-- ErrorExitWarn(error, 'e')
unfoldable pub error_exit : ℕ → E (Unit {0})
unfolding pure quit
error_exit error = if error == 0 then pure tt else quit 1

-- The value of an ioctl that reads, or the exit with its error.
unfoldable pub read_or_exit : {A : Type 0} → ℕ → Option A → E A
unfolding pure quit
read_or_exit error none = quit 1
read_or_exit error (some a) = pure a

-- InitializeMixer with MixerStatus: the devices that can be shown, devmask | recmask.
unfoldable pub initialize_mixer : Mixer → E ℕ
unfolding error_exit read_or_exit lift
initialize_mixer m = do
  opened ← lift (Host.ask m.opens)
  error_exit (if opened then 0 else eopenmix)
  dev ← lift (Host.ask m.devmask)
  devmask ← read_or_exit ereaddev dev
  rec ← lift (Host.ask m.recmask)
  recmask ← read_or_exit ereadrecmask rec
  src ← lift (Host.ask m.recsrc)
  read_or_exit ereadrecsrc src
  stereo ← lift (Host.ask m.stereodevs)
  read_or_exit ereadstereo stereo
  error_exit (if devmask == 0 then efinddevice else 0)
  pure (bit_or devmask recmask)

abbrev pub dev_name : List Bytes
dev_name =
    codes "Master"
    ∷ codes "Bass"
    ∷ codes "Treble"
    ∷ codes "Synth"
    ∷ codes "PCM"
    ∷ codes "Speaker"
    ∷ codes "Line"
    ∷ codes "Mic"
    ∷ codes "CD"
    ∷ codes "Mix"
    ∷ codes "PCM2"
    ∷ codes "Record"
    ∷ codes "Input"
    ∷ codes "Output"
    ∷ codes "Line 1"
    ∷ codes "Line 2"
    ∷ codes "Line 3"
    ∷ codes "Digital1"
    ∷ codes "Digital2"
    ∷ codes "Digital3"
    ∷ codes "Phone In"
    ∷ codes "PhoneOut"
    ∷ codes "Video"
    ∷ codes "Radio"
    ∷ codes "Monitor"
    ∷ []

-- SOUND_MIXER_NRDEVICES of the kernel's header, the length of dev_name.
abbrev pub nrdevices : ℕ
nrdevices = 25

unfoldable pub contents_line : ℕ → ℕ → Bytes
contents_line dev tmp =
    get_or dev_name dev []
    ++ (codes ",volume|switch|,"
        ++ (print_int (pos (tmp % 2 ^ 8))
            ++ (codes ","
                ++ ((if ltb 0 (tmp % 2 ^ 8) then codes "on" else codes "off") ++ b'\n' ∷ []))))

-- "scontents" and "sget"
unfoldable pub show_contents : Mixer → ℕ → E (Unit {0})
unfolding contents_line lift read_or_exit
show_contents m dev = do
  level ← lift (Host.ask (λ t. m.level t dev))
  tmp ← read_or_exit ereadmix level
  lift (Host.emit (print (contents_line dev tmp)))

-- "scontrols"
unfoldable pub show_control : Mixer → ℕ → E (Unit {0})
unfolding lift read_or_exit
show_control m dev = do
  level ← lift (Host.ask (λ t. m.level t dev))
  read_or_exit ereadmix level
  lift (Host.emit (print (get_or dev_name dev [] ++ codes "|")))

unfoldable pub clamp_level : ℤ → ℕ
clamp_level (pos n) = if ltb oss_max_level n then oss_max_level else n
clamp_level (negsuc n) = 0

-- The level that the text asks for; atoi of a number that is no int is undefined.
unfoldable pub asked_level : Mixer → Bytes → M ℤ
asked_level m level =
    if str_eq level (codes "mute") || str_eq level (codes "off")
    then Host.pure (pos 0)
    else if str_eq level (codes "unmute") || str_eq level (codes "on")
    then elim m.oss_mute_level as (λ _. M ℤ) [
      | none ↦ Host.pure (pos oss_unmute_level)
      | some env ↦ Host.deref int_overflow (atoi env)
    ]
    else Host.deref int_overflow (atoi level)

-- WriteLevel, with its error.
unfoldable pub put_level : Mixer → ℕ → ℕ → E (Unit {0})
unfolding lift error_exit
put_level m dev tmp = do
  accepted ← lift (Host.ask (λ t. m.accepts t dev (pos tmp)))
  lift (Host.emit (write_level dev (pos tmp)))
  error_exit (if accepted then 0 else ewritemix)

-- "sset"
unfoldable pub set_level : Mixer → ℕ → Bytes → E (Unit {0})
unfolding asked_level clamp_level put_level show_contents lift
set_level m dev level = do
  tmp ← lift (asked_level m level)
  put_level m dev (clamp_level tmp)
  show_contents m dev

-- SetShowNoninter
unfoldable pub set_show : Mixer → ℕ → Bytes → Bytes → E (Unit {0})
unfolding show_contents show_control set_level error_exit
set_show m dev action level =
    if str_eq action (codes "scontents") || str_eq action (codes "sget")
    then show_contents m dev
    else if str_eq action (codes "scontrols")
    then show_control m dev
    else if str_eq action (codes "sset")
    then set_level m dev level
    else error_exit 12

-- The loop over the devices, from `ii`; `n` are left.
unfoldable pub show_from : Mixer → ℕ → Bytes → ℕ → ℕ → E (Unit {0})
unfolding set_show pure
show_from m mask action zero ii = pure tt
show_from m mask action (suc n) ii =
    let rest = show_from m mask action n (ii + 1) in
    if bit_and (2 ^ ii) mask == 0 then rest else (set_show m ii action [] >> rest)
