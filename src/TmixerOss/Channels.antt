-- ===== src/TmixerOss/Channels.antt =====
-- The commands sset and sget of tmixer/tmixer-oss.c, for one channel.
use Prim.Native.Nat.{min}
use tcos.Base.{
  ℕ, zero, suc, ◌+◌, ◌<◌, ◌≤◌, ℤ, pos, negsuc, true, false, ◌≡◌, ◌≢◌, refl, ap, ◌∙◌, sym, Bytes,
  codes, List, [], ◌∷◌, append-nil, some, arith, All, str_eq, ◌==◌, length, ltb, get_or, bit_or,
}
use tcos.CText.Decimal.{print_int, atoi}
use tcos.CText.Decimal.RoundTrip.{IsInt, atoi-print}
use tcos.CText.Decimal.Digits.{IsDigit, print_int-IsDigit}
use tcos.Host.{Trace, print, write_level, done, undefined, null_pointer, ask, emit, deref}
use tcos.Host
use tcos.TmixerOss.{
  Mixer, lift, pure, quit, error_exit, read_or_exit, initialize_mixer, dev_name, nrdevices,
  contents_line, show_contents, clamp_level, asked_level, put_level, set_level, set_show, Run,
}
use tcos.TmixerOss.Main.{
  options, channel_index, first_named, on_index, on_channel, command, program, main,
}

-- The mixer opens, with its masks and with some device.
pub record IsReady (m : Mixer) (t : Trace) (devmask recmask recsrc stereo : ℕ) : Type 0 where
  pub opened : m.opens t ≡ true
  pub devices : m.devmask t ≡ some devmask
  pub recordable : m.recmask t ≡ some recmask
  pub sources : m.recsrc t ≡ some recsrc
  pub stereos : m.stereodevs t ≡ some stereo
  pub some_device : devmask ≢ 0

-- The names of dev_name in order, each with its index.
abbrev IndexedFrom : List Bytes → ℕ → Type 0
IndexedFrom [] i = Unit
IndexedFrom (s ∷ names) i = (channel_index s ≡ some i) × IndexedFrom names (i + 1)

dev_name-IndexedFrom : IndexedFrom dev_name 0
unfolding channel_index first_named str_eq
dev_name-IndexedFrom = (
  refl,
  (
    refl,
    (
      refl,
      (
        refl,
        (
          refl,
          (
            refl,
            (
              refl,
              (
                refl,
                (
                  refl,
                  (
                    refl,
                    (
                      refl,
                      (
                        refl,
                        (
                          refl,
                          (
                            refl,
                            (
                              refl,
                              (
                                refl,
                                (
                                  refl,
                                  (
                                    refl,
                                    (refl, (refl, (refl, (refl, (refl, (refl, (refl, tt))))))),
                                  ),
                                ),
                              ),
                            ),
                          ),
                        ),
                      ),
                    ),
                  ),
                ),
              ),
            ),
          ),
        ),
      ),
    ),
  ),
)

index_of_nth :
    (names : List Bytes) (k i : ℕ)
    → IndexedFrom names k
    → i < length names
    → channel_index (get_or names i []) ≡ some (k + i)
index_of_nth [] k i h lt = absurd (omega arith)
index_of_nth (s ∷ names) k zero h lt = h.0 ∙ ap some (omega arith)
index_of_nth (s ∷ names) k (suc i) h lt =
    index_of_nth names (k + 1) i h.1 (omega arith) ∙ ap some (omega arith)

-- Every one of the 25 names of dev_name is found on the command line, under its own index.
pub channel_index-name : (i : ℕ) → i < nrdevices → channel_index (get_or dev_name i []) ≡ some i
channel_index-name i lt = index_of_nth dev_name 0 i dev_name-IndexedFrom lt ∙ ap some (omega arith)

-- The level from 0 to 100 that is nearest.
abbrev pub nearest : ℤ → ℕ
nearest (pos n) = min n 100
nearest (negsuc n) = 0

clamp_level-nearest : (v : ℤ) → clamp_level v ≡ nearest v
unfolding clamp_level
clamp_level-nearest (pos n) = ground arith
clamp_level-nearest (negsuc n) = refl

digits_ne_word :
    (s : Bytes) (c : ℕ) (w : Bytes) → b'9' < c → All IsDigit s → str_eq s (c ∷ w) ≡ false
unfolding str_eq
digits_ne_word [] c w lt h = refl
digits_ne_word (d ∷ s) c w lt h = ground (arith, h.0)

-- No number is written like a word that starts with a letter.
number_ne_word : (v : ℤ) (c : ℕ) (w : Bytes) → b'9' < c → str_eq (print_int v) (c ∷ w) ≡ false
number_ne_word (pos n) c w lt = digits_ne_word (print_int (pos n)) c w lt (print_int-IsDigit n)
number_ne_word (negsuc n) c w lt = unfold print_int str_eq in ground arith

atoi-print_int : (v : ℤ) → IsInt v → atoi (print_int v) ≡ some v
atoi-print_int v fits = ap atoi (sym (append-nil (print_int v))) ∙ atoi-print v [] fits tt

asked_level-number :
    (m : Mixer) (v : ℤ) (t : Trace) → IsInt v → asked_level m (print_int v) t ≡ done v t
unfolding asked_level deref
asked_level-number m v t ok =
    rw
      (
        number_ne_word v b'm' (codes "ute") (omega arith),
        number_ne_word v b'o' (codes "ff") (omega arith),
        number_ne_word v b'u' (codes "nmute") (omega arith),
        number_ne_word v b'o' (codes "n") (omega arith),
        atoi-print_int v ok,
      )
      refl

module _ (m : Mixer) (t : Trace) {devmask recmask recsrc stereo : ℕ}
    (ready : IsReady m t devmask recmask recsrc stereo) where
  initialize_ready : initialize_mixer m t ≡ done (Run.go (bit_or devmask recmask)) t
  unfolding initialize_mixer lift error_exit read_or_exit pure quit ask Host.pure
  initialize_ready =
      let found : (devmask == 0) ≡ false = ground (arith, ready.some_device) in
      rw (ready.opened, ready.devices, ready.recordable, ready.sources, ready.stereos, found) refl

  program_ready :
      (args : List Bytes) → program m [] args t ≡ command m (bit_or devmask recmask) args t
  unfolding program options pure Host.pure
  program_ready args = rw initialize_ready refl

  -- With an int in decimal as the level, sset gives a channel the nearest level from 0 to 100, then
  -- prints what the mixer says of the channel. The mixer accepts the level and reads it back.
  pub sset_sets :
      (i : ℕ) (v : ℤ) (tmp : ℕ)
      → i < nrdevices
      → IsInt v
      → m.accepts t i (pos (nearest v)) ≡ true
      → m.level (write_level i (pos (nearest v)) ∷ t) i ≡ some tmp
      → main m [] (codes "sset" ∷ get_or dev_name i [] ∷ print_int v ∷ []) t
        ≡ done 0 (print (contents_line i tmp) ∷ write_level i (pos (nearest v)) ∷ t)
  unfolding main on_channel on_index lift deref emit ask quit pure Host.pure error_exit read_or_exit
      set_level put_level show_contents str_eq command set_show
  sset_sets i v tmp lt ok accepted read =
      rw
        (
          program_ready,
          channel_index-name i lt,
          asked_level-number m v t ok,
          clamp_level-nearest v,
          accepted,
          read,
        )
        refl

  -- Without enough arguments sset changes nothing and fails, but sget compares a null pointer with
  -- a name.
  pub short_commands :
      (level : List Bytes)
      → length level ≤ 1
      → (main m [] (codes "sset" ∷ level) t ≡ done 1 t)
        × (main m [] (codes "sget" ∷ []) t ≡ undefined null_pointer t)
  unfolding main on_channel lift deref quit Host.pure str_eq command
  short_commands level few =
      let short : ltb (length level) 2 ≡ true = ground arith in
      (rw (program_ready, short) refl, rw program_ready refl)
