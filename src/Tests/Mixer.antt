-- ===== src/Tests/Mixer.antt =====
-- The OSS mixer, with two devices.
use tcos.Base.{ℕ, ◌≡◌, refl, pos, true, codes, [], ◌∷◌, some, none, arith, str_eq}
use tcos.CText.Decimal.{print_int, digits}
use tcos.Host.{Trace, print, write_level, done, undefined, null_pointer, ask, emit}
use tcos.Host
use tcos.Host.Emits.{Emits}
use tcos.TmixerOss.{
  Mixer, contents_line, lift, pure, quit, error_exit, read_or_exit, initialize_mixer, show_contents,
  set_show, show_from,
}
use tcos.TmixerOss.Main.{main, command, options, program, show_all}
use tcos.TmixerOss.Levels.{IsMixing, main_mixes}
use tcos.TmixerOss.Channels.{IsReady, sset_sets}

-- The mixer's level follows what was written last.
pub last_level : Trace → ℕ → ℕ
last_level [] dev = 50
last_level (write_level d (pos n) ∷ t) dev = n
last_level (e ∷ t) dev = last_level t dev

abbrev pub mixer : Mixer
mixer = record {
  opens = λ t. true;
  devmask = λ t. some 17;
  recmask = λ t. some 128;
  recsrc = λ t. some 0;
  stereodevs = λ t. some 17;
  level = λ t dev. some (last_level t dev);
  accepts = λ t dev level. true;
  version = codes "0.89";
  oss_mute_level = none;
}

mixer-IsReady : IsReady mixer [] 17 128 0 17
mixer-IsReady = record {
  opened = refl;
  devices = refl;
  recordable = refl;
  sources = refl;
  stereos = refl;
  some_device = λ e. cc e;
}

main_mixes_example : Emits IsMixing (main mixer [] (codes "sset" ∷ codes "PCM" ∷ codes "120" ∷ []))
main_mixes_example = main_mixes mixer [] (codes "sset" ∷ codes "PCM" ∷ codes "120" ∷ [])

sset_sets_example :
    main mixer [] (codes "sset" ∷ codes "PCM" ∷ print_int (pos 120) ∷ []) []
    ≡ done 0 (print (contents_line 4 100) ∷ write_level 4 (pos 100) ∷ [])
unfolding last_level
sset_sets_example =
    sset_sets mixer [] mixer-IsReady 4 (pos 120) 100 (omega arith) (omega arith) refl refl

lists_devices :
    main mixer [] [] []
    ≡ done 0 (
        print (codes "Mic,volume|switch|,50,on\n")
        ∷ print (codes "PCM,volume|switch|,50,on\n")
        ∷ print (codes "Master,volume|switch|,50,on\n")
        ∷ [])
unfolding main program options initialize_mixer command show_all show_from set_show show_contents
    contents_line lift pure quit error_exit read_or_exit ask emit Host.pure last_level str_eq
    print_int digits
lists_devices = refl
