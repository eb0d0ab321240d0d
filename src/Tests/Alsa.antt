-- ===== src/Tests/Alsa.antt =====
-- The identifiers and the lines that tmixer-alsa reads.
use tcos.Base.{◌≡◌, ◌≢◌, refl, arith, Bytes, codes, [], ◌∷◌}
use tcos.CText.Decimal.{is_space, skip_spaces}
use tcos.Host.{uninitialised}
use tcos.TmixerAlsa.{undefined, endless, has_prefix, to_lower}
use tcos.TmixerAlsa.ControlId.{Iface, parse_control_id, ControlInfo, show_control_id, read_iface}
use tcos.TmixerAlsa.ControlId.Fuel.{parse_control_id-ends}
use tcos.TmixerAlsa.ControlId.Written.{Written}
use tcos.TmixerAlsa.ControlId.Names.{shown_id_undefined}
use tcos.TmixerAlsa.ArgLines.{split_line, split_from, read_token, move}

parse_control_id-ends_example : parse_control_id (codes "numid=1,,x") ≢ endless
parse_control_id-ends_example = parse_control_id-ends (codes "numid=1,,x")

abbrev capture : ControlInfo
capture = record {
  numid = 9;
  iface = codes "MIXER";
  name = codes "Capture";
  index = 0;
  device = 0;
  subdevice = 0;
}

shown_id_undefined_example : parse_control_id (show_control_id capture) ≡ undefined uninitialised
unfolding read_iface has_prefix to_lower
shown_id_undefined_example =
    shown_id_undefined capture Iface.mixer (omega arith) (omega arith) (λ rest. refl)

-- "0123456789ABCDEF", four times.
abbrev sixteen : Bytes
sixteen = codes "123456789ABCDEFG"

splits_words :
    split_line (codes "sset 'Line 1',0  50\\% # off\n") 32
    ≡ codes "sset" ∷ codes "Line 1,0" ∷ codes "50%" ∷ []
unfolding split_line split_from read_token move skip_spaces is_space
splits_words = refl
