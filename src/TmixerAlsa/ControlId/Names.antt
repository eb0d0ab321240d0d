-- ===== src/TmixerAlsa/ControlId/Names.antt =====
-- Names that parse_control_id of tmixer/tmixer-alsa.c cannot read.
use tcos.Base.{
  ℕ, ◌≤◌, ◌<◌, ◌≡◌, ◌≢◌, refl, arith, false, ◌||◌, ◌==◌, ltb, Bytes, codes, ◌∷◌, ◌++◌, length, All,
}
use tcos.CText.Decimal.{int_limit}
use tcos.Host.{uninitialised, buffer_overflow}
use tcos.TmixerAlsa.{undefined, has_prefix, to_lower, skip_blanks}
use tcos.TmixerAlsa.Scans.{break_at-missing}
use tcos.TmixerAlsa.ControlId.{
  Iface, Setting, took, read_iface, put_name, read_name, read_setting, next_text, read_settings,
  parse_from, parse_control_id, buf_size, ControlInfo, show_control_id,
}
use tcos.TmixerAlsa.ControlId.Written.{Tail, read_numid-took}

-- What the program shows as the identifier of a control, it cannot read: a name in quotes gets no
-- NUL in the buffer. The interface's name is one that the parser knows.
pub shown_id_undefined :
    (id : ControlInfo) (i : Iface)
    → 0 < id.numid
    → id.numid < int_limit
    → ((rest : Bytes)
        → read_iface (id.iface ++ (b',' ∷ rest)) ≡ took (Setting.set_interface i) (b',' ∷ rest))
    → parse_control_id (show_control_id id) ≡ undefined uninitialised
unfolding parse_control_id show_control_id skip_blanks parse_from read_settings read_setting
    has_prefix to_lower next_text read_name
shown_id_undefined id i above lt known =
    rw (read_numid-took id.numid (b',' ∷ _) above lt (Tail.comma _), known _) refl

-- A bare name of 64 bytes or more leaves no room in the buffer for its NUL, which is written behind
-- it. The name has no comma and does not start with a quote.
pub long_name_overflows :
    (c : ℕ) (s : Bytes)
    → (c == b'\'' || c == b'"') ≡ false
    → All (λ d. d ≢ b',') (c ∷ s)
    → buf_size ≤ length (c ∷ s)
    → parse_control_id (codes "name=" ++ (c ∷ s)) ≡ undefined buffer_overflow
unfolding parse_control_id skip_blanks parse_from read_settings read_setting has_prefix to_lower
    read_name put_name
long_name_overflows c s bare plain long =
    let too_long : ltb (length (c ∷ s)) buf_size ≡ false = ground arith in
    rw (bare, break_at-missing b',' (c ∷ s) plain, too_long) refl
