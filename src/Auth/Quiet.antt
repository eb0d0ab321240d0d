-- ===== src/Auth/Quiet.antt =====
-- The account checks read and change nothing.
use tcos.Base.{Bytes, Option, none, some, List, [], ◌∷◌, ◌≡◌, refl}
use tcos.Host.{Host, Event, Trace, Shadow, trace_of}
use tcos.Host.Emits.{Extends, same, more, Emits, emits_rules}
use tcos.Auth.{
  compare_tcos, check_tokens, read_tcos, validate_tcos, check_shadow, validate_shadow,
  validate_passwd, validate_login,
}

abbrev pub Never : Event → Type 0
Never e = ⊥

pub Never-same : {t u : Trace} → Extends Never t u → u ≡ t
Never-same same = refl
Never-same (more h p) = absurd p

compare_tcos-Never :
    (h : Host) (user pass u : Bytes) (saved : Option Bytes)
    → Emits Never (compare_tcos h user pass u saved)
unfolding compare_tcos
compare_tcos-Never h user pass u saved = search emits_rules

check_tokens-Never :
    (h : Host) (user pass : Bytes) (tokens : List Bytes)
    → Emits Never (check_tokens h user pass tokens)
unfolding check_tokens
check_tokens-Never h user pass [] = search emits_rules
check_tokens-Never h user pass (u ∷ []) = compare_tcos-Never h user pass u none
check_tokens-Never h user pass (u ∷ p ∷ rest) = compare_tcos-Never h user pass u (some _)

read_tcos-Never :
    (h : Host) (user pass : Bytes) (file : Option Bytes) → Emits Never (read_tcos h user pass file)
unfolding read_tcos
read_tcos-Never h user pass none = search emits_rules
read_tcos-Never h user pass (some contents) = search (emits_rules, check_tokens-Never)

validate_tcos-Never : (h : Host) (user pass : Bytes) → Emits Never (validate_tcos h user pass)
unfolding validate_tcos
validate_tcos-Never h user pass = search (emits_rules, read_tcos-Never)

check_shadow-Never :
    (h : Host) (pw : Bytes) (ret : Option Shadow) → Emits Never (check_shadow h pw ret)
unfolding check_shadow
check_shadow-Never h pw none = search emits_rules
check_shadow-Never h pw (some e) = search emits_rules depth 9

validate_shadow-Never : (h : Host) (user pw : Bytes) → Emits Never (validate_shadow h user pw)
unfolding validate_shadow
validate_shadow-Never h user pw = search (emits_rules, check_shadow-Never)

validate_passwd-Never : (h : Host) (user pass : Bytes) → Emits Never (validate_passwd h user pass)
unfolding validate_passwd
validate_passwd-Never h user pass = search emits_rules

pub validate_login-Never : (h : Host) (user pw : Bytes) → Emits Never (validate_login h user pw)
unfolding validate_login
validate_login-Never h user pw =
    search (emits_rules, validate_tcos-Never, validate_shadow-Never, validate_passwd-Never) depth 9

-- A login changes nothing on the machine, whatever comes of it.
pub trace-validate_login :
    (h : Host) (user pw : Bytes) (t : Trace) → trace_of (validate_login h user pw t) ≡ t
trace-validate_login h user pw t = Never-same ((validate_login-Never h user pw).at t)
