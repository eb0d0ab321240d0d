-- ===== src/Tests/Logins.antt =====
-- Logins, and the methods behind them.
use tcos.Base.{codes, [], ◌≡◌, ◌↔◌, refl, arith, str_eq, some}
use tcos.Host.{Shadow, done, trace_of, pure, ask, deref}
use tcos.Auth.{
  login_ok, login_nopass, validate_login, validate_shadow, validate_tcos, pass_id, is_inactive,
  is_expired,
}
use tcos.Auth.Decisions.{ShadowAccepts, shadow_decides, Proves, CryptFills, login_sound}
use tcos.Auth.PasswordFile.{tcospasswd_decides}
use tcos.Server.Registry.{call}
use tcos.Server.Access.{exe, method_name, Refused, credentials, login_required}
use tcos.Tests.Fixtures.{machine, kiosk, request}

root_accepted : validate_login machine (codes "root") (codes "secret") [] ≡ done login_ok []
unfolding validate_login validate_shadow is_inactive is_expired pure ask deref str_eq
root_accepted = refl

shadow_decides_example :
    (validate_shadow machine (codes "root") (codes "secret") [] ≡ done login_ok [])
    ↔ ((e : Shadow) × ShadowAccepts machine [] (codes "root") (codes "secret") e)
shadow_decides_example = shadow_decides machine (codes "root") (codes "secret") []

machine-CryptFills : CryptFills machine
machine-CryptFills key salt h = ground arith

login_sound_example : Proves machine [] (codes "root") (codes "secret")
login_sound_example =
    login_sound machine (codes "root") (codes "secret") [] machine-CryptFills root_accepted

guess_refused : validate_login machine (codes "root") (codes "guess") [] ≡ done login_nopass []
unfolding validate_login validate_shadow pure ask deref str_eq
guess_refused = refl

guess_Refused :
    Refused machine [] (credentials exe (request (codes "xterm") (codes "root") (codes "guess")))
unfolding credentials
guess_Refused accepted = cc (guess_refused, accepted)

login_required_example :
    trace_of
      (call machine (method_name exe) (request (codes "xterm") (codes "root") (codes "guess")) [])
    ≡ []
login_required_example =
    login_required machine exe (request (codes "xterm") (codes "root") (codes "guess")) []
      guess_Refused

tcospasswd_decides_example :
    (validate_tcos kiosk (codes "guest") (codes "secret") [] ≡ done login_ok []) ↔ (
      (codes "guest" ≡ codes "guest")
      × (kiosk.crypt (codes "secret") pass_id ≡ some (codes "hash")))
tcospasswd_decides_example =
    tcospasswd_decides (codes "guest") (codes "hash") (codes "root:other\n") (ground arith)
      (ground arith) kiosk [] (codes "guest") (codes "secret") (λ p. cc p) (omega arith) refl
