-- ===== src/Server/Access.antt =====
-- Who may run what: the methods that need a login do nothing for a caller who has none.
use tcos.Base.{
  Option, none, some, Bytes, codes, [], ◌≡◌, ◌≢◌, refl, sym, ap, ap₂, ◌∙◌, str_eq, str_eq_iff,
  Bool-cases, inl, inr,
}
use tcos.Host.{
  Host, Trace, M, Cause, pair, Outcome, done, undefined, trace_of, continue, Request, Reply, pure,
  deref, ◌>>=◌,
}
use tcos.Auth.{login_ok, validate_login}
use tcos.Auth.Quiet.{trace-validate_login}
use tcos.Server.Gates.{with_params, after_login, require_login}
use tcos.Server.Registry.{Handler, call, answered}
use tcos.Server.Methods.Jobs.{
  tcos_exe, tcos_kill, tcos_lockscreen, tcos_unlockscreen, tcos_lockcontroller,
  tcos_unlockcontroller,
}
use tcos.Server.Methods.Media.{tcos_vnc, tcos_rtp, tcos_vlc, tcos_tnc, tcos_dpms}
use tcos.Server.Methods.Settings.{tcos_xorg}
use tcos.Server.Methods.Queries.{tcos_dbus}
use tcos.Server.Methods.Pads.{screenshot_for, tcos_get_screenshot}

-- The methods that are documented to need a login first.
pub data LoginMethod : Type 0 where
  exe kill lockscreen unlockscreen lockcontroller unlockcontroller : LoginMethod
  vnc rtp vlc tnc dpms xorg dbus getscreenshot : LoginMethod

pub method_name : LoginMethod → Bytes
method_name exe = codes "tcos.exe"
method_name kill = codes "tcos.kill"
method_name lockscreen = codes "tcos.lockscreen"
method_name unlockscreen = codes "tcos.unlockscreen"
method_name lockcontroller = codes "tcos.lockcontroller"
method_name unlockcontroller = codes "tcos.unlockcontroller"
method_name vnc = codes "tcos.vnc"
method_name rtp = codes "tcos.rtp"
method_name vlc = codes "tcos.vlc"
method_name tnc = codes "tcos.tnc"
method_name dpms = codes "tcos.dpms"
method_name xorg = codes "tcos.xorg"
method_name dbus = codes "tcos.dbus"
method_name getscreenshot = codes "tcos.getscreenshot"

-- The caller's name and password, the last two parameters of each.
abbrev of_three : Option (Bytes × Bytes × Bytes) → Option (Bytes × Bytes)
of_three none = none
of_three (some (a, u, p)) = some (u, p)

abbrev of_four : Option (Bytes × Bytes × Bytes × Bytes) → Option (Bytes × Bytes)
of_four none = none
of_four (some (a, b, u, p)) = some (u, p)

abbrev of_six : Option (Bytes × Bytes × Bytes × Bytes × Bytes × Bytes) → Option (Bytes × Bytes)
of_six none = none
of_six (some (a, b, c, d, u, p)) = some (u, p)

unfoldable pub credentials : LoginMethod → Request → Option (Bytes × Bytes)
credentials lockscreen req = req.two
credentials unlockscreen req = req.two
credentials vnc req = of_four req.four
credentials rtp req = of_four req.four
credentials vlc req = of_four req.four
credentials xorg req = of_four req.four
credentials tnc req = of_six req.six
credentials _ req = of_three req.three

-- No credentials, or credentials that validate_login does not answer "ok".
abbrev pub Refused : Host → Trace → Option (Bytes × Bytes) → Type 0
Refused h t none = Unit
Refused h t (some (user, pass)) = validate_login h user pass t ≢ done login_ok t

after_refusal :
    (h : Host) (user pass : Bytes) (body : Bytes → M Reply) (t : Trace)
    → validate_login h user pass t ≢ done login_ok t
    → ((m : Bytes) (u : Trace) → m ≢ login_ok → trace_of (body m u) ≡ u)
    → trace_of ((validate_login h user pass >>= body) t) ≡ t
after_refusal h user pass body t refused quiet = go (validate_login h user pass t) refl
  where
    go : (o : Outcome Bytes) → validate_login h user pass t ≡ o → trace_of (continue o body) ≡ t
    go (done m u) e =
        let still : u ≡ t = sym (ap trace_of e) ∙ trace-validate_login h user pass t in
        quiet m u (λ same. refused (e ∙ ap₂ done same still)) ∙ still
    go (undefined c u) e = sym (ap trace_of e) ∙ trace-validate_login h user pass t

after_login-quiet :
    (m : Bytes) (body : M Reply) (u : Trace) → m ≢ login_ok → trace_of (after_login m body u) ≡ u
unfolding after_login pure
after_login-quiet m body u ne = elim (Bool-cases (str_eq m login_ok)) [
  | inl same ↦ absurd (ne ((str_eq_iff m login_ok).0 same))
  | inr other ↦ rw other
]

require_login-quiet :
    (h : Host) (user pass : Bytes) (body : M Reply) (t : Trace)
    → validate_login h user pass t ≢ done login_ok t
    → trace_of (require_login h user pass body t) ≡ t
unfolding require_login
require_login-quiet h user pass body t refused =
    after_refusal h user pass (λ m. after_login m body) t refused
      (λ m u ne. after_login-quiet m body u ne)

module _ (h : Host) (t : Trace) (message : Bytes) where
  quiet_two :
      (o : Option (Bytes × Bytes)) (body : Bytes → Bytes → M Reply)
      → Refused h t o
      → trace_of (with_params o message (λ (u, p). require_login h u p (body u p)) t) ≡ t
  unfolding with_params pure
  quiet_two none body r = refl
  quiet_two (some (u, p)) body r = require_login-quiet h u p (body u p) t r

  quiet_three :
      (o : Option (Bytes × Bytes × Bytes)) (body : Bytes → Bytes → Bytes → M Reply)
      → Refused h t (of_three o)
      → trace_of (with_params o message (λ (a, u, p). require_login h u p (body a u p)) t) ≡ t
  unfolding with_params pure
  quiet_three none body r = refl
  quiet_three (some (a, u, p)) body r = require_login-quiet h u p (body a u p) t r

  quiet_four :
      (o : Option (Bytes × Bytes × Bytes × Bytes)) (body : Bytes → Bytes → Bytes → Bytes → M Reply)
      → Refused h t (of_four o)
      → trace_of (with_params o message (λ (a, b, u, p). require_login h u p (body a b u p)) t) ≡ t
  unfolding with_params pure
  quiet_four none body r = refl
  quiet_four (some (a, b, u, p)) body r = require_login-quiet h u p (body a b u p) t r

  quiet_six :
      (o : Option (Bytes × Bytes × Bytes × Bytes × Bytes × Bytes))
      (body : Bytes → Bytes → Bytes → Bytes → Bytes → Bytes → M Reply)
      → Refused h t (of_six o)
      → trace_of
          (with_params o message (λ (a, b, c, d, u, p). require_login h u p (body a b c d u p)) t)
        ≡ t
  unfolding with_params pure
  quiet_six none body r = refl
  quiet_six (some (a, b, c, d, u, p)) body r = require_login-quiet h u p (body a b c d u p) t r

dbus-quiet :
    (h : Host) (o : Option (Bytes × Bytes × Bytes)) (c : Cause) (t : Trace)
    (body : Bytes → Bytes → Bytes → M Reply)
    → Refused h t (of_three o)
    → trace_of ((deref c o >>= λ (a, u, p). require_login h u p (body a u p)) t) ≡ t
unfolding deref
dbus-quiet h none c t body r = refl
dbus-quiet h (some (a, u, p)) c t body r = require_login-quiet h u p (body a u p) t r

screenshot-quiet :
    (h : Host) (size m : Bytes) (u : Trace)
    → m ≢ login_ok
    → trace_of (screenshot_for h size m u) ≡ u
unfolding screenshot_for pure
screenshot-quiet h size m u ne = elim (Bool-cases (str_eq m login_ok)) [
  | inl same ↦ absurd (ne ((str_eq_iff m login_ok).0 same))
  | inr other ↦ rw other
]

getscreenshot-quiet :
    (h : Host) (req : Request) (t : Trace)
    → Refused h t (of_three req.three)
    → trace_of (tcos_get_screenshot h req t) ≡ t
unfolding tcos_get_screenshot pure
getscreenshot-quiet h req t = go req.three
  where
    go :
        (o : Option (Bytes × Bytes × Bytes))
        → Refused h t (of_three o)
        → trace_of (
            (elim o as (λ _. M Reply) [
              | none ↦ pure (pair (codes "error: params error") [])
              | some (size, user, pass) ↦ validate_login h user pass >>= screenshot_for h size
            ])
              t)
          ≡ t
    go none r = refl
    go (some (size, user, pass)) r =
        after_refusal h user pass (screenshot_for h size) t r
          (λ m u ne. screenshot-quiet h size m u ne)

pub trace-answered : (o : Outcome Reply) → trace_of (answered o) ≡ trace_of o
trace-answered (done r u) = refl
trace-answered (undefined c u) = refl

-- The function that serves each of them.
handler : LoginMethod → Handler
handler exe = tcos_exe
handler kill = tcos_kill
handler lockscreen = tcos_lockscreen
handler unlockscreen = tcos_unlockscreen
handler lockcontroller = tcos_lockcontroller
handler unlockcontroller = tcos_unlockcontroller
handler vnc = tcos_vnc
handler rtp = tcos_rtp
handler vlc = tcos_vlc
handler tnc = tcos_tnc
handler dpms = tcos_dpms
handler xorg = tcos_xorg
handler dbus = tcos_dbus
handler getscreenshot = tcos_get_screenshot

call-handler :
    (h : Host) (m : LoginMethod) (req : Request) (t : Trace)
    → call h (method_name m) req t ≡ answered (handler m h req t)
unfolding call method_name handler
call-handler h exe req t = refl
call-handler h kill req t = refl
call-handler h lockscreen req t = refl
call-handler h unlockscreen req t = refl
call-handler h lockcontroller req t = refl
call-handler h unlockcontroller req t = refl
call-handler h vnc req t = refl
call-handler h rtp req t = refl
call-handler h vlc req t = refl
call-handler h tnc req t = refl
call-handler h dpms req t = refl
call-handler h xorg req t = refl
call-handler h dbus req t = refl
call-handler h getscreenshot req t = refl

handler-quiet :
    (h : Host) (m : LoginMethod) (req : Request) (t : Trace)
    → Refused h t (credentials m req)
    → trace_of (handler m h req t) ≡ t
unfolding handler credentials tcos_exe tcos_kill tcos_lockscreen tcos_unlockscreen
    tcos_lockcontroller tcos_unlockcontroller tcos_vnc tcos_rtp tcos_vlc tcos_tnc tcos_dpms
    tcos_xorg tcos_dbus
handler-quiet h exe req t r = quiet_three h t _ req.three _ r
handler-quiet h kill req t r = quiet_three h t _ req.three _ r
handler-quiet h lockscreen req t r = quiet_two h t _ req.two _ r
handler-quiet h unlockscreen req t r = quiet_two h t _ req.two _ r
handler-quiet h lockcontroller req t r = quiet_three h t _ req.three _ r
handler-quiet h unlockcontroller req t r = quiet_three h t _ req.three _ r
handler-quiet h vnc req t r = quiet_four h t _ req.four _ r
handler-quiet h rtp req t r = quiet_four h t _ req.four _ r
handler-quiet h vlc req t r = quiet_four h t _ req.four _ r
handler-quiet h tnc req t r = quiet_six h t _ req.six _ r
handler-quiet h dpms req t r = quiet_three h t _ req.three _ r
handler-quiet h xorg req t r = quiet_four h t _ req.four _ r
handler-quiet h dbus req t r = dbus-quiet h req.three _ t _ r
handler-quiet h getscreenshot req t r = getscreenshot-quiet h req t r

-- A method that needs a login changes nothing for a caller whose credentials are refused: no
-- command runs and no file is written, whatever the other parameters are.
pub login_required :
    (h : Host) (m : LoginMethod) (req : Request) (t : Trace)
    → Refused h t (credentials m req)
    → trace_of (call h (method_name m) req t) ≡ t
login_required h m req t r =
    rw (call-handler h m req t) (trace-answered (handler m h req t) ∙ handler-quiet h m req t r)
