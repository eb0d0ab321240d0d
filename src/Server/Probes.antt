-- ===== src/Server/Probes.antt =====
-- What the gates of the methods (Gates) start for a caller who has neither a login nor a cookie.
use tcos.Base.{
  ℕ, ◌≡◌, ◌≢◌, refl, none, some, Option, Bytes, codes, Bool-cases, inl, inr, str_eq, str_eq_iff,
  ◌==◌, ==_iff,
}
use tcos.Host.{
  Host, Trace, Event, popen, make_temp, unlink, set_env, unset_env, open_display, M, Outcome, done,
  undefined, trace_of, Reply, ◌>>=◌, continue,
}
use tcos.Host.Emits.{Extends, same, more, Emits, emits_rules, Extends-trans}
use tcos.Address.{check_ip_address}
use tcos.Auth.{bsize, login_ok, validate_login}
use tcos.Auth.Quiet.{validate_login-Never, Never}
use tcos.Server.Xauth.{xauth_ok, xauth_command, try_display, with_temp, handle_xauth}
use tcos.Server.Exec.{read_fresh_line}
use tcos.Server.Gates.{
  after_login, require_login, after_xauth, require_xauth, my_ip_address, either_gate,
  require_cookie_or_login,
}

-- The events of a check itself: this host's address is asked for, and a cookie is tried; its text
-- stands unquoted in the command that stores it.
pub data IsProbe (h : Host) (cookie : Bytes) : Event → Type 0 where
  ask_address : IsProbe h cookie (popen (my_ip_address h))
  temp_made : (file : Bytes) → IsProbe h cookie (make_temp file)
  cookie_stored : (file host : Bytes) → IsProbe h cookie (popen (xauth_command file host cookie))
  file_named : (file : Bytes) → IsProbe h cookie (set_env (codes "XAUTHORITY") file)
  display_opened : (name : Bytes) → IsProbe h cookie (open_display name)
  temp_removed : (file : Bytes) → IsProbe h cookie (unlink file)
  name_removed : IsProbe h cookie (unset_env (codes "XAUTHORITY"))

-- A caller whose texts are neither a login nor a name with a cookie.
pub record Stranger (h : Host) (user pass : Bytes) : Type 0 where
  pub no_login : (t u : Trace) → validate_login h user pass t ≢ done login_ok u
  pub no_cookie : (t u : Trace) → handle_xauth h user pass t ≢ done xauth_ok u

-- What goes on after an action may depend on how it ended.
Emits-after :
    {A B : Type 0} {P : Event → Type 0} (m : M A) (f : A → M B)
    → Emits P m
    → ((a : A) (t u : Trace) → m t ≡ done a u → Emits P (f a))
    → Emits P (m >>= f)
Emits-after {A} {B} {P} m f hm hf = record { at = λ t. go t (m t) refl (hm.at t) }
  where
    go :
        (t : Trace) (o : Outcome A)
        → m t ≡ o
        → Extends P t (trace_of o)
        → Extends P t (trace_of (continue o f))
    go t (done a u) e x = Extends-trans x ((hf a t u e).at u)
    go t (undefined c u) e x = x

Extends-Never : {P : Event → Type 0} {t u : Trace} → Extends Never t u → Extends P t u
Extends-Never same = same
Extends-Never (more x p) = absurd p

check_ip_address-Never :
    {P : Event → Type 0} (h : Host) (text : Bytes) → Emits P (check_ip_address h text)
unfolding check_ip_address
check_ip_address-Never h text = search emits_rules

module _ (h : Host) (cookie : Bytes) where
  try_display-probes :
      (host file : Bytes) → Emits (IsProbe h cookie) (try_display h cookie host file)
  unfolding try_display
  try_display-probes host file =
      search
        (
          emits_rules, IsProbe.temp_made, IsProbe.cookie_stored, IsProbe.file_named,
          IsProbe.display_opened, IsProbe.temp_removed, IsProbe.name_removed,
        )
        depth 20

  with_temp-probes :
      (host : Bytes) (file : Option Bytes) → Emits (IsProbe h cookie) (with_temp h cookie host file)
  unfolding with_temp
  with_temp-probes host none = search (emits_rules, IsProbe.temp_removed)
  with_temp-probes host (some file) = try_display-probes host file

  handle_xauth-probes : (server : Bytes) → Emits (IsProbe h cookie) (handle_xauth h cookie server)
  unfolding handle_xauth
  handle_xauth-probes server =
      search (emits_rules, with_temp-probes, check_ip_address-Never) depth 9

-- The gates, closed.
module _ (h : Host) (user pass : Bytes) (stranger : Stranger h user pass) (body : M Reply) where
  after_xauth-closed : (code : ℕ) → code ≢ xauth_ok → Emits (IsProbe h user) (after_xauth code body)
  unfolding after_xauth
  after_xauth-closed code ne = elim (Bool-cases (code == xauth_ok)) [
    | inl same_code ↦ absurd (ne ((==_iff code xauth_ok).0 same_code))
    | inr other ↦ rw other (search emits_rules)
  ]

  pub require_xauth-closed : Emits (IsProbe h user) (require_xauth h user pass body)
  unfolding require_xauth
  require_xauth-closed = Emits-after _ _ (handle_xauth-probes h user pass) (λ code t u e.
      after_xauth-closed code (λ same_code. stranger.no_cookie t u (rw same_code at e)))

  after_login-closed : (m : Bytes) → m ≢ login_ok → Emits (IsProbe h user) (after_login m body)
  unfolding after_login
  after_login-closed m ne = elim (Bool-cases (str_eq m login_ok)) [
    | inl equal ↦ absurd (ne ((str_eq_iff m login_ok).0 equal))
    | inr other ↦ rw other (search emits_rules)
  ]

  require_login-closed : Emits (IsProbe h user) (require_login h user pass body)
  unfolding require_login
  require_login-closed =
      Emits-after _ _ (record { at = λ t. Extends-Never ((validate_login-Never h user pass).at t) })
        (λ m t u e. after_login-closed m (λ equal. stranger.no_login t u (rw equal at e)))

  read_address-probes : Emits (IsProbe h user) (read_fresh_line h bsize (my_ip_address h))
  unfolding read_fresh_line
  read_address-probes = search (emits_rules, IsProbe.ask_address)

  pub either-closed : Emits (IsProbe h user) (require_cookie_or_login h user pass body)
  unfolding require_cookie_or_login either_gate
  either-closed = search (
    emits_rules, read_address-probes, check_ip_address-Never, require_xauth-closed,
    require_login-closed,
  )
