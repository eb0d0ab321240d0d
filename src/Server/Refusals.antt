-- ===== src/Server/Refusals.antt =====
-- What the gates of the methods (Gates) answer to a caller who has neither a login nor a cookie.
use tcos.Base.{
  ◌≡◌, ◌≢◌, refl, Bytes, codes, Bool-cases, inl, inr, str_eq, str_eq_iff, ◌||◌, ◌==◌, ==_iff,
  Option, some,
}
use tcos.Host.{Host, Trace, M, Outcome, done, undefined, continue, Reply, string, pure}
use tcos.Address.{IpAddress, check_ip_address}
use tcos.Auth.{bsize, login_ok, validate_login}
use tcos.Server.Xauth.{xauth_ok, handle_xauth}
use tcos.Server.Exec.{read_fresh_line}
use tcos.Server.Gates.{
  after_login, require_login, after_xauth, require_xauth, my_ip_address, either_gate,
  require_cookie_or_login,
}
use tcos.Server.Registry.{answered}

-- What an action returns, if it does, satisfies a predicate.
abbrev pub Returns : {A : Type 0} → (A → Type 0) → Outcome A → Type 0
Returns P (done a u) = P a
Returns P (undefined c u) = Unit

Returns-continue :
    {A B : Type 0} (P : B → Type 0) (o : Outcome A) (f : A → M B)
    → ((a : A) (u : Trace) → o ≡ done a u → Returns P (f a u))
    → Returns P (continue o f)
Returns-continue P (done a u) f h = h a u refl
Returns-continue P (undefined c u) f h = tt

-- The answers to a caller without a cookie, or without a login.
pub data IsRefusal (h : Host) (user pass : Bytes) : Reply → Type 0 where
  no_cookie : IsRefusal h user pass (string (codes "error: xauth access denied"))
  no_login :
      (m : Bytes) (t u : Trace)
      → validate_login h user pass t ≡ done m u
      → m ≢ login_ok
      → IsRefusal h user pass (string m)

-- The same for a call by name.
pub data IsRefused (h : Host) (user pass : Bytes) : Option Reply → Type 0 where
  refused : {r : Reply} → IsRefusal h user pass r → IsRefused h user pass (some r)

module _ (h : Host) (user pass : Bytes)
    (login_fails : (t u : Trace) → validate_login h user pass t ≢ done login_ok u)
    (cookie_fails : (t u : Trace) → handle_xauth h user pass t ≢ done xauth_ok u)
    (body : M Reply) where
  pub require_xauth-refuses :
      (t : Trace) → Returns (IsRefusal h user pass) (require_xauth h user pass body t)
  unfolding require_xauth after_xauth pure
  require_xauth-refuses t =
      Returns-continue (IsRefusal h user pass) (handle_xauth h user pass t) _ (λ code u e.
        elim (Bool-cases (code == xauth_ok)) [
          | inl granted ↦ absurd (cookie_fails t u (rw ((==_iff code xauth_ok).0 granted) at e))
          | inr denied ↦ rw denied no_cookie
        ])

  require_login-refuses :
      (t : Trace) → Returns (IsRefusal h user pass) (require_login h user pass body t)
  unfolding require_login after_login pure
  require_login-refuses t =
      Returns-continue (IsRefusal h user pass) (validate_login h user pass t) _ (λ m u e.
        elim (Bool-cases (str_eq m login_ok)) [
          | inl granted ↦ absurd (login_fails t u (rw ((str_eq_iff m login_ok).0 granted) at e))
          | inr denied ↦ rw denied (no_login m t u e (λ same. login_fails t u (rw same at e)))
        ])

  either_gate-refuses :
      (ip : IpAddress) (t : Trace)
      → Returns (IsRefusal h user pass) (either_gate h user pass ip body t)
  unfolding either_gate
  either_gate-refuses ip t = elim (Bool-cases (str_eq pass h.hostname || str_eq pass ip.ipstr)) [
    | inl cookie ↦ rw cookie (require_xauth-refuses t)
    | inr login ↦ rw login (require_login-refuses t)
  ]

  pub require_cookie_or_login-refuses :
      (t : Trace) → Returns (IsRefusal h user pass) (require_cookie_or_login h user pass body t)
  unfolding require_cookie_or_login
  require_cookie_or_login-refuses t =
      Returns-continue (IsRefusal h user pass) (read_fresh_line h bsize (my_ip_address h) t) _
        (λ text u e.
          Returns-continue (IsRefusal h user pass) (check_ip_address h text u) _
            (λ ip v e'. either_gate-refuses ip v))

pub answered-refuses :
    (h : Host) (user pass : Bytes) (o : Outcome Reply)
    → Returns (IsRefusal h user pass) o
    → Returns (IsRefused h user pass) (answered o)
answered-refuses h user pass (done r u) x = refused x
answered-refuses h user pass (undefined c u) x = tt
