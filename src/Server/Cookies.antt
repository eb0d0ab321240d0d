-- ===== src/Server/Cookies.antt =====
-- What `handle_xauth` (xmlrpc/xauth.c) does on each of its ways, and what it grants.
use tcos.Base.{
  ℕ, ℤ, true, false, ◌≡◌, ◌≢◌, inl, inr, none, some, Bytes, codes, ◌∷◌, ◌++◌, Bool-cases,
  Option-cases, not, str_eq, str_eq_iff, sym, ◌∙◌, ◌&&◌, if◌then◌else◌,
}
use tcos.CText.{snprintf}
use tcos.Host.{
  Host, Trace, popen, make_temp, unlink, set_env, unset_env, open_display, done, pure, ask, emit,
  run, deref,
}
use tcos.Address.{scan_ints, describe, IpAddress, check_ip_address, print_ip}
use tcos.Address.Canonical.{only_canonical, accepts_canonical}
use tcos.CText.Decimal.RoundTrip.{IsInt}
use tcos.Auth.{bsize}
use tcos.Server.Xauth.{
  xauth_ok, xauth_error, xauth_bad_hostname, xauth_bad_fdtemp, xauth_template, xauth_command,
  try_display, with_temp, display_host, handle_xauth,
}

-- The names that a caller may give: an address, which is looked for as it stands, or this host's.
pub data Named (h : Host) (server : Bytes) : Bytes → Type 0 where
  by_address : (a b c d : ℤ) → server ≡ print_ip a b c d → Named h server (snprintf bsize server)
  by_name : server ≡ h.hostname → Named h server h.hostname

-- The events up to the look at the display: the cookie is stored in a temporary file.
abbrev pub stored : Bytes → Bytes → Bytes → Trace → Trace
stored file host cookie t =
    set_env (codes "XAUTHORITY") file ∷ popen (xauth_command file host cookie) ∷ make_temp file ∷ t

-- And with the file and the variable taken away again.
abbrev pub cleaned : Bytes → Bytes → Bytes → Trace → Trace
cleaned file host cookie t =
    unset_env (codes "XAUTHORITY")
    ∷ unlink file
    ∷ open_display (snprintf bsize (host ++ codes ":0"))
    ∷ stored file host cookie t

abbrev pub NoAddress : Bytes → Type 0
NoAddress server = (a b c d : ℤ) → IsInt a → IsInt b → IsInt c → IsInt d → server ≢ print_ip a b c d

-- A check of a cookie from `t`, with its result and the events at its end.
pub data CookieCheck (h : Host) (cookie server : Bytes) (t : Trace) : ℕ → Trace → Type 0 where
  bad_hostname :
      server ≢ h.hostname → NoAddress server → CookieCheck h cookie server t xauth_bad_hostname t
  no_file :
      h.temp_file t ≡ none
      → CookieCheck h cookie server t xauth_bad_fdtemp (unlink xauth_template ∷ t)
  opened :
      (file host : Bytes)
      → h.temp_file t ≡ some file
      → Named h server host
      → h.display_opens (stored file host cookie t) (snprintf bsize (host ++ codes ":0")) ≡ true
      → CookieCheck h cookie server t xauth_ok (cleaned file host cookie t)
  not_opened :
      (file host : Bytes)
      → h.temp_file t ≡ some file
      → Named h server host
      → h.display_opens (stored file host cookie t) (snprintf bsize (host ++ codes ":0")) ≡ false
      → CookieCheck h cookie server t xauth_error (cleaned file host cookie t)

check_at :
    (h : Host) (cookie server : Bytes) (t v : Trace) (n code : ℕ) (u : Trace)
    → done n v ≡ done code u
    → CookieCheck h cookie server t n v
    → CookieCheck h cookie server t code u
check_at h cookie server t v n code u k c =
    let e : n ≡ code = cc k in let f : v ≡ u = cc k in rw (← e, ← f) c

module _ (h : Host) (cookie server : Bytes) (t : Trace) (code : ℕ) (u : Trace) where
  try_display-check :
      (file host : Bytes)
      → h.temp_file t ≡ some file
      → Named h server host
      → try_display h cookie host file t ≡ done code u
      → CookieCheck h cookie server t code u
  unfolding try_display pure ask emit run deref
  try_display-check file host temp named k =
      elim (Option-cases (h.popen_output (make_temp file ∷ t) (xauth_command file host cookie))) [
        | inl n ↦ cc (rw n at k)
        | inr (out, s) ↦
            elim (Bool-cases
              (h.display_opens (stored file host cookie t) (snprintf bsize (host ++ codes ":0")))) [
                | inl can ↦
                    check_at h cookie server t _ _ code u (rw can at (rw s at k))
                      (opened file host temp named can)
                | inr not_so ↦
                    check_at h cookie server t _ _ code u (rw not_so at (rw s at k))
                      (not_opened file host temp named not_so)
              ]
      ]

  with_temp-check :
      (host : Bytes)
      → Named h server host
      → with_temp h cookie host (h.temp_file t) t ≡ done code u
      → CookieCheck h cookie server t code u
  unfolding with_temp pure emit
  with_temp-check host named k = elim (Option-cases (h.temp_file t)) [
    | inl n ↦ check_at h cookie server t _ _ code u (rw n at k) (no_file n)
    | inr (file, s) ↦ try_display-check file host s named (rw s at k)
  ]

  no_address :
      (ip : IpAddress)
      → check_ip_address h server t ≡ done ip t
      → ip.is_ip ≡ false
      → NoAddress server
  no_address ip e not_so a b c d ha hb hc hd q =
      let canonical = accepts_canonical h a b c d t ha hb hc hd in
      let same = sym canonical ∙ rw q at e in
      let flag : true ≡ ip.is_ip = cc same in cc (flag, not_so)

  -- The check of the address, opened.
  checked :
      (ip : IpAddress)
      → check_ip_address h server t ≡ done ip t
      → (if not ip.is_ip && not (str_eq server h.hostname)
            then pure xauth_bad_hostname
            else with_temp h cookie (display_host h ip) (h.temp_file t))
          t
        ≡ done code u
      → CookieCheck h cookie server t code u
  unfolding display_host pure
  checked ip e k = elim (Bool-cases ip.is_ip) [
    | inl can ↦
        let (a, b, c, d, ints, text, read, kept) = only_canonical h server t t e can in
        with_temp-check (snprintf bsize server) (by_address a b c d text) (rw kept at (rw can at k))
    | inr not_so ↦ elim (Bool-cases (str_eq server h.hostname)) [
      | inl own ↦
          with_temp-check h.hostname (by_name ((str_eq_iff server h.hostname).0 own))
            (rw own at (rw not_so at k))
      | inr other ↦ check_at h cookie server t _ _ code u (rw other at (rw not_so at k)) (
          bad_hostname (λ p. cc (other, (str_eq_iff server h.hostname).1 p))
            (no_address ip e not_so))
    ]
  ]

  -- Every check of a cookie that ends is one of four: the name is neither an address nor this
  -- host's; there is no temporary file; or the cookie is stored in one, the display is opened with
  -- it or not, and in both cases the file is removed and XAUTHORITY is unset.
  pub handle_xauth-checks :
      handle_xauth h cookie server t ≡ done code u → CookieCheck h cookie server t code u
  unfolding handle_xauth ask check_ip_address deref pure
  handle_xauth-checks k = elim (Option-cases (scan_ints 4 server)) [
    | inl n ↦ cc (rw n at k)
    | inr (vs, s) ↦ checked (describe h server vs) (rw s) (rw s at k)
  ]
