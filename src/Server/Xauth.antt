-- ===== src/Server/Xauth.antt =====
-- `handle_xauth` and `tcos_xauth` of xmlrpc/xauth.c: a caller proves a cookie of the X server.
use tcos.Base.{ℕ, ◌&&◌, not, Option, none, some, Bytes, codes, ◌++◌, ◌==◌, str_eq, if◌then◌else◌}
use tcos.CText.{snprintf}
use tcos.Host.{
  Host, M, make_temp, unlink, set_env, unset_env, open_display, null_pointer, Request, Reply,
  string, pure, ask, emit, run, deref, ◌>>=◌, ◌>>◌,
}
use tcos.Address.{IpAddress, check_ip_address}
use tcos.Auth.{bsize}

abbrev pub xauth_ok : ℕ
xauth_ok = 0

abbrev pub xauth_error : ℕ
xauth_error = 1

abbrev pub xauth_bad_hostname : ℕ
xauth_bad_hostname = 4

abbrev pub xauth_bad_fdtemp : ℕ
xauth_bad_fdtemp = 5

abbrev pub xauth_template : Bytes
xauth_template = codes "/tmp/.tmpxauthXXXXXX"

unfoldable pub xauth_command : Bytes → Bytes → Bytes → Bytes
unfolding snprintf
xauth_command file host cookie = snprintf bsize (
    codes "xauth -q -f "
    ++ (file
        ++ (codes " add "
            ++ (host ++ (codes ":0 MIT-MAGIC-COOKIE-1 " ++ (cookie ++ codes " >/dev/null 2>&1"))))))

-- With a temporary file: store the cookie in it, and see whether the display opens.
unfoldable pub try_display : Host → Bytes → Bytes → Bytes → M ℕ
unfolding xauth_command
try_display h cookie host file = do
  emit (make_temp file)
  fp ← run h (xauth_command file host cookie)
  deref null_pointer fp
  emit (set_env (codes "XAUTHORITY") file)
  found ← ask (λ t. h.display_opens t (snprintf bsize (host ++ codes ":0")))
  emit (open_display (snprintf bsize (host ++ codes ":0")))
  emit (unlink file)
  emit (unset_env (codes "XAUTHORITY"))
  if found then pure xauth_ok else pure xauth_error

unfoldable pub with_temp : Host → Bytes → Bytes → Option Bytes → M ℕ
unfolding try_display
with_temp h cookie host none = do emit (unlink xauth_template); pure xauth_bad_fdtemp
with_temp h cookie host (some file) = try_display h cookie host file

-- The name that the display is looked for at.
unfoldable pub display_host : Host → IpAddress → Bytes
unfolding snprintf
display_host h ip = if ip.is_ip then snprintf bsize ip.ipstr else h.hostname

unfoldable pub handle_xauth : Host → Bytes → Bytes → M ℕ
unfolding with_temp display_host
handle_xauth h cookie servername = do
  ip ← check_ip_address h servername
  file ← ask h.temp_file
  if not ip.is_ip && not (str_eq servername h.hostname)
      then pure xauth_bad_hostname
      else with_temp h cookie (display_host h ip) file

abbrev pub params_error : Bytes
params_error = codes "params error"

unfoldable pub answer_xauth : ℕ → M Reply
answer_xauth code =
    if code == xauth_ok
    then pure (string (codes "xauth: access OK"))
    else pure (string (codes "xauth: error access denied"))

unfoldable pub tcos_xauth : Host → Request → M Reply
unfolding handle_xauth answer_xauth
tcos_xauth h req = elim req.two [
  | none ↦ pure (string params_error)
  | some (cookie, hostname) ↦ handle_xauth h cookie hostname >>= answer_xauth
]
