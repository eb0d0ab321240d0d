-- ===== src/Server/Gates.antt =====
-- The tests that stand in front of a method: the parameters, the login, and for some methods a
-- cookie of the X server in place of the login.
use tcos.Base.{ℕ, ◌||◌, Option, none, some, Bytes, codes, ◌++◌, ◌==◌, str_eq, if◌then◌else◌}
use tcos.Host.{Host, M, Reply, string, pure, ◌>>=◌}
use tcos.Address.{IpAddress, check_ip_address}
use tcos.Auth.{bsize, login_ok, validate_login}
use tcos.Server.Xauth.{handle_xauth, xauth_ok}
use tcos.Server.Exec.{read_fresh_line}

-- xmlrpc_parse_value, and the answer if env->fault_occurred.
unfoldable pub with_params : {A : Type 0} → Option A → Bytes → (A → M Reply) → M Reply
with_params none message body = pure (string message)
with_params (some a) message body = body a

unfoldable pub after_login : Bytes → M Reply → M Reply
after_login m body = if str_eq m login_ok then body else pure (string m)

-- login_ok=validate_login(user,pass); if (strcmp(login_ok, LOGIN_OK) != 0) return login_ok
unfoldable pub require_login : Host → Bytes → Bytes → M Reply → M Reply
unfolding after_login
require_login h user pass body = validate_login h user pass >>= λ m. after_login m body

unfoldable pub after_xauth : ℕ → M Reply → M Reply
after_xauth code body =
    if code == xauth_ok then body else pure (string (codes "error: xauth access denied"))

unfoldable pub require_xauth : Host → Bytes → Bytes → M Reply → M Reply
unfolding after_xauth
require_xauth h cookie hostname body =
    handle_xauth h cookie hostname >>= λ code. after_xauth code body

-- MY_IP_ADDRESS of common.h.
unfoldable pub my_ip_address : Host → Bytes
my_ip_address h = h.tcos_path ++ codes "/getinfo.sh -i NETWORK_IP"

unfoldable pub either_gate : Host → Bytes → Bytes → IpAddress → M Reply → M Reply
either_gate h user pass ip body =
    if str_eq pass h.hostname || str_eq pass ip.ipstr
    then require_xauth h user pass body
    else require_login h user pass body

-- A password that is this host's name or address stands for a cookie in the place of the user.
unfoldable pub require_cookie_or_login : Host → Bytes → Bytes → M Reply → M Reply
unfolding either_gate require_xauth require_login my_ip_address
require_cookie_or_login h user pass body = do
  ip_string ← read_fresh_line h bsize (my_ip_address h)
  ip ← check_ip_address h ip_string
  either_gate h user pass ip body
