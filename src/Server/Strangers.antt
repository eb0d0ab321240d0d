-- ===== src/Server/Strangers.antt =====
-- The methods that take a cookie of the X server, or a login: what they do for a caller who has
-- neither.
use tcos.Base.{false, ◌≡◌, refl, some, Bytes, codes, Bool, str_eq, str_prefix}
use tcos.Host.{Host, Trace, Event, Outcome, done, undefined, trace_of, Request, Reply}
use tcos.Host.Emits.{Extends, Emits}
use tcos.Server.Gates.{with_params}
use tcos.Server.Methods.Jobs.{tcos_reboot_poweroff}
use tcos.Server.Methods.Settings.{tcos_sound, tcos_config, tcos_devices}
use tcos.Server.Methods.Pads.{tcos_pam_usb}
use tcos.Server.Registry.{Handler, call, answered}
use tcos.Server.Refusals.{
  Returns, IsRefusal, IsRefused, require_xauth-refuses, require_cookie_or_login-refuses,
  answered-refuses,
}
use tcos.Server.Probes.{IsProbe, Stranger, require_xauth-closed, either-closed}

-- The methods that take a cookie, some of them a login in its place.
pub data CookieMethod : Type 0 where
  sound config rebootpoweroff devices pamusb : CookieMethod

pub cookie_method_name : CookieMethod → Bytes
cookie_method_name sound = codes "tcos.sound"
cookie_method_name config = codes "tcos.config"
cookie_method_name rebootpoweroff = codes "tcos.rebootpoweroff"
cookie_method_name devices = codes "tcos.devices"
cookie_method_name pamusb = codes "tcos.pamusb"

-- The options that are open to everyone.
unfoldable pub is_open_option : CookieMethod → Bytes → Bool
is_open_option devices option = str_eq option (codes "--getxdrivers")
is_open_option pamusb option = str_prefix option (codes "initusb")
is_open_option _ option = false

serve : CookieMethod → Handler
serve sound = tcos_sound
serve config = tcos_config
serve rebootpoweroff = tcos_reboot_poweroff
serve devices = tcos_devices
serve pamusb = tcos_pam_usb

call-serve :
    (h : Host) (m : CookieMethod) (req : Request) (t : Trace)
    → call h (cookie_method_name m) req t ≡ answered (serve m h req t)
unfolding call cookie_method_name serve
call-serve h sound req t = refl
call-serve h config req t = refl
call-serve h rebootpoweroff req t = refl
call-serve h devices req t = refl
call-serve h pamusb req t = refl

-- A request with four parameters from a stranger.
pub record StrangersCall (h : Host) (m : CookieMethod) (req : Request)
    (option cmdline user pass : Bytes) : Type 0 where
  pub given : req.four ≡ some (option, cmdline, user, pass)
  pub closed : is_open_option m option ≡ false
  pub stranger : Stranger h user pass

serve-closed :
    (h : Host) (m : CookieMethod) (req : Request) {option cmdline user pass : Bytes}
    → StrangersCall h m req option cmdline user pass
    → Emits (IsProbe h user) (serve m h req)
unfolding serve with_params is_open_option tcos_sound tcos_config tcos_reboot_poweroff tcos_devices
    tcos_pam_usb
serve-closed h sound req {user = user} {pass = pass} c =
    rw c.given (either-closed h user pass c.stranger _)
serve-closed h config req {user = user} {pass = pass} c =
    rw c.given (either-closed h user pass c.stranger _)
serve-closed h rebootpoweroff req {user = user} {pass = pass} c =
    rw c.given (either-closed h user pass c.stranger _)
serve-closed h devices req {user = user} {pass = pass} c =
    rw c.given (rw c.closed (require_xauth-closed h user pass c.stranger _))
serve-closed h pamusb req {user = user} {pass = pass} c =
    rw c.given (rw c.closed (require_xauth-closed h user pass c.stranger _))

answered-Extends :
    {P : Event → Type 0} {t : Trace} (o : Outcome Reply)
    → Extends P t (trace_of o)
    → Extends P t (trace_of (answered o))
answered-Extends (done r u) x = x
answered-Extends (undefined c u) x = x

serve-refuses :
    (h : Host) (m : CookieMethod) (req : Request) {option cmdline user pass : Bytes} (t : Trace)
    → StrangersCall h m req option cmdline user pass
    → Returns (IsRefusal h user pass) (serve m h req t)
unfolding serve with_params is_open_option tcos_sound tcos_config tcos_reboot_poweroff tcos_devices
    tcos_pam_usb
serve-refuses h sound req {user = user} {pass = pass} t c =
    rw c.given
      (require_cookie_or_login-refuses h user pass c.stranger.no_login c.stranger.no_cookie _ t)
serve-refuses h config req {user = user} {pass = pass} t c =
    rw c.given
      (require_cookie_or_login-refuses h user pass c.stranger.no_login c.stranger.no_cookie _ t)
serve-refuses h rebootpoweroff req {user = user} {pass = pass} t c =
    rw c.given
      (require_cookie_or_login-refuses h user pass c.stranger.no_login c.stranger.no_cookie _ t)
serve-refuses h devices req {user = user} {pass = pass} t c =
    rw c.given
      (rw c.closed (require_xauth-refuses h user pass c.stranger.no_login c.stranger.no_cookie _ t))
serve-refuses h pamusb req {user = user} {pass = pass} t c =
    rw c.given
      (rw c.closed (require_xauth-refuses h user pass c.stranger.no_login c.stranger.no_cookie _ t))

-- For a stranger, a method that takes a cookie answers only that the cookie or the login is refused,
-- and starts no more than the check itself: the command that asks for this host's address, and the
-- trial of the cookie, which makes and removes a temporary file, sets XAUTHORITY, opens a display,
-- and starts the command of xauth. In that command the stranger's cookie stands unquoted, and
-- nothing is said of what the shell makes of it. The options that the source leaves open to
-- everyone are excepted.
pub cookie_required :
    (h : Host) (m : CookieMethod) (req : Request) (t : Trace) (option cmdline user pass : Bytes)
    → StrangersCall h m req option cmdline user pass
    → Extends (IsProbe h user) t (trace_of (call h (cookie_method_name m) req t))
      × Returns (IsRefused h user pass) (call h (cookie_method_name m) req t)
cookie_required h m req t option cmdline user pass c = rw (call-serve h m req t) (
  answered-Extends (serve m h req t) ((serve-closed h m req c).at t),
  answered-refuses h user pass (serve m h req t) (serve-refuses h m req t c),
)
