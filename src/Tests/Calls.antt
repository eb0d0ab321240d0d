-- ===== src/Tests/Calls.antt =====
-- Calls of the server, by callers with a login, with a cookie and with neither.
use tcos.Base.{Option, Bytes, codes, [], ◌∷◌, ◌++◌, ◌≡◌, refl, some, arith, str_eq}
use tcos.Host.{
  Request, write_file, popen, done, trace_of, string, pure, ask, deref, emit, run, Trace,
}
use tcos.Host.Emits.{Extends}
use tcos.Auth.{login_ok, login_nopass, validate_login, validate_shadow, is_inactive, is_expired}
use tcos.Address.{check_ip_address, scan_ints}
use tcos.CText.Decimal.{scan_int, is_digit, print_int, digits}
use tcos.Server.Xauth.{handle_xauth, try_display, xauth_ok, xauth_bad_hostname}
use tcos.Server.Cookies.{CookieCheck, cleaned, handle_xauth-checks}
use tcos.Server.Strangers.{
  StrangersCall, sound, cookie_method_name, is_open_option, cookie_required,
}
use tcos.Server.Probes.{IsProbe, Stranger}
use tcos.Server.Refusals.{Returns, IsRefused}
use tcos.Base64.{base64_encode}
use tcos.Server.PadMoves.{HasCookie, getpad_answers, pad_moves}
use tcos.Server.Commands.{before_job, exe_command, ExeRun, exe_runs, status_runs_text}
use tcos.Server.Registry.{call}
use tcos.Tests.Fixtures.{machine, machine_with, kiosk, request, request_four}

root_logged_in : validate_login machine (codes "root") (codes "secret") [] ≡ done login_ok []
unfolding validate_login validate_shadow is_inactive is_expired pure ask deref str_eq
root_logged_in = refl

exe_runs_example :
    ExeRun machine []
      (some (codes "xterm", codes "root", codes "secret"))
      (call machine (codes "tcos.exe") (request (codes "xterm") (codes "root") (codes "secret")) [])
exe_runs_example = exe_runs machine (request (codes "xterm") (codes "root") (codes "secret")) []

xterm_starts :
    exe_command machine (codes "xterm")
    ≡ codes "DISPLAY=:0 XAUTHORITY=/root/.Xauthority /sbin/daemonize.sh  xterm"
unfolding before_job
xterm_starts = refl

status_runs_text_example :
    trace_of (call machine (codes "tcos.status") (request (codes "x; reboot") [] []) [])
    ≡ popen (codes "pidof " ++ (codes "x; reboot" ++ codes "| grep -c \"[1234567890]\"")) ∷ []
status_runs_text_example =
    status_runs_text machine (request (codes "x; reboot") [] []) [] (codes "x; reboot") refl
      (omega arith)

cookie_opens :
    (files : Bytes → Option Bytes)
    → handle_xauth (machine_with files) (codes "c0") (codes "client") []
      ≡ done xauth_ok (cleaned (codes "/tmp/.tmpxauth123456") (codes "client") (codes "c0") [])
unfolding handle_xauth check_ip_address pure ask deref str_eq scan_ints scan_int is_digit print_int
    digits emit run try_display
cookie_opens files = refl

handle_xauth-checks_example :
    CookieCheck machine
      (codes "c0")
      (codes "client")
      []
      xauth_ok
      (cleaned (codes "/tmp/.tmpxauth123456") (codes "client") (codes "c0") [])
handle_xauth-checks_example =
    handle_xauth-checks machine (codes "c0") (codes "client") [] xauth_ok
      (cleaned (codes "/tmp/.tmpxauth123456") (codes "client") (codes "c0") []) (cookie_opens _)

guess_rejected :
    (t : Trace) → validate_login machine (codes "root") (codes "guess") t ≡ done login_nopass t
unfolding validate_login validate_shadow pure ask deref str_eq
guess_rejected t = refl

guess_named_nobody :
    (t : Trace) → handle_xauth machine (codes "root") (codes "guess") t ≡ done xauth_bad_hostname t
unfolding handle_xauth check_ip_address pure ask deref str_eq scan_ints scan_int is_digit print_int
    digits
guess_named_nobody t = refl

intruder : Stranger machine (codes "root") (codes "guess")
intruder = record {
  no_login = λ t u e. cc (guess_rejected t, e);
  no_cookie = λ t u e. cc (guess_named_nobody t, e);
}

intruders_call :
    StrangersCall machine sound
      (request (codes "--show") (codes "root") (codes "guess"))
      (codes "--show")
      (codes "--show")
      (codes "root")
      (codes "guess")
unfolding is_open_option
intruders_call = record { given = refl; closed = refl; stranger = intruder }

cookie_required_example :
    Extends (IsProbe machine (codes "root")) [] (
      trace_of (
        call machine
          (cookie_method_name sound)
          (request (codes "--show") (codes "root") (codes "guess"))
          []))
    × Returns (IsRefused machine (codes "root") (codes "guess")) (
        call machine
          (cookie_method_name sound)
          (request (codes "--show") (codes "root") (codes "guess"))
          [])
cookie_required_example =
    cookie_required machine sound (request (codes "--show") (codes "root") (codes "guess")) []
      (codes "--show") (codes "--show") (codes "root") (codes "guess") intruders_call

abbrev pad : Bytes
pad = codes "guest:hash\nroot:other\n"

-- What a machine has done when the cookie has been accepted.
abbrev shown_cookie : Trace
shown_cookie = cleaned (codes "/tmp/.tmpxauth123456") (codes "client") (codes "c0") []

abbrev ask_pad : Request
ask_pad = request_four (codes "getpad") (codes "/mnt/u/pad") (codes "c0") (codes "client")

abbrev hand_pad : Request
hand_pad =
    request_four (codes "//mnt/" ++ codes "u/pad") (base64_encode pad) (codes "c0") (codes "client")

ask_pad-HasCookie : HasCookie kiosk ask_pad (codes "getpad") (codes "/mnt/u/pad") [] shown_cookie
ask_pad-HasCookie = record {
  cookie = codes "c0";
  host = codes "client";
  given = refl;
  accepted = cookie_opens _;
}

hand_pad-HasCookie :
    HasCookie machine hand_pad (codes "//mnt/" ++ codes "u/pad") (base64_encode pad) [] shown_cookie
hand_pad-HasCookie = record {
  cookie = codes "c0";
  host = codes "client";
  given = refl;
  accepted = cookie_opens _;
}

pad_asked :
    call kiosk (codes "tcos.pamusb") ask_pad []
    ≡ done (some (string (base64_encode pad))) shown_cookie
pad_asked =
    getpad_answers kiosk ask_pad (codes "/mnt/u/pad") pad [] shown_cookie ask_pad-HasCookie refl

pad_moves_example :
    call machine (codes "tcos.pamusb") hand_pad []
    ≡ done
        (some (string (codes "ok")))
        (write_file (codes "//mnt/" ++ codes "u/pad") pad ∷ shown_cookie)
pad_moves_example =
    pad_moves kiosk machine ask_pad hand_pad (codes "/mnt/u/pad") (codes "u/pad") pad
      (base64_encode pad) [] shown_cookie [] shown_cookie ask_pad-HasCookie refl (omega arith)
      pad_asked hand_pad-HasCookie refl
