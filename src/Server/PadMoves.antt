-- ===== src/Server/PadMoves.antt =====
-- The one-time pads of pam-usb on their way from one machine to another (xmlrpc/pam-usb.c).
use tcos.Base.{◌≡◌, refl, true, some, Bytes, codes, ◌∷◌, ◌++◌, All, str_eq, str_prefix}
use tcos.Base64.{base64_encode}
use tcos.Base64.RoundTrip.{IsByte, decode-encode}
use tcos.Host.{Host, Trace, write_file, done, Request, string, pure, ask, emit}
use tcos.Server.Xauth.{xauth_ok, handle_xauth}
use tcos.Server.Gates.{with_params, require_xauth, after_xauth}
use tcos.Server.Methods.Pads.{answer_pad, write_pad, pam_usb_action, tcos_pam_usb}
use tcos.Server.Registry.{call}

-- A caller with a cookie that is accepted, from `t` to `u`.
pub record HasCookie (h : Host) (req : Request) (option cmdline : Bytes) (t u : Trace)
    : Type 0 where
  pub cookie : Bytes
  pub host : Bytes
  pub given : req.four ≡ some (option, cmdline, cookie, host)
  pub accepted : handle_xauth h cookie host t ≡ done xauth_ok u

pub getpad_answers :
    (h : Host) (req : Request) (file pad : Bytes) (t u : Trace)
    → HasCookie h req (codes "getpad") file t u
    → h.read_file u file ≡ some pad
    → call h (codes "tcos.pamusb") req t ≡ done (some (string (base64_encode pad))) u
unfolding call tcos_pam_usb with_params require_xauth after_xauth pam_usb_action answer_pad
    str_prefix str_eq ask pure
getpad_answers h req file pad t u c e = rw (c.given, c.accepted, e) refl

newpad_writes :
    (h : Host) (req : Request) (name pad : Bytes) (t u : Trace)
    → HasCookie h req (codes "//mnt/" ++ name) (base64_encode pad) t u
    → All IsByte pad
    → h.can_write u (codes "//mnt/" ++ name) ≡ true
    → call h (codes "tcos.pamusb") req t
      ≡ done (some (string (codes "ok"))) (write_file (codes "//mnt/" ++ name) pad ∷ u)
unfolding call tcos_pam_usb with_params require_xauth after_xauth pam_usb_action write_pad
    str_prefix str_eq ask pure emit
newpad_writes h req name pad t u c bytes w =
    rw (c.given, c.accepted, w, decode-encode pad bytes) refl

-- A pad that "getpad" reads on one machine is written unchanged on another by the call that hands
-- over the answer, for callers whose cookies are accepted and a file that can be opened.
pub pad_moves :
    (h k : Host) (ask_for hand_over : Request) (file name pad answer : Bytes) (t u v w : Trace)
    → HasCookie h ask_for (codes "getpad") file t u
    → h.read_file u file ≡ some pad
    → All IsByte pad
    → call h (codes "tcos.pamusb") ask_for t ≡ done (some (string answer)) u
    → HasCookie k hand_over (codes "//mnt/" ++ name) answer v w
    → k.can_write w (codes "//mnt/" ++ name) ≡ true
    → call k (codes "tcos.pamusb") hand_over v
      ≡ done (some (string (codes "ok"))) (write_file (codes "//mnt/" ++ name) pad ∷ w)
pad_moves h k ask_for hand_over file name pad answer t u v w c e bytes answered_by d opens =
    let read : call h (codes "tcos.pamusb") ask_for t ≡ done (some (string (base64_encode pad))) u =
      getpad_answers h ask_for file pad t u c e in
    let equal : answer ≡ base64_encode pad = cc (answered_by, read) in
    newpad_writes k hand_over name pad v w (rw equal at d) bytes opens
