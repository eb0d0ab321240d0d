-- ===== src/Server/Methods/Pads.antt =====
-- Methods that move files in base64: xmlrpc/get_screenshot.c and xmlrpc/pam-usb.c. A file that is
-- read whole is taken to fit in memory.
use tcos.Base.{Option, none, some, Bytes, codes, [], ◌∷◌, ◌++◌, str_eq, str_prefix, if◌then◌else◌}
use tcos.CText.{snprintf}
use tcos.Base64.{base64_encode, base64_decode}
use tcos.Host.{
  Host, M, write_file, null_pointer, uninitialised, Request, Reply, string, pair, pure, undef, ask,
  emit, run, deref, ◌>>=◌, ◌>>◌,
}
use tcos.Auth.{bsize, login_ok, validate_login}
use tcos.Server.Xauth.{params_error}
use tcos.Server.Exec.{answer_line}
use tcos.Server.Gates.{with_params, require_xauth}

unfoldable pub scrot_command : Host → Bytes → Bytes
unfolding snprintf
scrot_command h size = elim size [
  | [] ↦ snprintf bsize (h.tcos_path ++ codes "/screenshot.sh")
  | c ∷ s ↦ snprintf bsize (h.tcos_path ++ (codes "/screenshot.sh " ++ (c ∷ s)))
]

unfoldable pub screenshot_file : Host → Bytes
screenshot_file h =
    if h.is_standalone
    then codes "/var/lib/tcos/standalone/www/capture-thumb.jpg"
    else codes "/var/www/capture-thumb.jpg"

unfoldable pub answer_screenshot : Option Bytes → M Reply
answer_screenshot none = pure (pair (codes "error: screenshot command error") [])
answer_screenshot (some buf) = pure (pair (codes "ok") (base64_encode buf))

unfoldable pub take_screenshot : Host → Bytes → M Reply
unfolding scrot_command screenshot_file answer_screenshot
take_screenshot h size = do
  fp ← run h (scrot_command h size)
  deref null_pointer fp
  buf ← ask (λ t. h.read_file t (screenshot_file h))
  answer_screenshot buf

unfoldable pub screenshot_for : Host → Bytes → Bytes → M Reply
screenshot_for h size m = if str_eq m login_ok then take_screenshot h size else pure (pair m [])

unfoldable pub tcos_get_screenshot : Host → Request → M Reply
unfolding screenshot_for take_screenshot
tcos_get_screenshot h req = elim req.three [
  | none ↦ pure (pair (codes "error: params error") [])
  | some (size, user, pass) ↦ validate_login h user pass >>= screenshot_for h size
]

abbrev pub pam_reading_error : Bytes
pam_reading_error = codes "error: reading devices settings."

unfoldable pub answer_pad : Option Bytes → M Reply
answer_pad none = pure (string [])
answer_pad (some buf) = pure (string (base64_encode buf))

-- "//mnt/…": the text is decoded into the file. A text that is no base64 leaves the length of
-- what is written without a value.
unfoldable pub write_pad : Host → Bytes → Bytes → M Reply
write_pad h option cmdline = do
  writable ← ask (λ t. h.can_write t option)
  if writable
      then elim (base64_decode cmdline) [
        | none ↦ (do emit (write_file option []); undef uninitialised)
        | some e ↦ (do emit (write_file option e); pure (string (codes "ok")))
      ]
      else pure (string pam_reading_error)

unfoldable pub pam_usb_command : Host → Bytes → Bytes → Bytes
unfolding snprintf
pam_usb_command h option cmdline = snprintf bsize (
    h.tcos_path
    ++ (codes "/tcos-pam-usb.sh "
        ++ (codes " " ++ (option ++ (codes " '" ++ (cmdline ++ codes "'"))))))

-- Under "/mnt/…" the length of the text to code is read before it is set.
unfoldable pub pam_usb_action : Host → Bytes → Bytes → M Reply
unfolding answer_pad write_pad pam_usb_command answer_line
pam_usb_action h option cmdline =
    if str_eq option (codes "getpad")
    then (ask (λ t. h.read_file t cmdline) >>= answer_pad)
    else if str_prefix option (codes "/mnt/")
    then undef uninitialised
    else if str_prefix option (codes "//mnt/")
    then write_pad h option cmdline
    else answer_line h pam_reading_error (codes "error: device action error.") bsize
        (pam_usb_command h option cmdline)

unfoldable pub tcos_pam_usb : Host → Request → M Reply
unfolding with_params require_xauth pam_usb_action
tcos_pam_usb h req = with_params req.four params_error λ (option, cmdline, cookie, hostname).
    if str_prefix option (codes "initusb")
    then pam_usb_action h option cmdline
    else require_xauth h cookie hostname (pam_usb_action h option cmdline)
