-- ===== src/Server/Methods/Settings.antt =====
-- Methods that read or change settings: xmlrpc/sound.c, config.c, devices.c and xorg.c.
use tcos.Base.{Option, none, some, Bytes, codes, ◌++◌, str_eq, if◌then◌else◌}
use tcos.CText.{snprintf}
use tcos.Host.{Host, M, system, Request, Reply, string, pure, ask, emit, ◌>>=◌, ◌>>◌}
use tcos.Auth.{bsize}
use tcos.Server.Xauth.{params_error}
use tcos.Server.Exec.{answer_line}
use tcos.Server.Gates.{with_params, require_login, require_xauth, require_cookie_or_login}

-- "%s %s %s", cut to BSIZE bytes.
unfoldable pub wrapper_command : Host → Bytes → Bytes → Bytes → Bytes
unfolding snprintf
wrapper_command h wrapper option cmdline =
    snprintf bsize (h.tcos_path ++ (wrapper ++ (codes " " ++ (option ++ (codes " " ++ cmdline)))))

unfoldable pub tcos_sound : Host → Request → M Reply
unfolding with_params require_cookie_or_login answer_line wrapper_command
tcos_sound h req = with_params req.four params_error λ (option, cmdline, user, pass).
    require_cookie_or_login h user pass (
      answer_line h (codes "error: reading sound settings.") (codes "error: sound action error.")
        bsize (wrapper_command h (codes "/soundctl.sh ") option cmdline))

unfoldable pub tcos_config : Host → Request → M Reply
unfolding with_params require_cookie_or_login answer_line wrapper_command
tcos_config h req = with_params req.four params_error λ (option, cmdline, user, pass).
    require_cookie_or_login h user pass (
      answer_line h (codes "error: reading config settings.") (codes "-1") bsize
        (wrapper_command h (codes "/configctl.sh ") option cmdline))

unfoldable pub devices_action : Host → Bytes → Bytes → M Reply
unfolding answer_line wrapper_command
devices_action h option cmdline =
    answer_line h (codes "error: reading devices settings.") (codes "error: device action error.")
      bsize (wrapper_command h (codes "/devicesctl.sh ") option cmdline)

-- The list of X drivers is open to everyone.
unfoldable pub tcos_devices : Host → Request → M Reply
unfolding with_params require_xauth devices_action
tcos_devices h req = with_params req.four params_error λ (option, cmdline, cookie, hostname).
    if str_eq option (codes "--getxdrivers")
    then devices_action h option cmdline
    else require_xauth h cookie hostname (devices_action h option cmdline)

unfoldable pub xorgcfg : Host → Bytes
xorgcfg h = h.tcos_path ++ codes "/configurexorg"

abbrev pub xorg_error : Bytes
xorg_error = codes "error: Command return error"

-- The commands behind "new", "change" and "rebuild".
unfoldable pub xorg_command : Host → Bytes → Option Bytes
unfolding xorgcfg
xorg_command h option =
    if str_eq option (codes "new")
    then some (xorgcfg h ++ codes " --newsettings --outputfile=/etc/X11/xorg.conf")
    else if str_eq option (codes "change")
    then some (xorgcfg h ++ codes " --changesettings --outputfile=/etc/X11/xorg.conf ")
    else if str_eq option (codes "rebuild")
    then some (
        xorgcfg h
        ++ codes " --newsettings --downloadagain --restartxorg --outputfile=/etc/X11/xorg.conf ")
    else none

unfoldable pub xorg_system : Host → Bytes → M Reply
xorg_system h line = do
  passed ← ask (λ t. h.system_ok t line)
  emit (system line)
  if passed then pure (string (codes "ok")) else pure (string xorg_error)

unfoldable pub xorg_action : Host → Bytes → Bytes → M Reply
unfolding xorg_command xorg_system answer_line xorgcfg snprintf
xorg_action h option cmdline = elim (xorg_command h option) [
  | some command ↦ xorg_system h (snprintf bsize (command ++ (codes " " ++ cmdline)))
  | none ↦
      if str_eq option (codes "get")
      then answer_line h (codes "error: Error reading pipe") xorg_error bsize
          (xorgcfg h ++ codes " --getsettings ")
      else pure (string (codes "error: Unknow option for " ++ xorgcfg h))
]

unfoldable pub tcos_xorg : Host → Request → M Reply
unfolding with_params require_login xorg_action
tcos_xorg h req =
    with_params req.four params_error
      λ (option, cmdline, user, pass). require_login h user pass (xorg_action h option cmdline)
