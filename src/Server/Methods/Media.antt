-- ===== src/Server/Methods/Media.antt =====
-- Methods that drive a controller script: xmlrpc/vnc.c, vlc.c, rtp.c, tnc.c and dpms.c. The
-- scripts' output is read with no test of the stream.
use tcos.Base.{Bytes, codes, ◌++◌, str_eq, if◌then◌else◌}
use tcos.CText.{fgets, remove_line_break}
use tcos.Host.{
  Host, M, uninitialised, null_pointer, Request, Reply, string, pure, run, deref, sprintf, ◌>>=◌,
  ◌>>◌,
}
use tcos.Server.Xauth.{params_error}
use tcos.Server.Exec.{big_buffer, display_vars, lockcontroller_exe, lockcontroller_kill, read_line}
use tcos.Server.Gates.{with_params, require_login}

-- "%s %s %s %s:%s"
unfoldable pub controller_command : Bytes → Bytes → Bytes → Bytes → Bytes → Bytes
controller_command controller action args user pass =
    controller
    ++ (codes " "
        ++ (action ++ (codes " " ++ (args ++ (codes " " ++ (user ++ (codes ":" ++ pass)))))))

unfoldable pub follow_vnc : Host → Bytes → M (Unit {0})
unfolding lockcontroller_exe lockcontroller_kill
follow_vnc h action =
    if str_eq action (codes "startclient")
    then lockcontroller_exe h (codes "lockvnc")
    else if str_eq action (codes "stopclient")
    then lockcontroller_kill h (codes "lockvnc")
    else pure tt

unfoldable pub tcos_vnc : Host → Request → M Reply
unfolding with_params require_login controller_command read_line follow_vnc
tcos_vnc h req = with_params req.four params_error λ (action, args, user, pass).
    require_login h user pass do
      cmd ←
          sprintf big_buffer
            (controller_command (h.tcos_path ++ codes "/vnc-controller.sh ") action args user pass)
      line ← read_line h (codes "error: vnc command error") big_buffer cmd
      follow_vnc h action
      pure (string line)

unfoldable pub tcos_rtp : Host → Request → M Reply
unfolding with_params require_login controller_command read_line
tcos_rtp h req = with_params req.four params_error λ (action, broadcast, user, pass).
    require_login h user pass do
      cmd ← sprintf big_buffer (
          controller_command (h.tcos_path ++ codes "/rtp-controller.sh ") action broadcast user
            pass)
      line ← read_line h (codes "error: rtp command error") big_buffer cmd
      pure (string line)

unfoldable pub follow_vlc : Host → Bytes → M (Unit {0})
unfolding lockcontroller_exe
follow_vlc h lock =
    if str_eq lock (codes "enable") then lockcontroller_exe h (codes "lockvlc") else pure tt

unfoldable pub tcos_vlc : Host → Request → M Reply
unfolding with_params require_login follow_vlc
tcos_vlc h req = with_params req.four params_error λ (volume, lock, user, pass).
    require_login h user pass do
      cmd ← sprintf big_buffer (h.tcos_path ++ (codes "/vlc-controller.sh " ++ volume))
      fp ← run h cmd
      deref null_pointer fp
      follow_vlc h lock
      pure (string (codes "OK"))

unfoldable pub tnc_controller : Host → Bytes
tnc_controller h = h.tcos_path ++ codes "/tnc "

unfoldable pub network_iface : Host → Bytes
network_iface h = h.tcos_path ++ codes "/getinfo.sh -i NETWORK_IFACE"

unfoldable pub disable_command : Host → Bytes → Bytes → Bytes → Bytes → Bytes
unfolding tnc_controller
disable_command h onlyports ports iface username =
    tnc_controller h
    ++ (codes " disable-internet "
        ++ (onlyports
            ++ (codes " " ++ (ports ++ (codes " " ++ (iface ++ (codes " " ++ username)))))))

-- To cut a user off, the interface is asked for first; if that command cannot be started, `cmd`
-- is left without a value.
unfoldable pub with_iface : Host → Bytes → Bytes → Bytes → M Bytes
unfolding network_iface fgets remove_line_break disable_command
with_iface h onlyports ports username = do
  fp ← run h (network_iface h)
  out ← deref uninitialised fp
  line ← deref uninitialised (fgets big_buffer out)
  sprintf big_buffer (disable_command h onlyports ports (remove_line_break line) username)

unfoldable pub tnc_command : Host → Bytes → Bytes → Bytes → Bytes → M Bytes
unfolding tnc_controller with_iface
tnc_command h action onlyports ports username =
    if str_eq action (codes "disable-internet")
    then with_iface h onlyports ports username
    else sprintf big_buffer (
        tnc_controller h
        ++ (codes " "
            ++ (action
                ++ (codes " "
                    ++ (onlyports ++ (codes " " ++ (ports ++ (codes " " ++ username))))))))

unfoldable pub tcos_tnc : Host → Request → M Reply
unfolding with_params require_login tnc_command read_line
tcos_tnc h req =
    with_params req.six params_error λ (action, onlyports, ports, username, user, pass).
      require_login h user pass do
        cmd ← tnc_command h action onlyports ports username
        line ← read_line h (codes "error: tnc command error") big_buffer cmd
        pure (string line)

unfoldable pub dpms_command : Host → Bytes → Bytes
unfolding display_vars
dpms_command h action =
    display_vars h
    ++ (codes " /usr/bin/xset"
        ++ (if str_eq action (codes "off")
            then codes " dpms force off; echo $?"
            else if str_eq action (codes "on")
            then codes " dpms force on; echo $?"
            else codes " q| awk '/Monitor/ {print $3}'"))

unfoldable pub tcos_dpms : Host → Request → M Reply
unfolding with_params require_login dpms_command read_line
tcos_dpms h req = with_params req.three params_error λ (action, user, pass).
    require_login h user pass do
      line ← read_line h (codes "error: dpms command error") big_buffer (dpms_command h action)
      pure (string line)
