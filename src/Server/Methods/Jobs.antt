-- ===== src/Server/Methods/Jobs.antt =====
-- Methods that start or end a program for a caller that has logged in: xmlrpc/exe.c,
-- lockscreen.c, lockcontroller.c and reboot_poweroff.c.
use tcos.Base.{◌||◌, not, Bytes, codes, ◌++◌, str_eq, if◌then◌else◌}
use tcos.Host.{Host, M, Request, Reply, string, pure, sprintf, ◌>>=◌, ◌>>◌}
use tcos.Server.Xauth.{params_error}
use tcos.Server.Exec.{big_buffer, job_exe, kill_exe, lockcontroller_exe}
use tcos.Server.Gates.{with_params, require_login, require_cookie_or_login}

unfoldable pub tcos_exe : Host → Request → M Reply
unfolding with_params require_login job_exe
tcos_exe h req =
    with_params req.three (codes "error: params error")
      λ (s, user, pass). require_login h user pass (do job_exe h s; pure (string s))

unfoldable pub tcos_kill : Host → Request → M Reply
unfolding with_params require_login kill_exe
tcos_kill h req =
    with_params req.three (codes "error: params error")
      λ (s, user, pass). require_login h user pass (do kill_exe h s; pure (string s))

unfoldable pub lockscreen_path : Host → Bytes
lockscreen_path h =
    if not (str_eq h.tcos_path (codes "/sbin"))
    then h.tcos_path ++ codes "/lockscreen"
    else codes "lockscreen"

unfoldable pub tcos_lockscreen : Host → Request → M Reply
unfolding with_params require_login job_exe lockscreen_path
tcos_lockscreen h req = with_params req.two params_error λ (user, pass).
    require_login h user pass (do job_exe h (lockscreen_path h); pure (string (codes "OK")))

unfoldable pub tcos_unlockscreen : Host → Request → M Reply
unfolding with_params require_login kill_exe
tcos_unlockscreen h req = with_params req.two params_error λ (user, pass).
    require_login h user pass (do kill_exe h (codes "lockscreen"); pure (string (codes "OK")))

unfoldable pub tcos_lockcontroller : Host → Request → M Reply
unfolding with_params require_login lockcontroller_exe
tcos_lockcontroller h req = with_params req.three params_error λ (action, user, pass).
    require_login h user pass (do lockcontroller_exe h action; pure (string (codes "OK")))

unfoldable pub tcos_unlockcontroller : Host → Request → M Reply
unfolding with_params require_login kill_exe
tcos_unlockcontroller h req = with_params req.three params_error λ (action, user, pass).
    require_login h user pass (do kill_exe h action; pure (string (codes "OK")))

-- The command is built before the option is looked at.
unfoldable pub reboot_or_poweroff : Host → Bytes → Bytes → M Reply
unfolding job_exe
reboot_or_poweroff h option timeout = do
  cmd ← sprintf big_buffer (codes "down-controller " ++ (option ++ (codes " " ++ timeout)))
  if str_eq option (codes "reboot") || str_eq option (codes "poweroff")
      then (do job_exe h cmd; pure (string (codes "ok: reboot_poweroff action done.")))
      else pure (string (codes "error: unknow option passed."))

unfoldable pub tcos_reboot_poweroff : Host → Request → M Reply
unfolding with_params require_cookie_or_login reboot_or_poweroff
tcos_reboot_poweroff h req = with_params req.four params_error λ (option, timeout, user, pass).
    require_cookie_or_login h user pass (reboot_or_poweroff h option timeout)
