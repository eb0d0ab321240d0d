-- ===== src/Server/Exec.antt =====
-- `job_exe` and `kill_exe` of xmlrpc/exe.c, `lockcontroller_exe` and `lockcontroller_kill` of
-- xmlrpc/lockcontroller.c: the commands that a method starts or ends, and the way that a method
-- reads one line of a command's output.
use tcos.Base.{ℕ, not, none, some, Bytes, codes, ◌++◌, str_eq, if◌then◌else◌}
use tcos.CText.{snprintf, fgets, fgets_into, remove_line_break}
use tcos.Host.{
  Host, M, null_pointer, uninitialised, Reply, string, pure, run, deref, sprintf, ◌>>=◌, ◌>>◌,
}

abbrev pub buff_size : ℕ
buff_size = 1000

abbrev pub big_buffer : ℕ
big_buffer = 5000

-- DISPLAY and CMD_WRAPPER of exe.h.
unfoldable pub display_vars : Host → Bytes
display_vars h =
    if h.is_standalone
    then codes "DISPLAY=:0 XAUTHORITY=$(/usr/lib/tcos/get_xauth)"
    else codes "DISPLAY=:0 XAUTHORITY=/root/.Xauthority"

unfoldable pub cmd_wrapper : Host → Bytes
unfolding display_vars
cmd_wrapper h =
    if h.is_standalone
    then display_vars h ++ codes " /usr/lib/tcos/daemonize.sh "
    else display_vars h ++ codes " /sbin/daemonize.sh "

unfoldable pub job_command : Host → Bytes → Bytes
unfolding cmd_wrapper snprintf
job_command h cmd = snprintf buff_size (cmd_wrapper h ++ (codes " " ++ cmd))

-- The stream is closed with no test, so a popen that fails is undefined behaviour.
unfoldable pub job_exe : Host → Bytes → M (Unit {0})
unfolding job_command
job_exe h cmd = do fp ← run h (job_command h cmd); deref null_pointer fp; pure tt

unfoldable pub kill_command : Bytes → Bytes
unfolding snprintf
kill_command cmd = snprintf buff_size (codes "killall " ++ cmd)

unfoldable pub kill_exe : Host → Bytes → M (Unit {0})
unfolding kill_command
kill_exe h cmd = do fp ← run h (kill_command cmd); deref null_pointer fp; pure tt

-- The path of a lock program: strcmp(TCOS_PATH, "/sbin") decides whether it is written out.
unfoldable pub lock_path : Host → Bytes → Bytes
lock_path h action =
    if not (str_eq h.tcos_path (codes "/sbin"))
    then h.tcos_path ++ (codes "/" ++ action)
    else action

unfoldable pub lockcontroller_exe : Host → Bytes → M (Unit {0})
unfolding lock_path job_exe
lockcontroller_exe h action = do cmd ← sprintf big_buffer (lock_path h action); job_exe h cmd

unfoldable pub lockcontroller_kill : Host → Bytes → M (Unit {0})
unfolding kill_exe
lockcontroller_kill h action = kill_exe h action

-- strncpy(line, old, …); fgets(line, size, fp); remove_line_break(line).
unfoldable pub line_of : Bytes → ℕ → Bytes → Bytes
unfolding fgets_into remove_line_break
line_of old size out = remove_line_break (fgets_into old size out)

-- A command whose first line is the answer, with `old` for no output; a failed popen is answered
-- by `failed`.
unfoldable pub answer_line : Host → Bytes → Bytes → ℕ → Bytes → M Reply
unfolding line_of
answer_line h failed old size cmd = do
  fp ← run h cmd
  elim fp [ none ↦ pure (string failed) | some out ↦ pure (string (line_of old size out)) ]

-- The same where the code does not test the stream.
unfoldable pub read_line : Host → Bytes → ℕ → Bytes → M Bytes
unfolding line_of
read_line h old size cmd = do
  fp ← run h cmd
  out ← deref null_pointer fp
  pure (line_of old size out)

-- And where `line` held nothing before.
unfoldable pub read_fresh_line : Host → ℕ → Bytes → M Bytes
unfolding fgets remove_line_break
read_fresh_line h size cmd = do
  fp ← run h cmd
  out ← deref null_pointer fp
  line ← deref uninitialised (fgets size out)
  pure (remove_line_break line)
