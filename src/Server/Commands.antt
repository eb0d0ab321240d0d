-- ===== src/Server/Commands.antt =====
-- The commands that a call comes to: `tcos_exe` (xmlrpc/exe.c) for a caller with a login, and
-- `tcos_status` (xmlrpc/simple-methods.c) for anyone.
use tcos.Base.{
  ◌≤◌, ◌≡◌, ◌≢◌, refl, Option, none, some, Bool, true, false, Bytes, codes, ◌∷◌, ◌++◌, arith,
  length, length-append, take, take_all, ◌∙◌, ap, ap₂, str_eq, str_eq_iff, Bool-cases, ltb,
  Option-cases, inl, inr,
}
use tcos.CText.{snprintf}
use tcos.Host.{
  Host, Trace, Cause, null_pointer, popen, Outcome, done, undefined, trace_of, Request, Reply,
  string, pure, run, deref, sprintf, ◌>>◌,
}
use tcos.Auth.{login_ok, validate_login}
use tcos.Auth.Quiet.{trace-validate_login}
use tcos.Server.Exec.{buff_size, display_vars, cmd_wrapper, job_command, job_exe}
use tcos.Server.Gates.{with_params, require_login, after_login}
use tcos.Server.Methods.Simple.{status_command, read_status, scan_word, tcos_status}
use tcos.Server.Methods.Jobs.{tcos_exe}
use tcos.Server.Registry.{call, answered}
use tcos.Server.Access.{trace-answered}

-- What stands before a job's text: the variables of the build, and its script.
unfoldable pub before_job : Bool → Bytes
before_job true =
    codes "DISPLAY=:0 XAUTHORITY=$(/usr/lib/tcos/get_xauth) /usr/lib/tcos/daemonize.sh  "
before_job false = codes "DISPLAY=:0 XAUTHORITY=/root/.Xauthority /sbin/daemonize.sh  "

-- The command that starts a job: as much of it as a buffer of 1000 bytes holds.
abbrev pub exe_command : Host → Bytes → Bytes
exe_command h s = take 999 (before_job h.is_standalone ++ s)

-- The ways that a call of tcos.exe can go, for the three texts of the request.
pub data ExeRun (h : Host) (t : Trace)
    : Option (Bytes × Bytes × Bytes) → Outcome (Option Reply) → Type 0 where
  undecoded : ExeRun h t none (done (some (string (codes "error: params error"))) t)
  refused :
      {s user pass m : Bytes}
      → validate_login h user pass t ≡ done m t
      → m ≢ login_ok
      → ExeRun h t (some (s, user, pass)) (done (some (string m)) t)
  unchecked :
      {s user pass : Bytes} {cause : Cause}
      → validate_login h user pass t ≡ undefined cause t
      → ExeRun h t (some (s, user, pass)) (undefined cause t)
  started :
      {s user pass out : Bytes}
      → validate_login h user pass t ≡ done login_ok t
      → h.popen_output t (exe_command h s) ≡ some out
      → ExeRun h t (some (s, user, pass)) (done (some (string s)) (popen (exe_command h s) ∷ t))
  not_started :
      {s user pass : Bytes}
      → validate_login h user pass t ≡ done login_ok t
      → h.popen_output t (exe_command h s) ≡ none
      → ExeRun h t (some (s, user, pass)) (undefined null_pointer (popen (exe_command h s) ∷ t))

job_command_lem : (h : Host) (s : Bytes) → job_command h s ≡ exe_command h s
unfolding job_command snprintf cmd_wrapper display_vars before_job
job_command_lem h s = elim (Bool-cases h.is_standalone) [
  | inl alone ↦ rw alone refl
  | inr client ↦ rw client refl
]

module _ (h : Host) (t : Trace) (s user pass : Bytes) where
  with_login :
      validate_login h user pass t ≡ done login_ok t
      → ExeRun h t
          (some (s, user, pass))
          (answered (require_login h user pass (job_exe h s >> pure (string s)) t))
  unfolding require_login after_login job_exe run deref pure str_eq
  with_login accepted = elim (Option-cases (h.popen_output t (exe_command h s))) [
    | inl n ↦ rw (accepted, job_command_lem h s, n) (not_started accepted n)
    | inr (out, e) ↦ rw (accepted, job_command_lem h s, e) (started accepted e)
  ]

  by_login :
      (o : Outcome Bytes)
      → validate_login h user pass t ≡ o
      → trace_of o ≡ t
      → ExeRun h t
          (some (s, user, pass))
          (answered (require_login h user pass (job_exe h s >> pure (string s)) t))
  unfolding require_login after_login pure
  by_login (undefined cause u) e quiet = let here = rw quiet at e in rw here (unchecked here)
  by_login (done m u) e quiet = elim (Bool-cases (str_eq m login_ok)) [
    | inl equal ↦
        let same : m ≡ login_ok = (str_eq_iff m login_ok).0 equal in
        with_login (e ∙ ap₂ done same quiet)
    | inr other ↦
        let here : validate_login h user pass t ≡ done m t = e ∙ ap (done m) quiet in
        rw (here, other)
          (refused here (λ same. absurd (cc (other, (str_eq_iff m login_ok).1 same))))
  ]

-- What a call of tcos.exe does, in every case. Without three texts, or a login, no command runs,
-- and the answer is an error or that of validate_login. With a login one command runs, the text
-- behind the wrapper of the build, as far as it fits a buffer of 1000 bytes, and the text is the
-- answer; where the command does not start, a null pointer is closed.
pub exe_runs :
    (h : Host) (req : Request) (t : Trace) → ExeRun h t req.three (call h (codes "tcos.exe") req t)
unfolding call tcos_exe with_params pure
exe_runs h req t = elim (Option-cases req.three) [
  | inl n ↦ rw n undecoded
  | inr ((s, user, pass), e) ↦ rw e (
      by_login h t s user pass (validate_login h user pass t) refl
        (trace-validate_login h user pass t))
]

status_command-fits :
    (app : Bytes)
    → length app ≤ 900
    → status_command app ≡ codes "pidof " ++ (app ++ codes "| grep -c \"[1234567890]\"")
unfolding status_command snprintf
status_command-fits app le =
    take_all 999 _ (omega (arith, length-append app (codes "| grep -c \"[1234567890]\"")))

trace-read_status :
    (h : Host) (app : Bytes) (t : Trace)
    → trace_of (read_status h app t) ≡ popen (status_command app) ∷ t
unfolding read_status run deref sprintf pure
trace-read_status h app t = elim (Option-cases (h.popen_output t (status_command app))) [
  | inl n ↦ rw n refl
  | inr (text, s) ↦ elim (Option-cases (scan_word text)) [
    | inl n ↦ rw s (rw n refl)
    | inr (w, e) ↦ elim (Bool-cases (ltb (length w) buff_size)) [
      | inl fits ↦ rw s (rw e (rw fits refl))
      | inr long ↦ rw s (rw e (rw long refl))
    ]
  ]
]

-- tcos.status hands the text that any caller gives to the shell as it stands, between "pidof" and
-- a pipe, for every text of up to 900 bytes: no login is asked for and nothing is quoted.
pub status_runs_text :
    (h : Host) (req : Request) (t : Trace) (app : Bytes)
    → req.one ≡ some app
    → length app ≤ 900
    → trace_of (call h (codes "tcos.status") req t)
      ≡ popen (codes "pidof " ++ (app ++ codes "| grep -c \"[1234567890]\"")) ∷ t
unfolding call tcos_status with_params
status_runs_text h req t app given le = rw given (
    trace-answered (read_status h app t)
    ∙ trace-read_status h app t
    ∙ ap (λ c. popen c ∷ t) (status_command-fits app le))
