-- ===== src/NetController/Main.antt =====
-- Who may run tnc/tcos-net-controller.c, and its command line: `check_user` and `main`.
use tcos.Base.{
  ℕ, Bool, true, false, ◌&&◌, ◌++◌, Bytes, codes, List, [], ◌∷◌, str_eq, not, ◌==◌, length, get_or,
  if◌then◌else◌,
}
use tcos.Host.{Host, M, print, pure, emit, ◌>>=◌, ◌>>◌}
use tcos.NetController.{status_iptables_user, flush_iptables_user, add_iptables_user}
use tcos.NetController.Routes.{Network, no_ip, ip_by_eth, add_route, del_route}

-- The user that runs the program, with the names of the groups that getgroups lists; a group
-- without a name is "".
pub record User : Type 0 where
  pub uid : ℕ
  pub euid : ℕ
  pub groups : List Bytes

abbrev pub group : Bytes
group = codes "tcos"

-- The loop over the groups.
unfoldable pub check_groups : ℕ → List Bytes → Bool → Bool
check_groups euid [] found = found
check_groups euid (g ∷ gs) found =
    check_groups euid gs (if str_eq g group && euid == 0 then true else found)

unfoldable pub check_user : User → Bool
unfolding check_groups
check_user u = if u.uid == 0 && u.euid == 0 then true else check_groups u.euid u.groups false

-- printf of one of two words.
unfoldable pub say : Bool → Bytes → Bytes → M ℕ
say i passed failed = do emit (print (if i then passed else failed)); pure 0

unfoldable pub disable_internet : Host → Bytes → Bytes → Bytes → Bytes → M ℕ
unfolding add_iptables_user flush_iptables_user
disable_internet h only ports iface user = do
  i ← add_iptables_user h only ports iface user
  if i
      then (do emit (print (codes "disabled")); pure 0)
      else do flush_iptables_user h user only; emit (print (codes "disable-error")); pure 0

-- The commands behind argv[1]; `args` starts with argv[2], so argc is two more than its length.
-- For any other command line the usage is printed to stderr.
unfoldable pub run_command : Host → Network → Bytes → List Bytes → M ℕ
unfolding disable_internet say ip_by_eth add_route del_route status_iptables_user
run_command h n cmd args =
    let arg = λ (i : ℕ). get_or args i [] in
    if str_eq cmd (codes "disable-internet") && length args == 4
    then disable_internet h (arg 0) (arg 1) (arg 2) (arg 3)
    else if str_eq cmd (codes "enable-internet") && length args == 2
    then (flush_iptables_user h (arg 1) (arg 0) >>= λ i.
        say i (codes "enabled") (codes "enable-error"))
    else if str_eq cmd (codes "status") && length args == 1
    then (status_iptables_user h (arg 0) >>= λ i. say i (codes "disabled") (codes "enabled"))
    else if str_eq cmd (codes "route-add") && length args == 3
    then (add_route n (arg 0) (arg 1) (arg 2) >>= λ i. say i (codes "ok") (codes "error"))
    else if str_eq cmd (codes "route-del") && length args == 3
    then (del_route n (arg 0) (arg 1) (arg 2) >>= λ i. say i (codes "ok") (codes "error"))
    else if str_eq cmd (codes "ip") && length args == 1
    then (ip_by_eth n no_ip (arg 0) >>= λ ip. emit (print (ip ++ b'\n' ∷ [])) >> pure 0)
    else pure 1

-- main, by argv[1] and what follows it.
unfoldable pub main : Host → Network → User → List Bytes → M ℕ
unfolding check_user run_command
main h n u [] = pure 1
main h n u (cmd ∷ args) =
    if not (check_user u)
    then (do emit (print (codes "denied")); pure 1)
    else run_command h n cmd args
