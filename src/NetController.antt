-- ===== src/NetController.antt =====
-- tnc/tcos-net-controller.c, the part that blocks a user's network: rules of iptables that carry
-- the comment TCOS_TNC. The program runs as root and builds its commands with sprintf.
pub mod Ports
pub mod Routes
pub mod Main
pub mod Permission
pub mod RouteFacts
pub mod Chain
pub mod Flush
use tcos.Base.{
  ℕ, zero, suc, ◌-◌, ◌^◌, ℤ, pos, negsuc, Bool, true, false, ◌||◌, not, Bytes, codes, List, [], ◌∷◌,
  ◌++◌, Option, none, some, length, drop, ◌==◌, ltb, ltb_ℤ, if◌then◌else◌, str_eq, str_contains,
}
use tcos.CText.{fgets, split}
use tcos.CText.Decimal.{atoi, print_int}
use tcos.Host.{
  Host, M, null_pointer, bad_pointer, uninitialised, int_overflow, undef, pure, ask, run, deref,
  sprintf, ◌>>=◌, ◌>>◌,
}

abbrev pub iptables : Bytes
iptables = codes "/sbin/iptables"

abbrev pub devnull : Bytes
devnull = codes "2>/dev/null"

abbrev pub blacklist_ports : Bytes
blacklist_ports = codes "8998,8999"

abbrev pub line_size : ℕ
line_size = 1024

-- a == b on ints.
unfoldable pub int_eq : ℤ → ℤ → Bool
int_eq (pos a) (pos b) = a == b
int_eq (negsuc a) (negsuc b) = a == b
int_eq _ _ = false

-- The loop of check_port over the tokens, from the value of `i` so far.
unfoldable pub check_blacklist : ℤ → List Bytes → Bool → M Bool
unfolding int_eq
check_blacklist port [] i = pure i
check_blacklist port (tok ∷ toks) i = do
  blocked ← deref int_overflow (atoi tok)
  check_blacklist port toks (if int_eq port blocked then true else i)

-- check_port(port) != 0: the port is refused.
unfoldable pub check_port : Bytes → M Bool
unfolding check_blacklist
check_port port = do
  n ← deref int_overflow (atoi port)
  if ltb_ℤ (pos 65535) n || ltb_ℤ n (pos 1)
      then pure true
      else check_blacklist n (split blacklist_ports (codes ",")) false

-- (int)get_uid(user): 0 for an unknown user.
unfoldable pub int_uid : Option ℕ → ℤ
int_uid none = pos 0
int_uid (some uid) = if ltb uid (2 ^ 31) then pos uid else negsuc (2 ^ 32 - uid - 1)

-- line[strlen(line) - 1] = 0, if a line break stands there.
unfoldable pub chop_break : Bytes → Bytes
chop_break [] = []
chop_break (c ∷ []) = if c == b'\n' then [] else c ∷ []
chop_break (c ∷ d ∷ s) = c ∷ chop_break (d ∷ s)

-- An empty line has no last byte.
unfoldable pub chopped : Bytes → M Bytes
unfolding chop_break
chopped [] = undef bad_pointer
chopped (c ∷ s) = pure (chop_break (c ∷ s))

-- The first line of a stream, into a buffer that holds nothing yet.
unfoldable pub first_line : Bytes → M Bytes
unfolding chopped
first_line out = do line ← deref uninitialised (fgets line_size out); chopped line

unfoldable pub list_rules : Bytes → Bytes → Bytes → Bytes
list_rules awk_start matching awk_end =
    iptables
    ++ (codes " -L OUTPUT --line-numbers -n "
        ++ (devnull ++ (codes " | grep TCOS_TNC | awk '" ++ (awk_start ++ (matching ++ awk_end)))))

-- The rules of a user are found by number or by name.
unfoldable pub of_user : ℤ → Bytes → Bytes
of_user uid user =
    codes "$(NF-3) == " ++ (print_int uid ++ (codes " || $(NF-3) == \"" ++ (user ++ codes "\"")))

unfoldable pub count_command : ℤ → Bytes → Bytes
unfolding list_rules of_user
count_command uid user =
    list_rules (codes "BEGIN{count=0}{if (") (of_user uid user)
      (codes ") count++}END{print count}'")

-- status_iptables_user != 0: some rule holds for the user.
unfoldable pub status_iptables_user : Host → Bytes → M Bool
unfolding count_command int_uid first_line
status_iptables_user h user = do
  uid ← ask (λ t. h.pw_uid t user)
  cmd ← sprintf line_size (count_command (int_uid uid) user)
  fp ← run h cmd
  elim fp as (λ _. M Bool) [
    | none ↦ pure false
    | some out ↦ first_line out >>= λ line. pure (if str_eq line (codes "0") then false else true)
  ]

-- substring, what stands behind "--only-ports="; a shorter argument is read past its end.
unfoldable pub only_ports : Bytes → M Bytes
only_ports arg = if ltb (length arg) 13 then undef bad_pointer else pure (drop 13 arg)

unfoldable pub flush_command : Bytes → ℤ → Bytes → Bytes
unfolding list_rules of_user
flush_command only uid user =
    if str_eq only (codes "no")
    then list_rules (codes "{if (") (of_user uid user)
        (codes ") print $1}' | tac | tr \"\\n\" \" \"")
    else list_rules (codes "{if ((") (of_user uid user)
        (codes ")  && ($3 == \"tcp\")) print $1}' | tac | tr \"\\n\" \" \"")

unfoldable pub delete_command : Bytes → Bytes
delete_command number = iptables ++ (codes " -D OUTPUT " ++ (number ++ (codes " " ++ devnull)))

unfoldable pub delete_rules : Host → List Bytes → M (Unit {0})
unfolding delete_command
delete_rules h [] = pure tt
delete_rules h (number ∷ numbers) = do
  cmd ← sprintf line_size (delete_command number)
  run h cmd
  delete_rules h numbers

unfoldable pub delete_listed : Host → Option Bytes → M Bool
unfolding first_line delete_rules
delete_listed h none = pure false
delete_listed h (some out) = do
  line ← first_line out
  delete_rules h (split line (codes " "))
  pure true

-- flush_iptables_user != 0
unfoldable pub flush_iptables_user : Host → Bytes → Bytes → M Bool
unfolding status_iptables_user only_ports flush_command delete_listed
flush_iptables_user h user only = do
  active ← status_iptables_user h user
  if not active then pure true else do
    substring ← only_ports only
    uid ← ask (λ t. h.pw_uid t user)
    cmd ← sprintf line_size (flush_command substring (int_uid uid) user)
    fp ← run h cmd
    delete_listed h fp

unfoldable pub port_command : Bytes → Bytes → Bytes
port_command port user =
    iptables
    ++ (codes " -A OUTPUT -p tcp --dport "
        ++ (port
            ++ (codes " -m owner --uid-owner "
                ++ (user ++ (codes " -m comment --comment TCOS_TNC -j DROP " ++ devnull)))))

-- The rules for the ports, and whether the loop ran at all.
unfoldable pub block_ports : Host → List Bytes → Bytes → M (Unit {0})
unfolding check_port port_command
block_ports h [] user = pure tt
block_ports h (port ∷ ports) user = do
  refused ← check_port port
  if refused
      then pure tt
      else do cmd ← sprintf line_size (port_command port user); run h cmd; pure tt
  block_ports h ports user

-- "--ports=" may stand anywhere in the argument; the list starts at its ninth byte.
unfoldable pub block_listed : Host → Bytes → Bytes → M Bool
unfolding block_ports
block_listed h ports user =
    if str_contains ports (codes "--ports=")
    then (block_ports h (split (drop 8 ports) (codes ",")) user >> pure true)
    else pure false

unfoldable pub loopback_command : Bytes → Bytes
loopback_command user =
    iptables
    ++ (codes " -A OUTPUT -d 127.0.0.0/8 -m owner --uid-owner "
        ++ (user ++ (codes " -m comment --comment TCOS_TNC -j ACCEPT " ++ devnull)))

unfoldable pub drop_command : Bytes → Bytes → Bytes
drop_command dirred user =
    iptables
    ++ (codes " -A OUTPUT ! -d "
        ++ (dirred
            ++ (codes " -m owner --uid-owner "
                ++ (user ++ (codes " -m comment --comment TCOS_TNC -j DROP " ++ devnull)))))

unfoldable pub drop_output : Host → Bytes → Bytes → Option Bytes → M Bool
unfolding drop_command
drop_output h dirred user none = pure false
drop_output h dirred user (some out) = do
  cmd ← sprintf line_size (drop_command dirred user)
  fp ← run h cmd
  elim fp as (λ _. M Bool) [ none ↦ pure false | some text ↦ pure true ]

-- The loopback stays open, the rest of the world outside the own network is closed.
unfoldable pub block_output : Host → Bytes → Bytes → M Bool
unfolding loopback_command drop_output
block_output h dirred user = do
  cmd ← sprintf line_size (loopback_command user)
  fp ← run h cmd
  drop_output h dirred user fp

unfoldable pub network_command : Bytes → Bytes
network_command iface =
    codes "ip route "
    ++ (devnull ++ (codes " | awk '/kernel/ {if ($3 == \"" ++ (iface ++ codes "\") print $1}'")))

-- Behind the question for the network, whose answer is `dirred`.
unfoldable pub add_rules : Host → Bytes → Bytes → Bytes → Option Bytes → M Bool
unfolding first_line block_listed only_ports block_output
add_rules h only ports user none = pure false
add_rules h only ports user (some out) = do
  dirred ← first_line out
  listed ← block_listed h ports user
  substring ← only_ports only
  if str_eq substring (codes "no") then block_output h dirred user else pure listed

-- add_iptables_user != 0; the arguments are args[2], args[3], args[4] and args[5].
unfoldable pub add_iptables_user : Host → Bytes → Bytes → Bytes → Bytes → M Bool
unfolding flush_iptables_user network_command add_rules
add_iptables_user h only ports iface user = do
  flush_iptables_user h user only
  cmd ← sprintf line_size (network_command iface)
  fp ← run h cmd
  add_rules h only ports user fp
