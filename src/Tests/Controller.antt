-- ===== src/Tests/Controller.antt =====
-- The net controller: who may run it, a flush of two rules, and a route.
use tcos.Base.{
  inr, ℕ, ◌-◌, ◌≤◌, ◌<◌, pos, true, false, ◌≡◌, refl, Bytes, codes, List, [], ◌∷◌, some, none, Bool,
  arith, str_contains, str_eq, str_prefix, drop, length, if◌then◌else◌,
}
use tcos.CText.{fgets}
use tcos.CText.Decimal.{Scan, scan_int, int_limit, print_int, digits, is_digit}
use tcos.CText.Decimal.RoundTrip.{scan-print}
use tcos.Host.{Host, Trace, popen, done, ask, sprintf, run, deref, pure, delete_route, new_route}
use tcos.NetController.{
  count_command, delete_command, flush_iptables_user, status_iptables_user, flush_command, int_uid,
  line_size,
}
use tcos.NetController.Routes.{Network, IfAddr, add_route}
use tcos.NetController.Main.{User, main, run_command}
use tcos.NetController.Permission.{Any, Permitted, answer, main_decides}
use tcos.NetController.RouteFacts.{FirstAddress, route_of, add_route_replaces}
use tcos.NetController.Chain.{remove, without}
use tcos.NetController.Flush.{Iptables, IsListing, listing, flush-without}
use tcos.Tests.Fixtures.{machine}

abbrev eth : IfAddr
eth = record {
  ifa_name = codes "eth0";
  ifa_addr = some (record { is_inet = true; nameinfo = some (codes "10.0.0.2") });
}

abbrev tap : IfAddr
tap = record {
  ifa_name = codes "tap0";
  ifa_addr = some (record { is_inet = false; nameinfo = none });
}

abbrev network : Network
network = record {
  getifaddrs = λ t. some (tap ∷ eth ∷ []);
  inet_addr = length;
  has_socket = λ t. true;
  ioctl_ok = λ t e. true;
}

abbrev guest : User
guest = record { uid = 1000; euid = 0; groups = codes "audio" ∷ codes "tcos" ∷ [] }

guest-Permitted : Permitted guest
guest-Permitted = record { as_root = refl; member = inr (Any.there (Any.here refl)) }

main_decides_example :
    main machine network guest (codes "status" ∷ codes "root" ∷ []) []
    ≡ answer
        (yes guest-Permitted)
        (run_command machine network (codes "status") (codes "root" ∷ []))
        []
main_decides_example =
    main_decides machine network guest (codes "status") (codes "root" ∷ []) [] (yes guest-Permitted)

eth_first :
    FirstAddress
      (codes "eth0")
      (tap ∷ eth ∷ [])
      (some (record { is_inet = true; nameinfo = some (codes "10.0.0.2") }))
unfolding str_eq
eth_first =
    FirstAddress.skipped tap _ (eth ∷ []) refl refl (FirstAddress.found eth _ [] refl refl refl)

add_route_replaces_example :
    add_route network (codes "224.0.0.0") (codes "240.0.0.0") (codes "eth0") []
    ≡ done true (
        new_route (route_of network (codes "224.0.0.0") (codes "240.0.0.0") (codes "10.0.0.2"))
        ∷ delete_route (route_of network (codes "224.0.0.0") (codes "240.0.0.0") (codes "10.0.0.2"))
        ∷ [])
add_route_replaces_example =
    add_route_replaces network (codes "224.0.0.0") (codes "240.0.0.0") (codes "eth0")
      (codes "10.0.0.2") [] _ refl eth_first refl (λ e. cc e) refl

-- A machine with three rules, the first and the third for the user.
abbrev firewall : Host
firewall = record machine {
  popen_output = λ t cmd.
      if str_contains cmd (codes "count++")
      then some (codes "2\n")
      else some (listing (3 ∷ 1 ∷ []));
}

abbrev deletion : Bytes
deletion = codes "/sbin/iptables -D OUTPUT "

abbrev deleted_number : Scan → ℕ
deleted_number (Scan.int (pos n) r) = n
deleted_number _ = 0

-- The rules, as the commands of a trace leave them.
chain_from : Bool → ℕ → List Bytes → List Bytes
chain_from true n rules = remove (n - 1) rules
chain_from false n rules = rules

chain_after : Trace → List Bytes
unfolding chain_from str_prefix
chain_after [] = codes "guest" ∷ codes "root" ∷ codes "guest" ∷ []
chain_after (popen cmd ∷ t) =
    chain_from (str_prefix cmd deletion) (deleted_number (scan_int (drop (length deletion) cmd)))
      (chain_after t)
chain_after (e ∷ t) = chain_after t

deletes_one :
    (n : ℕ) (t : Trace)
    → 1 ≤ n
    → n < int_limit
    → chain_after (popen (delete_command (print_int (pos n))) ∷ t) ≡ remove (n - 1) (chain_after t)
unfolding chain_after delete_command
deletes_one n t low lt =
    rw (scan-print (pos n) (codes " 2>/dev/null") lt (unfold is_digit in refl)) refl

tables : Iptables Bytes
tables = record { chain = chain_after; deletes = deletes_one }

user_active :
    status_iptables_user firewall (codes "guest") []
    ≡ done true (popen (count_command (pos 0) (codes "guest")) ∷ [])
unfolding status_iptables_user count_command fgets str_contains str_eq ask sprintf run deref pure
    print_int digits
user_active = refl

flush_command-fits : length (flush_command (codes "no") (pos 0) (codes "guest")) < line_size
unfolding flush_command print_int digits str_eq
flush_command-fits = omega arith

lists_two :
    firewall.popen_output
      (popen (count_command (pos 0) (codes "guest")) ∷ [])
      (flush_command (codes "no") (pos 0) (codes "guest"))
    ≡ some (listing (3 ∷ 1 ∷ []))
unfolding flush_command str_contains str_eq print_int digits
lists_two = refl

two_rules : IsListing (3 ∷ 1 ∷ [])
unfolding print_int digits
two_rules = record {
  descending = omega arith;
  ints = omega arith;
  filled = λ e. cc e;
  fits = omega arith;
  few = omega arith;
}

flush-without_example :
    (u : Trace) × (flush_iptables_user firewall (codes "guest") (codes "--only-ports=no") []
      ≡ done true u)
    × (tables.chain u
        ≡ without 1 (3 ∷ 1 ∷ []) (
            tables.chain (
              popen (flush_command (codes "no") (pos 0) (codes "guest"))
              ∷ popen (count_command (pos 0) (codes "guest"))
              ∷ [])))
unfolding int_uid
flush-without_example =
    flush-without firewall tables (codes "guest") (codes "--only-ports=no") (3 ∷ 1 ∷ []) []
      (popen (count_command (pos 0) (codes "guest")) ∷ []) user_active (omega arith)
      flush_command-fits lists_two two_rules
