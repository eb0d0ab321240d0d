-- ===== src/Tests/Rules.antt =====
-- Ports on the command line of the net controller.
use tcos.Base.{ℤ, pos, negsuc, codes, [], ◌∷◌, ◌++◌, ◌≡◌, ◌↔◌, refl, false, Bytes, arith, List, All}
use mathlib.Core.List.{map}
use tcos.CText.Decimal.{print_int, digits, is_digit}
use tcos.Host.{done, popen}
use tcos.NetController.{check_port, block_ports, port_command}
use tcos.NetController.Ports.{
  IsAllowed, IsPort, port_text, port_rules, is_refused, check_port_decides, block_ports-adds,
}
use tcos.Tests.Fixtures.{machine}

check_port_decides_example :
    (check_port (print_int (pos 80) ++ codes "; reboot") [] ≡ done false []) ↔ IsAllowed (pos 80)
unfolding is_digit
check_port_decides_example = check_port_decides (pos 80) (codes "; reboot") [] (omega arith) refl

-- A number below zero, and a port on the black list.
abbrev ports : List (ℤ × Bytes)
ports = (pos 80, codes "; reboot") ∷ (negsuc 79, []) ∷ (pos 8998, []) ∷ []

ports-IsPort : All (IsPort (codes "guest")) ports
unfolding is_digit port_command print_int digits
ports-IsPort = (
  record { fits_int = omega arith; ends = refl; fits_line = omega arith },
  (
    record { fits_int = omega arith; ends = tt; fits_line = omega arith },
    (record { fits_int = omega arith; ends = tt; fits_line = omega arith }, tt),
  ),
)

block_ports-adds_example :
    block_ports machine (map port_text ports) (codes "guest") []
    ≡ done tt (port_rules (codes "guest") ports [])
block_ports-adds_example = block_ports-adds machine (codes "guest") ports [] ports-IsPort

one_rule :
    port_rules (codes "guest") ports []
    ≡ popen (
        codes
          "/sbin/iptables -A OUTPUT -p tcp --dport 80; reboot -m owner --uid-owner guest -m comment --comment TCOS_TNC -j DROP 2>/dev/null")
      ∷ []
unfolding port_rules is_refused port_command print_int digits
one_rule = refl
