-- ===== src/NetController/Ports.antt =====
-- Which ports `check_port` of tnc/tcos-net-controller.c lets through.
use tcos.Base.{
  ℕ, ◌≤◌, ◌<◌, ◌≡◌, ◌≢◌, refl, arith, ◌↔◌, ℤ, pos, negsuc, true, false, Bytes, codes, [], ◌∷◌, ◌++◌,
  some, List, Bool, ◌||◌, ltb, ◌==◌, Bool-cases, inl, inr, ap, length, All, lt→ltb, if◌then◌else◌,
}
use mathlib.Core.List.{map}
use tcos.CText.{split}
use tcos.CText.Decimal.{atoi, print_int}
use tcos.CText.Decimal.RoundTrip.{Ends, IsInt, scan-print}
use tcos.Host.{Host, Trace, popen, done, pure, deref, run, sprintf}
use tcos.NetController.{
  blacklist_ports, int_eq, check_blacklist, check_port, port_command, block_ports, line_size,
}

-- A port that is to be let through.
pub record IsAllowed (v : ℤ) : Type 0 where
  pub number : ℕ
  pub positive : v ≡ pos number
  pub low : 1 ≤ number
  pub high : number ≤ 65535
  pub not_first : number ≢ 8998
  pub not_second : number ≢ 8999

atoi-print : (v : ℤ) (r : Bytes) → IsInt v → Ends r → atoi (print_int v ++ r) ≡ some v
unfolding atoi
atoi-print v r hv hr = rw (atoi, scan-print v r hv hr) refl

blacklist_tokens : split blacklist_ports (codes ",") ≡ codes "8998" ∷ codes "8999" ∷ []
unfolding split
blacklist_tokens = refl

check_blacklist-ports :
    (n : ℕ) (t : Trace)
    → check_blacklist (pos n) (split blacklist_ports (codes ",")) false t
      ≡ done (int_eq (pos n) (pos 8998) || int_eq (pos n) (pos 8999)) t
unfolding check_blacklist atoi deref pure
check_blacklist-ports n t = rw blacklist_tokens (ground arith)

-- The answer of check_port for a number.
unfoldable pub is_refused : ℤ → Bool
is_refused (pos n) = ltb 65535 n || (ltb n 1 || (n == 8998 || n == 8999))
is_refused (negsuc n) = true

check_port-print :
    (v : ℤ) (r : Bytes) (t : Trace)
    → IsInt v
    → Ends r
    → check_port (print_int v ++ r) t ≡ done (is_refused v) t
unfolding check_port deref pure is_refused int_eq
check_port-print (pos n) r t lt ends =
    rw (atoi-print (pos n) r lt ends) (elim (Bool-cases (ltb 65535 n)) [
      | inl big ↦ ground (arith, big)
      | inr fits ↦ elim (Bool-cases (ltb n 1)) [
        | inl z ↦ ground (arith, fits, z)
        | inr some_port ↦ ground (arith, fits, some_port, check_blacklist-ports n t)
      ]
    ])
check_port-print (negsuc n) r t lt ends = rw (atoi-print (negsuc n) r lt ends) (ground arith)

is_refused-IsAllowed : (v : ℤ) → (is_refused v ≡ false) ↔ IsAllowed v
unfolding is_refused
is_refused-IsAllowed (pos n) = (
  λ k. record {
    number = n;
    positive = refl;
    low = ground (arith, k);
    high = ground (arith, k);
    not_first = λ e. ground (arith, k, e);
    not_second = λ e. ground (arith, k, e);
  },
  λ a.
      let e : n ≡ a.number = cc a.positive in
      rw e (ground (arith, a.low, a.high, a.not_first, a.not_second)),
)
is_refused-IsAllowed (negsuc n) = (λ k. cc k, λ a. cc a.positive)

-- An int, negative or not, in front of any text that does not start with a digit is let through
-- exactly if it is from 1 to 65535 and neither 8998 nor 8999: what stands behind the number is not
-- looked at.
pub check_port_decides :
    (v : ℤ) (r : Bytes) (t : Trace)
    → IsInt v
    → Ends r
    → (check_port (print_int v ++ r) t ≡ done false t) ↔ IsAllowed v
check_port_decides v r t lt ends =
    rw (check_port-print v r t lt ends) (
      λ k. (is_refused-IsAllowed v).0 (cc k),
      λ a. ap (λ b. done b t) ((is_refused-IsAllowed v).1 a),
    )

-- A port as the command line gives it: a number, and what stands behind it.
abbrev pub port_text : ℤ × Bytes → Bytes
port_text (v, r) = print_int v ++ r

-- The number is an int and ends where the text behind it starts, and the command fits its buffer.
pub record IsPort (user : Bytes) (port : ℤ × Bytes) : Type 0 where
  pub fits_int : IsInt port.0
  pub ends : Ends port.1
  pub fits_line : length (port_command (port_text port) user) < line_size

-- One rule for each port that is not refused, the last one newest.
unfoldable pub port_rules : Bytes → List (ℤ × Bytes) → Trace → Trace
unfolding is_refused
port_rules user [] t = t
port_rules user (port ∷ ports) t =
    port_rules user ports
      (if is_refused port.0 then t else popen (port_command (port_text port) user) ∷ t)

-- For ports that start with an int, and whose commands fit the buffer, the loop adds one rule for
-- each allowed one, in their order. The whole text of a port stands in the command that the shell
-- runs, also what follows its number.
pub block_ports-adds :
    (h : Host) (user : Bytes) (ports : List (ℤ × Bytes)) (t : Trace)
    → All (IsPort user) ports
    → block_ports h (map port_text ports) user t ≡ done tt (port_rules user ports t)
unfolding block_ports port_rules sprintf run pure
block_ports-adds h user [] t ok = refl
block_ports-adds h user ((n, r) ∷ ports) t ok = elim (Bool-cases (is_refused n)) [
  | inl bad ↦
      rw (check_port-print n r t ok.0.fits_int ok.0.ends, bad)
        (block_ports-adds h user ports t ok.1)
  | inr good ↦
      rw (check_port-print n r t ok.0.fits_int ok.0.ends, good, lt→ltb _ _ ok.0.fits_line)
        (block_ports-adds h user ports _ ok.1)
]
