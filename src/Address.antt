-- ===== src/Address.antt =====
-- `check_ip_address` of xmlrpc/common.c: the text is read by sscanf with "%d.%d.%d.%d", printed
-- again, and compared with what was printed.
pub mod Canonical
use tcos.Base.{
  ℕ, zero, suc, ◌-◌, ◌%◌, ◌^◌, ℤ, pos, negsuc, ltb, Bool, Option, none, some, Bytes, List, [], ◌∷◌,
  ◌++◌, ◌==◌, str_eq, get_or, get_elem?, if◌then◌else◌,
}
use tcos.CText.{snprintf}
use tcos.CText.Decimal.{Scan, int_limit, mismatch, overflow, int, print_int, scan_int}
use tcos.Host.{Host, M, Cause, int_overflow, deref, pure, ◌>>=◌}

-- The literal '.' of the format.
unfoldable pub after_dot : Bytes → Option Bytes
after_dot [] = none
after_dot (c ∷ s) = if c == b'.' then some s else none

-- The values that sscanf stores, at most `n`: it stops where the text does not fit the format.
-- `none` is a number that is no int.
unfoldable pub scan_ints : ℕ → Bytes → Option (List ℤ)
scan_ints zero s = some []
scan_ints (suc n) s = elim (scan_int s) [
  | mismatch ↦ some []
  | overflow ↦ none
  | int v r ↦ elim (after_dot r) [
    | none ↦ some (v ∷ [])
    | some s' ↦ elim (scan_ints n s') [ none ↦ none | some vs ↦ some (v ∷ vs) ]
  ]
]

pub record IpAddress : Type 0 where
  pub is_ip : Bool
  pub ipstr : Bytes

abbrev pub ip_lenght : ℕ
ip_lenght = 1024

unfoldable pub print_ip : ℤ → ℤ → ℤ → ℤ → Bytes
print_ip a b c d = print_int a ++ b'.' ∷ (print_int b ++ b'.' ∷ (print_int c ++ b'.' ∷ print_int d))

-- A word of memory as an int.
unfoldable pub word_int : ℕ → ℤ
word_int n = let w = n % 2 ^ 32 in if ltb w int_limit then pos w else negsuc (2 ^ 32 - 1 - w)

-- ip.data[i], which holds what was there before if sscanf stored nothing.
unfoldable pub member : Host → List ℤ → ℕ → ℤ
unfolding word_int
member h vs i = elim (get_elem? vs i) [ none ↦ word_int (h.junk i) | some v ↦ v ]

unfoldable pub describe : Host → Bytes → List ℤ → IpAddress
unfolding print_ip member
describe h text vs =
    let ipstr =
      snprintf ip_lenght
        (print_ip (member h vs 0) (member h vs 1) (member h vs 2) (member h vs 3)) in
    record { is_ip = str_eq text ipstr; ipstr = ipstr }

unfoldable pub check_ip_address : Host → Bytes → M IpAddress
unfolding describe
check_ip_address h text = do vs ← deref int_overflow (scan_ints 4 text); pure (describe h text vs)
