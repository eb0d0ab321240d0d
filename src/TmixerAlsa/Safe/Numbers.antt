-- ===== src/TmixerAlsa/Safe/Numbers.antt =====
-- The numbers that get_integer of tmixer/tmixer-alsa.c reads lie in the range that it is given, and
-- the items that get_ctl_enum_item_index finds are there.
use tcos.Base.{
  ◌≡◌, ◌≤◌, ◌<◌, ◌+◌, ◌^◌, ℕ, zero, suc, ℤ, pos, negsuc, ltb_ℤ, refl, arith, ap, true, false, Bool,
  Bytes, Option, none, some, Bool-cases, Option-cases, inl, inr, if◌then◌else◌,
}
use native.Mathlib.Nat.{mod-eq_of_lt}
use tcos.TmixerAlsa.Allowed.{check_range-low, check_range-high}
use tcos.TmixerAlsa.Card.{ElementInfo}
use tcos.TmixerAlsa.Cset.{find_ctl_item, get_ctl_enum_item_index, unsigned, flag_of}
use tcos.TmixerAlsa.ControlId.{is_positive, to_signed}
use tcos.TmixerAlsa.Enums.{is_item}
use tcos.TmixerAlsa.Integers.{get_scaled}
use tcos.TmixerAlsa.Safe.{Within}

pub either-Within :
    (min max : ℤ) (b : Bool) (x y : ℤ × Bytes)
    → Within min max x.0
    → Within min max y.0
    → Within min max (if b then x else y).0
either-Within min max true x y hx hy = hx
either-Within min max false x y hx hy = hy

pub least-Within : (min max : ℤ) → ltb_ℤ max min ≡ false → Within min max min
least-Within (pos m) max proper = record { low = ground arith; high = proper }
least-Within (negsuc m) max proper = record { low = ground arith; high = proper }

pub get_scaled-Within :
    (strtol : Bytes → ℤ × Bytes) (percent : Bytes → ℤ → ℤ → ℤ) (no_check : Bool) (ptr : Bytes)
    (min max : ℤ)
    → no_check ≡ false
    → ltb_ℤ max min ≡ false
    → Within min max (get_scaled strtol percent no_check ptr min max).0
unfolding get_scaled
get_scaled-Within strtol percent no_check ptr min max checks proper =
    either-Within min max _ _ _ (least-Within min max proper) (record {
      low = check_range-low no_check _ min max proper checks;
      high = check_range-high no_check _ min max proper checks;
    })

pub flag_of-Within : (b : Bool) → Within (pos 0) (pos 1) (flag_of b)
flag_of-Within true = record { low = refl; high = refl }
flag_of-Within false = record { low = refl; high = refl }

-- A number up to `k` that fits an unsigned number of `w` bits keeps its value.
pub unsigned-Within :
    (w k : ℕ) (v : ℤ)
    → k < 2 ^ w
    → Within (pos 0) (pos k) v
    → (i : ℕ) × (unsigned w v ≡ pos i) × (i < k + 1)
unfolding unsigned
unsigned-Within w k (pos n) lt within =
    let le : n ≤ k = ground (arith, within.high) in
    (n, ap pos (mod-eq_of_lt (omega arith)), omega arith)
unsigned-Within w k (negsuc n) lt within = absurd (ground (arith, within.low))

-- The number of an item that was found.
pub data Below (k : ℕ) : Option (ℕ × Bytes) → Type 0 where
  nothing : Below k none
  found : (i : ℕ) (rest : Bytes) → i < k → Below k (some (i, rest))

find_ctl_item-Below :
    (info : ElementInfo) (ptr : Bytes) (n i k : ℕ)
    → i + n ≤ k
    → Below k (find_ctl_item info ptr n i)
unfolding find_ctl_item
find_ctl_item-Below info ptr zero i k le = Below.nothing
find_ctl_item-Below info ptr (suc n) i k le = elim (Option-cases (info.item_name i)) [
  | inl e ↦ rw (e, find_ctl_item) Below.nothing
  | inr (name, e) ↦ elim (Bool-cases (is_item ptr name)) [
    | inl m ↦ rw (e, m, find_ctl_item) (Below.found i _ (omega arith))
    | inr m ↦ rw (e, m, find_ctl_item) (find_ctl_item-Below info ptr n (i + 1) k (omega arith))
  ]
]

pub get_ctl_enum_item_index-Below :
    (info : ElementInfo) (ptr : Bytes) → Below info.items (get_ctl_enum_item_index info ptr)
unfolding get_ctl_enum_item_index
get_ctl_enum_item_index-Below info ptr = elim (Bool-cases (is_positive (to_signed info.items))) [
  | inl e ↦ rw e (find_ctl_item-Below info ptr info.items 0 info.items (omega arith))
  | inr e ↦ rw e Below.nothing
]
