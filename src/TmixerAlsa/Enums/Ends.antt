-- ===== src/TmixerAlsa/Enums/Ends.antt =====
-- The loop of sset_enum of tmixer/tmixer-alsa.c comes to an end, and sets items that exist.
use tcos.Base.{
  ℕ, zero, suc, ◌+◌, ◌≤◌, ◌<◌, ◌≡◌, arith, true, ◌||◌, ◌==◌, Bool-cases, Option-cases, inl, inr,
  Bytes, [], ◌∷◌, Option, none, some, drop, length, str_prefix,
}
use tcos.CText.Decimal.{is_space}
use tcos.Host.{Outcome, Trace, done, pure, ask, emit, M, ◌>>=◌}
use tcos.TmixerAlsa.Volumes.{Control}
use tcos.TmixerAlsa.Channels.{Check}
use tcos.TmixerAlsa.Enums.{
  is_item, find_item, get_enum_item_index, skip_separators, Items, stopped, endless, put_item, flag,
  set_items,
}

-- An item below `n`, that leaves at most `k` bytes behind its separators.
pub data Found (n k : ℕ) : Option (ℕ × Bytes) → Type 0 where
  nothing : Found n k none
  found :
      (i : ℕ) (rest : Bytes)
      → i < n
      → length (skip_separators rest) ≤ k
      → Found n k (some (i, rest))

skip_separators-shorter : (s : Bytes) → length (skip_separators s) ≤ length s
unfolding skip_separators
skip_separators-shorter [] = omega arith
skip_separators-shorter (c ∷ s) = ground (arith, skip_separators-shorter s)

drop-shorter : (n : ℕ) (s : Bytes) → length (drop n s) ≤ length s
drop-shorter zero s = omega arith
drop-shorter (suc n) [] = omega arith
drop-shorter (suc n) (c ∷ s) = omega (arith, drop-shorter n s)

item_rest :
    (b : ℕ) (p name : Bytes)
    → is_item (b ∷ p) name ≡ true
    → length (skip_separators (drop (length name) (b ∷ p))) ≤ length p
unfolding skip_separators is_space str_prefix
item_rest b p (d ∷ name) e =
    omega (arith, skip_separators-shorter (drop (length name) p), drop-shorter (length name) p)
item_rest b p [] e =
    let separates : (b == b',' || is_space b) ≡ true = ground (arith, e) in
    rw separates (skip_separators-shorter p)

find_item-Found :
    (c : Control) (b : ℕ) (p : Bytes) (n i : ℕ)
    → i + n ≤ c.enum_items
    → Found c.enum_items (length p) (find_item c (b ∷ p) n i)
unfolding find_item
find_item-Found c b p zero i le = Found.nothing
find_item-Found c b p (suc n) i le =
    let later = find_item-Found c b p n (i + 1) (omega arith) in
    elim (Option-cases (c.item_name i)) [
      | inl e ↦ rw (e, find_item) later
      | inr (name, e) ↦ elim (Bool-cases (is_item (b ∷ p) name)) [
        | inl stands ↦
            rw (e, find_item)
              (rw stands (Found.found i _ (omega arith) (item_rest b p name stands)))
        | inr other ↦ rw (e, find_item) (rw other later)
      ]
    ]

pub get_enum_item_index-Found :
    (c : Control) (b : ℕ) (p : Bytes)
    → Found c.enum_items (length p) (get_enum_item_index c (b ∷ p))
unfolding get_enum_item_index
get_enum_item_index-Found c b p = find_item-Found c b p c.enum_items 0 (omega arith)

-- Not out of fuel.
abbrev Ended : Outcome Items → Type 0
Ended (done endless u) = ⊥
Ended _ = Unit

-- What the loop does with an item, or without one.
module _ (c : Control) (fuel : ℕ) (check : Check)
    (ends : (ptr : Bytes) (found : Check) (t : Trace)
      → length ptr ≤ fuel
      → Ended (set_items c fuel ptr found t)) where
  item_ends :
      (k : ℕ) (o : Option (ℕ × Bytes)) (t : Trace)
      → Found c.enum_items k o
      → k ≤ fuel
      → Ended (
          (elim o as (λ _. M Items) [
            | none ↦ pure (stopped check)
            | some (ival, rest) ↦ put_item c ival >>= λ accepted.
                set_items c fuel (skip_separators rest) (flag accepted check)
          ])
            t)
  unfolding put_item ask emit pure
  item_ends k _ t Found.nothing le = tt
  item_ends k _ t (Found.found i rest below shorter) le =
      ends (skip_separators rest) _ _ (omega arith)

set_items-Ended :
    (c : Control) (fuel : ℕ) (ptr : Bytes) (check : Check) (t : Trace)
    → length ptr ≤ fuel
    → Ended (set_items c fuel ptr check t)
unfolding set_items pure
set_items-Ended c fuel [] check t le = tt
set_items-Ended c zero (b ∷ p) check t le = absurd (omega arith)
set_items-Ended c (suc fuel) (b ∷ p) check t le =
    item_ends c fuel check (set_items-Ended c fuel) (length p) (get_enum_item_index c (b ∷ p)) t
      (get_enum_item_index-Found c b p) (omega arith)

-- The loop over an argument ends in as many rounds as the argument has bytes.
set_items-ends :
    (c : Control) (arg : Bytes) (check : Check) (t : Trace)
    → Ended (set_items c (length arg) arg check t)
set_items-ends c arg check t = set_items-Ended c (length arg) arg check t (omega arith)
