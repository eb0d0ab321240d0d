-- ===== src/TmixerAlsa/Allowed.antt =====
-- Which volumes set_volume_simple of tmixer/tmixer-alsa.c sets.
use tcos.Base.{
  ◌<◌, ℕ, ◌≡◌, ℤ, ltb_ℤ, ◌+ℤ◌, Bool, true, false, ◌==◌, Bool-cases, Option-cases, inl, inr, arith,
  Bytes, [], ◌∷◌, Option, none, some, if◌then◌else◌,
}
use tcos.Host.{
  Trace, Event, ControlSide, VolType, vol_raw, vol_decibel, set_volume, set_switch, set_enum_item,
  M, pure, ask, deref, ◌>>=◌,
}
use tcos.Host.Emits.{
  Extends, Emits, emits_rules, Emits-bind, Emits-pure, Emits-if, Emits-seen, Emits-assoc,
}
use tcos.TmixerAlsa.Volumes.{
  Control, Pending, within, check_range, read_volume, read_unit, to_percent, to_decibel, to_long,
  opposite, relative, read_sign, put_volume, set_volume_simple, skip_one,
}

-- A volume from a range that the control reports for the side and the unit, an item that the
-- control has, or a switch.
pub data IsAllowed (c : Control) : Event → Type 0 where
  volume :
      (t : Trace) (dir : ControlSide) (vol_type : VolType) (chn : ℕ) (val pmin pmax : ℤ)
      → c.get_range t dir vol_type ≡ some (pmin, pmax)
      → ltb_ℤ val pmin ≡ false
      → ltb_ℤ pmax val ≡ false
      → IsAllowed c (set_volume dir vol_type chn val)
  item : (i : ℕ) → i < c.enum_items → IsAllowed c (set_enum_item 0 i)
  switch : (dir : ControlSide) (chn : ℕ) (value : Bool) → IsAllowed c (set_switch dir chn value)

-- The range of a volume is one that the control reports.
data IsReported (c : Control) (dir : ControlSide) : Option Pending → Type 0 where
  invalid : IsReported c dir none
  reported :
      (t : Trace) (v : Pending)
      → c.get_range t dir v.vol_type ≡ some (v.pmin, v.pmax)
      → IsReported c dir (some v)

-- The options ask for the check, and no range is empty.
pub record IsChecking (c : Control) : Type 0 where
  pub check : c.no_check ≡ false
  pub proper :
      (t : Trace) (dir : ControlSide) (vol_type : VolType) (pmin pmax : ℤ)
      → c.get_range t dir vol_type ≡ some (pmin, pmax)
      → ltb_ℤ pmax pmin ≡ false

module _ (no_check : Bool) (val min max : ℤ) (proper : ltb_ℤ max min ≡ false)
    (checks : no_check ≡ false) where
  pub check_range-low : ltb_ℤ (check_range no_check val min max) min ≡ false
  unfolding check_range
  check_range-low = rw checks (ground arith)

  pub check_range-high : ltb_ℤ max (check_range no_check val min max) ≡ false
  unfolding check_range
  check_range-high = rw checks (ground arith)

module _ (c : Control) (checking : IsChecking c) (dir : ControlSide) where
  within-IsReported :
      (t : Trace) (vol_type : VolType) (val : ℤ)
      → IsReported c dir (within vol_type val (c.get_range t dir vol_type))
  within-IsReported t vol_type val = elim (Option-cases (c.get_range t dir vol_type)) [
    | inl e ↦ rw e IsReported.invalid
    | inr (range, e) ↦ rw e (IsReported.reported t _ e)
  ]

  raw_range :
      (t : Trace) (val : ℤ)
      → IsReported c dir
          (within vol_raw val (if c.has_volume dir then c.get_range t dir vol_raw else none))
  raw_range t val = elim (Bool-cases (c.has_volume dir)) [
    | inl e ↦ rw e (within-IsReported t vol_raw val)
    | inr e ↦ rw e IsReported.invalid
  ]

  to_percent-IsReported :
      (s : Bytes) (v : Option Pending) → IsReported c dir v → IsReported c dir (to_percent c s v)
  unfolding to_percent
  to_percent-IsReported s _ IsReported.invalid = IsReported.invalid
  to_percent-IsReported s _ (IsReported.reported t v e) = IsReported.reported t _ e

  to_decibel-IsReported :
      (t : Trace) (s : Bytes) (v : Option Pending) → IsReported c dir (to_decibel c t dir s v)
  unfolding to_decibel
  to_decibel-IsReported t s none = IsReported.invalid
  to_decibel-IsReported t s (some v) = within-IsReported t vol_decibel (c.hundredths s)

  either-IsReported :
      (b : Bool) (x y : Option Pending × Bytes)
      → IsReported c dir (x.0)
      → IsReported c dir (y.0)
      → IsReported c dir ((if b then x else y).0)
  either-IsReported true x y hx hy = hx
  either-IsReported false x y hx hy = hy

  read_unit-IsReported :
      (t : Trace) (s p : Bytes) (v : Option Pending)
      → IsReported c dir v
      → IsReported c dir ((read_unit c t dir s v p).0)
  unfolding read_unit
  read_unit-IsReported t s [] v r = r
  read_unit-IsReported t s (b ∷ []) v r = either-IsReported _ _ _ (to_percent-IsReported s v r) r
  read_unit-IsReported t s (b ∷ d ∷ p) v r =
      either-IsReported _ _ _ (to_percent-IsReported s v r)
        (either-IsReported _ _ _ (to_decibel-IsReported t s v) r)

  checked_volume :
      (t : Trace) (chn : ℕ) (v : Pending)
      → c.get_range t dir v.vol_type ≡ some (v.pmin, v.pmax)
      → IsAllowed c (set_volume dir v.vol_type chn (check_range c.no_check v.val v.pmin v.pmax))
  checked_volume t chn v e =
      let proper = checking.proper t dir v.vol_type v.pmin v.pmax e in
      IsAllowed.volume t dir v.vol_type chn _ v.pmin v.pmax e
        (check_range-low c.no_check v.val v.pmin v.pmax proper checking.check)
        (check_range-high c.no_check v.val v.pmin v.pmax proper checking.check)

  put_volume-Allowed :
      (chn : ℕ) (v : Option Pending)
      → IsReported c dir v
      → Emits (IsAllowed c) (put_volume c dir chn v)
  unfolding put_volume
  put_volume-Allowed chn _ IsReported.invalid = search emits_rules
  put_volume-Allowed chn _ (IsReported.reported t v e) =
      search (emits_rules, checked_volume t chn v e)

  -- What follows a volume only has to be right for one with a reported range.
  module _ {B : Type 0} {P : Event → Type 0} (chn : ℕ) where
    relative-then :
        (sign : ℤ → ℤ) (v : Option Pending) (k : Option Pending → M B)
        → IsReported c dir v
        → ((w : Option Pending) → IsReported c dir w → Emits P (k w))
        → Emits P (relative c dir chn sign v >>= k)
    unfolding relative pure ask deref
    relative-then sign _ k IsReported.invalid h = record {
      at = λ t. (h none IsReported.invalid).at t;
    }
    relative-then sign _ k (IsReported.reported u v e) h = record {
      at = λ t. elim (Option-cases (c.get_volume t dir v.vol_type chn)) [
        | inl unread ↦ rw unread ((h none IsReported.invalid).at t)
        | inr (o, read) ↦ elim (Option-cases (to_long c.long_limit (o +ℤ sign v.val))) [
          | inl wide ↦ rw (read, wide) Extends.same
          | inr (val, fits) ↦ rw (read, fits) ((h (some _) (IsReported.reported u _ e)).at t)
        ]
      ];
    }

    read_sign-then :
        (v : Option Pending) (p : Bytes) (k : Option Pending × Bytes → M B)
        → IsReported c dir v
        → ((w : Option Pending) (q : Bytes) → IsReported c dir w → Emits P (k (w, q)))
        → Emits P (read_sign c dir chn v p >>= k)
    unfolding read_sign pure
    read_sign-then v [] k r h = record { at = λ t. (h v [] r).at t }
    read_sign-then v (b ∷ p) k r h = elim (Bool-cases (b == b'+')) [
      | inl e ↦ rw e (
          Emits-assoc _ k (relative c dir chn (λ val. val) v)
            (relative-then (λ val. val) v _ r (λ w s. record { at = λ t. (h w p s).at t })))
      | inr e ↦ elim (Bool-cases (b == b'-')) [
        | inl f ↦
            rw (e, f)
              (Emits-assoc _ k (relative c dir chn opposite v)
                (relative-then opposite v _ r (λ w s. record { at = λ t. (h w p s).at t })))
        | inr f ↦ rw (e, f) (record { at = λ t. (h v (b ∷ p) r).at t })
      ]
    ]

  pub set_volume_simple-Allowed :
      (chn : ℕ) (ptr : Bytes) → Emits (IsAllowed c) (set_volume_simple c dir chn ptr)
  unfolding set_volume_simple
  set_volume_simple-Allowed chn ptr =
      let s = skip_one b':' ptr in
      let (val, p) = read_volume c.strtol s in
      Emits-if _ _ _ (Emits-pure _) (
        Emits-seen _ _ (λ t. Emits-seen _ _ (λ u.
          let v =
            within vol_raw val (if c.has_volume dir then c.get_range t dir vol_raw else none) in
          read_sign-then chn ((read_unit c u dir s v p).0) ((read_unit c u dir s v p).1)
            (λ (w, q). put_volume c dir chn w >>= λ accepted. pure (accepted, skip_one b',' q))
            (read_unit-IsReported u s p v (raw_range t val))
            (λ w q r.
              Emits-bind (put_volume c dir chn w) (λ accepted. pure (accepted, skip_one b',' q))
                (put_volume-Allowed chn w r) (λ accepted. Emits-pure _)))))
