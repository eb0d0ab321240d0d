-- ===== src/TmixerAlsa/ControlId/Fuel.antt =====
-- The loop of parse_control_id comes to an end.
use tcos.Base.{
  ℕ, zero, suc, ◌≤◌, ◌≢◌, refl, arith, true, false, ◌==◌, Bool, Bool-cases, Option-cases, inl, inr,
  Bytes, List, [], ◌∷◌, Option, ℤ, length, drop, if◌then◌else◌,
}
use tcos.CText.Decimal.{atoi}
use tcos.Host.{Cause, int_overflow}
use tcos.TmixerAlsa.{
  Result, ok, einval, undefined, endless, ◌>>=◌, skip_blanks, skip_digits, break_at, to_int,
}
use tcos.TmixerAlsa.ControlId.{
  Setting, Step, add, read_number, read_numid, read_iface, put_name, read_name, read_setting,
  next_text, read_settings, parse_from, parse_control_id,
}

-- A step that comes to an end, and then leaves at most `n` bytes.
data Within (n : ℕ) : Step → Type 0 where
  left : (o : Option Setting) (rest : Bytes) → length rest ≤ n → Within n (ok (o, rest))
  refused : Within n einval
  unknown : (c : Cause) → Within n (undefined c)

Within-more : (k n : ℕ) (r : Step) → k ≤ n → Within k r → Within n r
Within-more k n _ le (Within.left o rest shorter) = Within.left o rest (omega arith)
Within-more k n _ le Within.refused = Within.refused
Within-more k n _ le (Within.unknown c) = Within.unknown c

skip_digits-shorter : (s : Bytes) → length (skip_digits s) ≤ length s
unfolding skip_digits
skip_digits-shorter [] = omega arith
skip_digits-shorter (c ∷ s) = ground (arith, skip_digits-shorter s)

drop-shorter : (n : ℕ) (s : Bytes) → length (drop n s) ≤ length s
drop-shorter zero s = omega arith
drop-shorter (suc n) [] = omega arith
drop-shorter (suc n) (c ∷ s) = omega (arith, drop-shorter n s)

break_at-shorter : (c : ℕ) (s : Bytes) → length ((break_at c s).1) ≤ length s
unfolding break_at
break_at-shorter c [] = omega arith
break_at-shorter c (d ∷ s) = elim (Bool-cases (d == c)) [
  | inl e ↦ rw e (omega arith)
  | inr e ↦ rw e (omega (arith, break_at-shorter c s))
]

Within-if :
    (n : ℕ) (b : Bool) (x y : Step) → Within n x → Within n y → Within n (if b then x else y)
Within-if n true x y hx hy = hx
Within-if n false x y hx hy = hy

Within-to_int :
    (n : ℕ) (s : Bytes) (f : ℤ → Step) → ((i : ℤ) → Within n (f i)) → Within n (to_int s >>= f)
unfolding to_int
Within-to_int n s f h = elim (Option-cases (atoi s)) [
  | inl e ↦ rw (e, to_int) (Within.unknown int_overflow)
  | inr (v, e) ↦ rw (e, to_int) (h v)
]

ruleset within_rules = (Within-if, Within-to_int, Within.left, Within.refused, Within.unknown)

module _ (n : ℕ) (str : Bytes) (le : length str ≤ n) where
  digits_left : length (skip_digits str) ≤ n
  digits_left = omega (arith, skip_digits-shorter str, le)

  read_number-Within : (set : ℤ → Setting) → Within n (read_number set str)
  unfolding read_number
  read_number-Within set = search (within_rules, digits_left)

  read_numid-Within : Within n (read_numid str)
  unfolding read_numid
  read_numid-Within = search (within_rules, read_number-Within)

  dropped : (k : ℕ) → length (drop k str) ≤ n
  dropped k = omega (arith, drop-shorter k str, le)

  read_iface-Within : Within n (read_iface str)
  unfolding read_iface
  read_iface-Within = search (within_rules, dropped) depth 12

  put_name-Within : Within n (put_name (break_at b',' str))
  unfolding put_name
  put_name-Within =
      let shorter : length ((break_at b',' str).1) ≤ n =
        omega (arith, break_at-shorter b',' str, le) in
      search (within_rules, shorter)

read_name-Within : (n : ℕ) (str : Bytes) → length str ≤ n → Within n (read_name str)
unfolding read_name
read_name-Within n [] le = Within.left _ _ le
read_name-Within n (c ∷ s) le = search (within_rules, put_name-Within n (c ∷ s) le)

read_setting-Within : (str : Bytes) → Within (length str) (read_setting str)
unfolding read_setting
read_setting-Within str =
    let le : length str ≤ length str = omega arith in
    search
      (
        within_rules, read_number-Within, read_numid-Within, read_iface-Within, read_name-Within,
        drop-shorter, le,
      )
      depth 12

ends_after :
    {A B : Type 0} (r : Result A) (f : A → Result B)
    → r ≢ endless
    → ((a : A) → f a ≢ endless)
    → (r >>= f) ≢ endless
ends_after (ok a) f h hf = hf a
ends_after einval f h hf = λ e. cc e
ends_after (undefined c) f h hf = λ e. cc e
ends_after endless f h hf = absurd (h refl)

-- A round of the loop, where the rounds that follow it come to an end.
module _ (fuel : ℕ) (ends : (s : Bytes) → length s ≤ fuel → read_settings fuel s ≢ endless) where
  after_step : Option Setting → Bytes → Result (List Setting)
  after_step o rest =
      next_text rest >>= λ str. read_settings fuel str >>= λ settings. ok (add o settings)

  after_step-ends :
      (o : Option Setting) (rest : Bytes) → length rest ≤ suc fuel → after_step o rest ≢ endless
  unfolding after_step next_text read_settings
  after_step-ends o [] le = λ e. cc e
  after_step-ends o (d ∷ str) le = elim (Bool-cases (d == b',')) [
    | inl e ↦
        rw e (ends_after (read_settings fuel str) _ (ends str (omega arith)) (λ settings k. cc k))
    | inr e ↦ rw e (λ k. cc k)
  ]

  step-ends : (r : Step) → Within (suc fuel) r → (r >>= λ (o, rest). after_step o rest) ≢ endless
  step-ends _ (Within.left o rest shorter) = after_step-ends o rest shorter
  step-ends _ Within.refused = λ e. cc e
  step-ends _ (Within.unknown cause) = λ e. cc e

read_settings-ends : (fuel : ℕ) (s : Bytes) → length s ≤ fuel → read_settings fuel s ≢ endless
unfolding read_settings after_step
read_settings-ends fuel [] le = λ e. cc e
read_settings-ends zero (c ∷ s) le = absurd (omega arith)
read_settings-ends (suc fuel) (c ∷ s) le =
    step-ends fuel (read_settings-ends fuel) (read_setting (c ∷ s))
      (Within-more _ _ _ le (read_setting-Within (c ∷ s)))

parse_from-ends : (s : Bytes) → parse_from s ≢ endless
unfolding parse_from
parse_from-ends [] = λ e. cc e
parse_from-ends (c ∷ s) =
    ends_after (read_settings (length (c ∷ s)) (c ∷ s)) _
      (read_settings-ends (length (c ∷ s)) (c ∷ s) (omega arith)) (λ settings k. cc k)

-- Every text is read in as many rounds as it has bytes: the parser returns identifiers or an error
-- for it, or has undefined behaviour, but does not go on for ever.
pub parse_control_id-ends : (str : Bytes) → parse_control_id str ≢ endless
unfolding parse_control_id
parse_control_id-ends str = parse_from-ends (skip_blanks str)
