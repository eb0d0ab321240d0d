-- ===== src/TmixerAlsa/Safe/Values.antt =====
-- The values that cset of tmixer/tmixer-alsa.c reads fit the element.
use tcos.Base.{
  ◌≡◌, ◌∙◌, ◌≤◌, ◌<◌, ◌+◌, ◌-◌, ◌%◌, ◌^◌, ℕ, zero, suc, ℤ, pos, ltb_ℤ, refl, arith, ap, true, false,
  Bool, Bytes, List, [], ◌∷◌, ◌++◌, Option, none, some, All, All-append, length, length-append,
  get_or, if◌then◌else◌,
}
use tcos.Host.{Cause}
use tcos.TmixerAlsa.{Result, ok, einval, undefined, endless, to_int, has_prefix}
use tcos.TmixerAlsa
use tcos.TmixerAlsa.Card.{
  Card, ElementInfo, ElementType, boolean, integer, integer64, enumerated, bytes, iec958, other,
  Options,
}
use tcos.TmixerAlsa.Cset.{
  get_ctl_enum_item_index, unsigned, flag_of, above_zero, read_boolean, last_item, narrowed,
  read_value, next_value, read_values, rounds, given_values,
}
use tcos.TmixerAlsa.Integers.{get_integer, get_integer64}
use tcos.TmixerAlsa.Safe.Numbers.{
  get_scaled-Within, flag_of-Within, unsigned-Within, Below, get_ctl_enum_item_index-Below,
}
use tcos.TmixerAlsa.Safe.{Within, Fits}

-- No range is empty, an enumerated element has an item, and a long holds the values of an element.
abbrev pub Proper : Card → ElementInfo → ElementType → Type 0
Proper c info boolean = Unit {0}
Proper c info integer = ltb_ℤ info.max info.min ≡ false
Proper c info integer64 =
    (ltb_ℤ info.max info.min ≡ false) × ((v : ℤ) → Within info.min info.max v → c.to_long v ≡ v)
Proper c info enumerated =
    (0 < info.items)
    × (info.items < 2 ^ 32)
    × (c.to_long (pos (info.items - 1)) ≡ pos (info.items - 1))
Proper c info bytes = Unit {0}
Proper c info iec958 = Unit {0}
Proper c info other = Unit {0}

-- What holds of a result, if there is one.
pub data Yields {A : Type 0} (P : A → Type 0) : Result A → Type 0 where
  value : (a : A) → P a → Yields P (ok a)
  invalid : Yields P einval
  failing : (cause : Cause) → Yields P (undefined cause)
  looping : Yields P endless

Yields-bind :
    {A B : Type 0} {P : A → Type 0} {Q : B → Type 0} (r : Result A) (f : A → Result B)
    → Yields P r
    → ((a : A) → P a → Yields Q (f a))
    → Yields Q (TmixerAlsa.◌>>=◌ r f)
Yields-bind _ f (Yields.value a h) k = k a h
Yields-bind _ f Yields.invalid k = Yields.invalid
Yields-bind _ f (Yields.failing cause) k = Yields.failing cause
Yields-bind _ f Yields.looping k = Yields.looping

Yields-if :
    {A : Type 0} {P : A → Type 0} (b : Bool) (x y : Result A)
    → Yields P x
    → Yields P y
    → Yields P (if b then x else y)
Yields-if true x y hx hy = hx
Yields-if false x y hx hy = hy

-- A switch is read as 0 or 1, and the rest of the text does not matter.
abbrev OnOff : ℤ × Bytes → Type 0
OnOff r = Within (pos 0) (pos 1) r.0

flag-Yields : (b : Bool) (rest : Bytes) → Yields OnOff (ok (flag_of b, rest))
flag-Yields b rest = Yields.value (flag_of b, rest) (flag_of-Within b)

number-Yields :
    (r : Result ℤ) (rest : Bytes)
    → Yields OnOff (TmixerAlsa.◌>>=◌ r (λ v. ok (flag_of (above_zero v), rest)))
number-Yields (ok v) rest = flag-Yields (above_zero v) rest
number-Yields einval rest = Yields.invalid
number-Yields (undefined cause) rest = Yields.failing cause
number-Yields endless rest = Yields.looping

read_boolean-Fits : (current : ℤ) (ptr : Bytes) → Yields OnOff (read_boolean current ptr)
unfolding read_boolean
read_boolean-Fits current ptr =
    search (Yields-if, number-Yields, flag-Yields, flag-Yields true, flag-Yields false) depth 12

module _ (c : Card) (o : Options) (checks : o.no_check ≡ false) (info : ElementInfo) where
  get_integer-Within :
      (ptr : Bytes) (min max : ℤ)
      → ltb_ℤ max min ≡ false
      → Within min max (get_integer c o.no_check ptr min max).0
  unfolding get_integer
  get_integer-Within ptr min max proper =
      get_scaled-Within c.strtol c.percent o.no_check ptr min max checks proper

  get_integer64-Within :
      (ptr : Bytes)
      → Proper c info integer64
      → Within info.min info.max (get_integer64 c o.no_check ptr info.min info.max).0
  unfolding get_integer64
  get_integer64-Within ptr (proper, kept) =
      let within =
        get_scaled-Within c.strtol c.percent64 o.no_check ptr info.min info.max checks proper in
      rw (kept _ within) within

  last_item-Within :
      (ptr : Bytes)
      → Proper c info enumerated
      → (i : ℕ) × (unsigned 32 (get_integer c o.no_check ptr (pos 0) (last_item c info)).0 ≡ pos i)
        × (i < info.items)
  last_item-Within ptr (some_item, few, kept) =
      let last : last_item c info ≡ pos (info.items - 1) =
        ap (λ (n : ℕ). c.to_long (pos n)) (modulo info.items some_item few) ∙ kept in
      let within = get_integer-Within ptr (pos 0) (pos (info.items - 1)) (ground arith) in
      let (i, e, lt) =
        unsigned-Within 32 (info.items - 1)
          ((get_integer c o.no_check ptr (pos 0) (pos (info.items - 1))).0) (omega arith) within in
      (i, rw last e, omega arith)
    where
      modulo : (n : ℕ) → 0 < n → n < 2 ^ 32 → (n + (2 ^ 32 - 1)) % 2 ^ 32 ≡ n - 1
      modulo n h k = omega arith

  item-Fits :
      (ptr : Bytes) (o' : Option (ℕ × Bytes))
      → Proper c info enumerated
      → Below info.items o'
      → Yields
          (λ r. Fits info enumerated r.0)
          (elim o' [
            | none ↦ ok (narrowed 32 (get_integer c o.no_check ptr (pos 0) (last_item c info)))
            | some (i, rest) ↦ ok (pos i, rest)
          ])
  item-Fits ptr _ proper Below.nothing = Yields.value _ (last_item-Within ptr proper)
  item-Fits ptr _ proper (Below.found i rest lt) = Yields.value _ (i, refl, lt)

  read_value-Fits :
      (kind : ElementType) (current : ℤ) (ptr : Bytes)
      → Proper c info kind
      → current ≡ pos 0
      → Yields (λ r. Fits info kind r.0) (read_value c o info kind current ptr)
  unfolding read_value
  read_value-Fits boolean current ptr proper zeroed = read_boolean-Fits current ptr
  read_value-Fits integer current ptr proper zeroed =
      Yields.value _ (get_integer-Within ptr _ _ proper)
  read_value-Fits integer64 current ptr proper zeroed =
      Yields.value _ (get_integer64-Within ptr proper)
  read_value-Fits enumerated current ptr proper zeroed =
      item-Fits ptr (get_ctl_enum_item_index info ptr) proper
        (get_ctl_enum_item_index-Below info ptr)
  read_value-Fits bytes current ptr proper zeroed =
      Yields.value _
        (unsigned-Within 8 255 _ (omega arith) (get_integer-Within ptr (pos 0) (pos 255) refl))
  read_value-Fits iec958 current ptr proper zeroed = Yields.value _ zeroed
  read_value-Fits other current ptr proper zeroed = Yields.value _ zeroed

  -- As many values as the element has at most, all of which fit it.
  abbrev pub AreGood : List ℤ → Type 0
  AreGood values = (length values ≤ info.count) × All (Fits info info.element_type) values

  read_values-Good :
      (text : Bytes) (n : ℕ) (values : List ℤ) (ptr : Bytes)
      → Proper c info info.element_type
      → length values + n ≤ info.count
      → All (Fits info info.element_type) values
      → Yields AreGood (read_values c o info text n values ptr)
  unfolding read_values
  read_values-Good text zero values ptr proper le fits = Yields.value _ (omega arith, fits)
  read_values-Good text (suc n) values [] proper le fits = Yields.value _ (omega arith, fits)
  read_values-Good text (suc n) values (b ∷ ptr) proper le fits =
      Yields-bind _
        (λ (v, rest). read_values c o info text n (values ++ v ∷ []) (next_value text rest))
        (read_value-Fits info.element_type _ (b ∷ ptr) proper (behind values))
        (λ (v, rest) fit.
          read_values-Good text n (values ++ v ∷ []) (next_value text rest) proper
            (omega (arith, length-append values (v ∷ [])))
            (All-append (Fits info info.element_type) values (v ∷ []) fits (fit, tt)))
    where
      behind : (vs : List ℤ) → get_or vs (length vs) (pos 0) ≡ pos 0
      behind [] = refl
      behind (v ∷ vs) = behind vs

  pub given_values-Good :
      (args : List Bytes)
      → Proper c info info.element_type
      → Yields AreGood (given_values c o info args)
  unfolding given_values
  given_values-Good [] proper = Yields.value _ (omega arith, tt)
  given_values-Good (text ∷ more) proper =
      read_values-Good text (rounds info) [] text proper (ground arith) tt
