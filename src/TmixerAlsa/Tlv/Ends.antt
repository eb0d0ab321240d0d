-- ===== src/TmixerAlsa/Tlv/Ends.antt =====
-- decode_tlv of tmixer/tmixer-alsa.c has rounds enough: it shows a text, or runs behind its memory.
use tcos.Base.{
  ℕ, zero, suc, ◌+◌, ◌-◌, ◌/◌, ◌%◌, ◌^◌, ◌≤◌, ◌<◌, ◌≡◌, ◌≢◌, arith, Bool, true, false, Option-cases,
  inl, inr, [], ◌∷◌, Option, none, some, drop, length, get_elem?, if◌then◌else◌,
}
use tcos.Host.{Cause}
use tcos.TmixerAlsa.{Result, ok, einval, undefined, endless, ◌>>=◌}
use tcos.TmixerAlsa.Card.{Card, Memory}
use tcos.TmixerAlsa.Tlv.{
  word, dump, Nested, container, db_scale, db_linear, db_range, values, sized, decode, decode_tlv,
}

data Ends {A : Type 0} : Result A → Type 0 where
  value : (a : A) → Ends (ok a)
  invalid : Ends einval
  failing : (cause : Cause) → Ends (undefined cause)

Ends-bind :
    {A B : Type 0} (r : Result A) (f : A → Result B)
    → Ends r
    → ((a : A) → Ends (f a))
    → Ends (r >>= f)
Ends-bind _ f (Ends.value a) k = k a
Ends-bind _ f Ends.invalid k = Ends.invalid
Ends-bind _ f (Ends.failing cause) k = Ends.failing cause

Ends-if : {A : Type 0} (b : Bool) (x y : Result A) → Ends x → Ends y → Ends (if b then x else y)
Ends-if true x y hx hy = hx
Ends-if false x y hx hy = hy

word-Ends : (tlv : Memory) (i : ℕ) → Ends (word tlv i)
unfolding word
word-Ends tlv i = by_entry (get_elem? tlv i)
  where
    by_entry :
        (o : Option (Option ℕ))
        → Ends (elim o [
          | none ↦ undefined Cause.bad_pointer
          | some none ↦ undefined Cause.uninitialised
          | some (some w) ↦ ok w
        ])
    by_entry none = Ends.failing _
    by_entry (some none) = Ends.failing _
    by_entry (some (some w)) = Ends.value w

get_elem?-lt : (tlv : Memory) (i : ℕ) (w : Option ℕ) → get_elem? tlv i ≡ some w → i < length tlv
get_elem?-lt [] i w e = absurd (cc e)
get_elem?-lt (x ∷ tlv) zero w e = omega arith
get_elem?-lt (x ∷ tlv) (suc i) w e = omega (arith, get_elem?-lt tlv i w e)

-- What follows a word may use that the word is there.
word-then :
    {A : Type 0} (tlv : Memory) (i : ℕ) (k : ℕ → Result A)
    → ((w : ℕ) → i < length tlv → Ends (k w))
    → Ends (word tlv i >>= k)
unfolding word
word-then tlv i k h = elim (Option-cases (get_elem? tlv i)) [
  | inl e ↦ rw (e, word, ◌>>=◌) (Ends.failing _)
  | inr (none, e) ↦ rw (e, word, ◌>>=◌) (Ends.failing _)
  | inr (some w, e) ↦ rw (e, word, ◌>>=◌) (h w (get_elem?-lt tlv i (some w) e))
]

length-drop_le : (i : ℕ) (tlv : Memory) → length (drop i tlv) ≤ length tlv
length-drop_le zero tlv = omega arith
length-drop_le (suc i) [] = omega arith
length-drop_le (suc i) (w ∷ tlv) = omega (arith, length-drop_le i tlv)

length-drop_lt : (i : ℕ) (tlv : Memory) → 0 < i → i < length tlv → length (drop i tlv) < length tlv
length-drop_lt zero tlv pos lt = absurd (omega arith)
length-drop_lt (suc i) [] pos lt = absurd (omega arith)
length-drop_lt (suc i) (w ∷ tlv) pos lt = omega (arith, length-drop_le i tlv)

dump-Ends : (n : ℕ) (tlv : Memory) → Ends (dump n tlv)
unfolding dump
dump-Ends zero tlv = Ends.value _
dump-Ends (suc n) [] = Ends.failing _
dump-Ends (suc n) (none ∷ tlv) = Ends.failing _
dump-Ends (suc n) (some w ∷ tlv) =
    Ends-bind _ _ (dump-Ends ((suc n + (2 ^ 32 - 4)) % 2 ^ 32) tlv) (λ rest. Ends.value _)

ruleset ends_rules = (Ends-bind, Ends-if, Ends.value, word-Ends, dump-Ends)

db_scale-Ends : (tlv : Memory) (size : ℕ) → Ends (db_scale tlv size)
unfolding db_scale
db_scale-Ends tlv size = search ends_rules

db_linear-Ends : (c : Card) (tlv : Memory) (size : ℕ) → Ends (db_linear c tlv size)
unfolding db_linear
db_linear-Ends c tlv size = search ends_rules

module _ (nested : Nested) (tlv : Memory)
    (ends : (spaces : ℕ) (inner : Memory) (size : ℕ)
      → length inner < length tlv
      → Ends (nested spaces inner size)) where
  container-Ends :
      (spaces own size fuel i : ℕ)
      → 0 < i
      → 0 < fuel
      → length tlv ≤ i + fuel
      → Ends (container nested spaces tlv own size fuel i)
  unfolding container
  container-Ends spaces own size zero i pos some_fuel enough = absurd (omega arith)
  container-Ends spaces own size (suc fuel) i pos some_fuel enough =
      Ends-if _ _ _
        (word-then tlv (i + 1) _ (λ len there.
          let rest =
            container-Ends spaces own size fuel (i + (2 + (own + 3) / 4)) (omega arith)
              (omega arith) (omega arith) in
          Ends-if _ _ _ (Ends.value _) (
            Ends-bind _ _
              (ends (spaces + 2) (drop i tlv) len (length-drop_lt i tlv pos (omega arith)))
              (λ shown. Ends-bind _ _ rest (λ more. Ends.value _)))))
        (Ends.value _)

  db_range-Ends : (spaces size : ℕ) → Ends (db_range nested spaces tlv size)
  unfolding db_range
  db_range-Ends spaces size = Ends-if _ _ _ (dump-Ends size (drop 2 tlv)) (
      Ends-if _ _ _ (Ends.value _) (
        Ends-bind _ _ (word-Ends tlv 0) (λ least. word-then tlv 1 _ (λ most there.
          Ends-bind _ _ (ends (spaces + 4) (drop 2 tlv) 24 (shorter tlv there))
            (λ shown. Ends.value _)))))
    where
      shorter : (m : Memory) → 1 < length m → length (drop 2 m) < length m
      shorter [] lt = absurd (omega arith)
      shorter (w ∷ []) lt = absurd (omega arith)
      shorter (w ∷ v ∷ m) lt = omega arith

  values-Ends : (c : Card) (spaces kind size : ℕ) → Ends (values c nested spaces tlv kind size)
  unfolding values
  values-Ends c spaces kind size =
      let compound =
        container-Ends spaces size ((size + 3) / 4) (length tlv + 1) 2 (omega arith) (omega arith)
          (omega arith) in
      search (ends_rules, db_scale-Ends, db_linear-Ends, db_range-Ends) depth 12

  sized-Ends :
      (c : Card) (spaces kind size room : ℕ) → Ends (sized c nested spaces tlv kind size room)
  unfolding sized
  sized-Ends c spaces kind size room = search (ends_rules, values-Ends)

decode-Ends :
    (c : Card) (fuel spaces : ℕ) (tlv : Memory) (tlv_size : ℕ)
    → length tlv < fuel
    → Ends (decode c fuel spaces tlv tlv_size)
unfolding decode
decode-Ends c zero spaces tlv tlv_size lt = absurd (omega arith)
decode-Ends c (suc fuel) spaces tlv tlv_size lt = Ends-bind _ _ (word-Ends tlv 0) (λ kind.
    Ends-if _ _ _ (Ends.value _) (
      Ends-bind _ _ (word-Ends tlv 1) (λ size.
        sized-Ends (decode c fuel) tlv
          (λ inner_spaces inner n shorter. decode-Ends c fuel inner_spaces inner n (omega arith)) c
          spaces kind size (tlv_size - 8))))

Ends-ne-endless : {A : Type 0} (r : Result A) → Ends r → r ≢ endless
Ends-ne-endless _ (Ends.value a) e = cc e
Ends-ne-endless _ Ends.invalid e = cc e
Ends-ne-endless _ (Ends.failing cause) e = cc e

-- However elements stand in one another, the rounds that decode_tlv is given are enough: the
-- calls and the loops do not go round more often than there are words. A loop that runs behind the
-- words is undefined here, where the program goes on.
pub decode_tlv-ends :
    (c : Card) (spaces : ℕ) (tlv : Memory) (tlv_size : ℕ)
    → decode_tlv c spaces tlv tlv_size ≢ endless
unfolding decode_tlv
decode_tlv-ends c spaces tlv tlv_size =
    Ends-ne-endless _ (decode-Ends c (length tlv + 1) spaces tlv tlv_size (omega arith))
