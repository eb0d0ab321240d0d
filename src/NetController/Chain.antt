-- ===== src/NetController/Chain.antt =====
-- Numbered rules, and taking several of them out of a chain.
use tcos.Base.{
  ℕ, zero, suc, ◌+◌, ◌≤◌, ◌<◌, ◌≡◌, refl, sym, ap, ◌∙◌, arith, Bool, true, false, ◌||◌, ◌==◌, List,
  [], ◌∷◌, All, if◌then◌else◌, Bool-cases, inl, inr,
}

module _ {A : Type 0} where
  abbrev pub remove : ℕ → List A → List A
  remove i [] = []
  remove zero (x ∷ xs) = xs
  remove (suc i) (x ∷ xs) = x ∷ remove i xs

abbrev pub has : ℕ → List ℕ → Bool
has i [] = false
has i (n ∷ ns) = n == i || has i ns

module _ {A : Type 0} where
  -- The elements whose number is not listed; the first has the number `i`.
  pub without : ℕ → List ℕ → List A → List A
  without i ns [] = []
  without i ns (x ∷ xs) = let rest = without (i + 1) ns xs in if has i ns then rest else x ∷ rest

-- Each number is from 1 and above those behind it.
abbrev pub Descending : List ℕ → Type 0
Descending [] = Unit
Descending (n ∷ ns) = (1 ≤ n) × All (λ m. m < n) ns × Descending ns

has-below : (i : ℕ) (ns : List ℕ) → All (λ m. m < i) ns → has i ns ≡ false
has-below i [] h = refl
has-below i (n ∷ ns) (p, h) = ground (arith, has-below i ns h)

All-below_suc : (i : ℕ) (ns : List ℕ) → All (λ m. m < i) ns → All (λ m. m < i + 1) ns
All-below_suc i [] h = tt
All-below_suc i (n ∷ ns) (p, h) = (omega arith, All-below_suc i ns h)

module _ {A : Type 0} where
  pub without-below : (i : ℕ) (ns : List ℕ) (c : List A) → All (λ m. m < i) ns → without i ns c ≡ c
  unfolding without
  without-below i ns [] h = refl
  without-below i ns (x ∷ xs) h =
      rw (has-below i ns h) (ap (λ r. x ∷ r) (without-below (i + 1) ns xs (All-below_suc i ns h)))

  -- The highest number can be taken out first.
  pub without-remove :
      (n i d : ℕ) (ns : List ℕ) (c : List A)
      → n ≡ i + d
      → All (λ m. m < n) ns
      → without i (n ∷ ns) c ≡ without i ns (remove d c)
  unfolding without
  without-remove n i d ns [] e h = refl
  without-remove n i zero ns (x ∷ xs) e h =
      let same : n ≡ i = omega arith in
      let test : (n == i) ≡ true = ground arith in
      let below : All (λ m. m < i) ns = rw same at h in
      rw test (
        without-below (i + 1) (n ∷ ns) xs (omega arith, All-below_suc i ns below)
        ∙ sym (without-below i ns xs below))
  without-remove n i (suc d) ns (x ∷ xs) e h =
      let test : (n == i) ≡ false = ground arith in
      let rest = without-remove n (i + 1) d ns xs (omega arith) h in
      elim (Bool-cases (has i ns)) [
        | inl b ↦ rw (test, b) rest
        | inr b ↦ rw (test, b) (ap (λ r. x ∷ r) rest)
      ]
