-- ===== src/CText/Lines.antt =====
-- fgets on a stream that holds a whole line.
use tcos.Base.{
  ℕ, zero, suc, ◌+◌, ◌-◌, ◌≤◌, ◌<◌, some, Bytes, [], ◌∷◌, ◌++◌, ◌≡◌, ◌≢◌, refl, arith, All,
  All-append, length,
}
use tcos.CText.{until, take_line, fgets}

pub until-absent : (c : ℕ) (s : Bytes) → All (λ b. b ≢ c) s → until c s ≡ s
unfolding until
until-absent c [] h = refl
until-absent c (b ∷ s) h = ground (arith, until-absent c s h.1, h.0)

pub take_line-line :
    (n : ℕ) (s rest : Bytes)
    → All (λ c. c ≢ b'\n') s
    → length s < n
    → take_line n (s ++ b'\n' ∷ rest) ≡ s ++ b'\n' ∷ []
unfolding take_line
take_line-line zero s rest h lt = absurd (omega arith)
take_line-line (suc n) [] rest h lt = refl
take_line-line (suc n) (c ∷ s) rest h lt =
    ground (arith, take_line-line n s rest h.1 (omega arith), h.0)

fgets-filled :
    (n c : ℕ) (s line : Bytes)
    → take_line (n - 1) (c ∷ s) ≡ line
    → until 0 line ≡ line
    → fgets n (c ∷ s) ≡ some line
unfolding fgets
fgets-filled n c s line e u = rw (e, u)

pub fgets-line :
    (n : ℕ) (s rest : Bytes)
    → All (λ c. c ≢ b'\n') s
    → All (λ c. c ≢ 0) s
    → length s + 1 < n
    → fgets n (s ++ b'\n' ∷ rest) ≡ some (s ++ b'\n' ∷ [])
fgets-line n [] rest h hz lt =
    fgets-filled n b'\n' rest _ (take_line-line (n - 1) [] rest h (omega arith))
      (unfold until in refl)
fgets-line n (c ∷ s) rest h hz lt =
    fgets-filled n c (s ++ b'\n' ∷ rest) _ (take_line-line (n - 1) (c ∷ s) rest h (omega arith)) (
      until-absent 0 (c ∷ s ++ b'\n' ∷ [])
        (All-append (λ b. b ≢ 0) (c ∷ s) (b'\n' ∷ []) hz (omega arith, tt)))

pub take_line-text : (n : ℕ) (s : Bytes) → All (λ c. c ≢ b'\n') s → length s ≤ n → take_line n s ≡ s
unfolding take_line
take_line-text zero [] h le = refl
take_line-text zero (c ∷ s) h le = absurd (omega arith)
take_line-text (suc n) [] h le = refl
take_line-text (suc n) (c ∷ s) h le = ground (arith, take_line-text n s h.1 (omega arith), h.0)

-- fgets on a stream that holds less than a line.
pub fgets-text :
    (n c : ℕ) (s : Bytes)
    → All (λ b. b ≢ b'\n') (c ∷ s)
    → All (λ b. b ≢ 0) (c ∷ s)
    → length s + 1 < n
    → fgets n (c ∷ s) ≡ some (c ∷ s)
fgets-text n c s h hz lt =
    fgets-filled n c s _ (take_line-text (n - 1) (c ∷ s) h (omega arith))
      (until-absent 0 (c ∷ s) hz)
