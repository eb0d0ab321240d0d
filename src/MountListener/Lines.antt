-- ===== src/MountListener/Lines.antt =====
-- The lines that a loop of fgets reads from a file.
use tcos.Base.{
  ℕ, zero, suc, ◌+◌, ◌-◌, ◌<◌, ◌≤◌, ◌∙◌, ap, some, length-append, ◌≡◌, ◌≢◌, refl, arith, Bytes,
  List, [], ◌∷◌, ◌++◌, length, drop, All, ◌==◌, Bool-cases, inl, inr,
}
use tcos.CText.{take_line, fgets}
use mathlib.Core.List.{map}
use tcos.CText.Lines.{until-absent, take_line-line, fgets-line}
use tcos.MountListener.{msg_buff, after_fgets, read_lines, file_lines, getnumlines}

-- The lines behind each other.
abbrev pub joined : List Bytes → Bytes
joined [] = []
joined (l ∷ ls) = l ++ joined ls

take_line-drop : (n : ℕ) (s : Bytes) → take_line n s ++ drop (length (take_line n s)) s ≡ s
unfolding take_line
take_line-drop zero s = refl
take_line-drop (suc n) [] = refl
take_line-drop (suc n) (c ∷ s) = ground (arith, take_line-drop n s)

take_line-plain : (n : ℕ) (s : Bytes) → All (λ c. c ≢ 0) s → All (λ c. c ≢ 0) (take_line n s)
unfolding take_line
take_line-plain zero s h = tt
take_line-plain (suc n) [] h = tt
take_line-plain (suc n) (c ∷ s) h = ground (arith, take_line-plain n s h.1, h.0)

drop-plain : (n : ℕ) (s : Bytes) → All (λ c. c ≢ 0) s → All (λ c. c ≢ 0) (drop n s)
drop-plain zero s h = h
drop-plain (suc n) [] h = tt
drop-plain (suc n) (c ∷ s) h = drop-plain n s h.1

length-drop_le : (n : ℕ) (s : Bytes) → length (drop n s) ≤ length s
length-drop_le zero s = omega arith
length-drop_le (suc n) [] = omega arith
length-drop_le (suc n) (c ∷ s) = omega (arith, length-drop_le n s)

-- Something is read from a stream that is not at its end.
after_fgets-shorter :
    (size c : ℕ) (s : Bytes) → 2 ≤ size → length (after_fgets size (c ∷ s)) ≤ length s
unfolding after_fgets take_line
after_fgets-shorter size c s le = go (size - 1) (omega arith)
  where
    go : (n : ℕ) → 1 ≤ n → length (drop (length (take_line n (c ∷ s))) (c ∷ s)) ≤ length s
    go zero h = absurd (omega arith)
    go (suc n) h = elim (Bool-cases (c == b'\n')) [
      | inl e ↦ rw e (omega arith)
      | inr e ↦ rw e (length-drop_le (length (take_line n s)) s)
    ]

read_lines-joined :
    (fuel size : ℕ) (s : Bytes)
    → 2 ≤ size
    → All (λ c. c ≢ 0) s
    → length s ≤ fuel
    → joined (read_lines fuel size s) ≡ s
unfolding read_lines fgets
read_lines-joined zero size [] le h fits = refl
read_lines-joined zero size (c ∷ s) le h fits = absurd (omega arith)
read_lines-joined (suc fuel) size [] le h fits = refl
read_lines-joined (suc fuel) size (c ∷ s) le h fits =
    let plain = take_line-plain (size - 1) (c ∷ s) h in
    let rest =
      read_lines-joined fuel size (after_fgets size (c ∷ s)) le
        (unfold after_fgets in drop-plain (length (take_line (size - 1) (c ∷ s))) (c ∷ s) h)
        (omega (arith, after_fgets-shorter size c s le)) in
    rw (until-absent 0 (take_line (size - 1) (c ∷ s)) plain, rest)
      (unfold after_fgets in take_line-drop (size - 1) (c ∷ s))

-- The lines of a file without NUL are the whole file, so the loop reads to its end.
pub file_lines-joined : (s : Bytes) → All (λ c. c ≢ 0) s → joined (file_lines s) ≡ s
unfolding file_lines
file_lines-joined s h = read_lines-joined (length s) msg_buff s (omega arith) h (omega arith)

-- A file of lines that end with a line break each.
unfoldable pub file_of : List Bytes → Bytes
file_of [] = []
file_of (l ∷ ls) = l ++ b'\n' ∷ file_of ls

abbrev pub with_break : Bytes → Bytes
with_break l = l ++ b'\n' ∷ []

-- A line without its line break, that fits a buffer with it.
pub record IsLine (size : ℕ) (l : Bytes) : Type 0 where
  pub unbroken : All (λ c. c ≢ b'\n') l
  pub plain : All (λ c. c ≢ 0) l
  pub short : length l + 1 < size

drop-line : (l rest : Bytes) → drop (length (with_break l)) (l ++ b'\n' ∷ rest) ≡ rest
drop-line [] rest = refl
drop-line (c ∷ l) rest = drop-line l rest

after_fgets-line :
    (size : ℕ) (l rest : Bytes) → IsLine size l → after_fgets size (l ++ b'\n' ∷ rest) ≡ rest
unfolding after_fgets
after_fgets-line size l rest is =
    rw (take_line-line (size - 1) l rest is.unbroken (omega (arith, is.short))) (drop-line l rest)

pub read_lines-file_of :
    (size fuel : ℕ) (ls : List Bytes)
    → All (IsLine size) ls
    → length (file_of ls) ≤ fuel
    → read_lines fuel size (file_of ls) ≡ map with_break ls
unfolding read_lines file_of
read_lines-file_of size zero [] h le = refl
read_lines-file_of size (suc fuel) [] h le = unfold fgets in refl
read_lines-file_of size zero (l ∷ ls) h le =
    absurd (omega (arith, length-append l (b'\n' ∷ file_of ls)))
read_lines-file_of size (suc fuel) (l ∷ ls) h le =
    let read = fgets-line size l (file_of ls) h.0.unbroken h.0.plain h.0.short in
    let rest =
      read_lines-file_of size fuel ls h.1 (omega (arith, length-append l (b'\n' ∷ file_of ls))) in
    rw (read, read_lines)
      (rw (after_fgets-line size l (file_of ls) h.0) (ap (λ more. with_break l ∷ more) rest))

length-map : (ls : List Bytes) → length (map with_break ls) ≡ length ls
length-map [] = refl
length-map (l ∷ ls) = omega (arith, length-map ls)

-- In a file of lines of less than 4095 bytes, with a line break behind each and no NUL, the loops
-- of fgets read exactly these lines, and getnumlines counts them.
pub getnumlines_counts :
    (ls : List Bytes)
    → All (IsLine 4096) ls
    → (file_lines (file_of ls) ≡ map with_break ls)
      × (getnumlines (some (file_of ls)) ≡ some (length ls))
unfolding file_lines getnumlines
getnumlines_counts ls h =
    let lines = read_lines-file_of 4096 (length (file_of ls)) ls h (omega arith) in
    (lines, ap some (ap length lines ∙ length-map ls))
