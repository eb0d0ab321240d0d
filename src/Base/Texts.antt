-- ===== src/Base/Texts.antt =====
-- C strings as lists of bytes, without the closing NUL. `str_eq s t` is `strcmp(s, t) == 0`.
use Prim.Native.Nat.{ℕ}
use Prim.Native.Char.{code}
use Prim.Native.String.{String}
use mathlib.Core.Path.{◌≡◌, refl}
use mathlib.Core.Logic.{◌↔◌}
use mathlib.Core.Bool.{Bool, true, false, ◌&&◌, ◌||◌}
use mathlib.Core.List.{List, [], ◌∷◌}
use native.Mathlib.Omega.{arith}
use tcos.Base.Tests.{◌==◌}

abbrev pub Bytes : Type 0
Bytes = List ℕ

-- The bytes of a literal of the source, which is ASCII.
abbrev pub codes : String → Bytes
codes String.[] = []
codes (String.◌∷◌ c s) = code c ∷ codes s

unfoldable pub str_eq : Bytes → Bytes → Bool
str_eq [] [] = true
str_eq [] (d ∷ t) = false
str_eq (c ∷ s) [] = false
str_eq (c ∷ s) (d ∷ t) = c == d && str_eq s t

pub str_eq_iff : (s t : Bytes) → (str_eq s t ≡ true) ↔ (s ≡ t)
unfolding str_eq
str_eq_iff [] [] = (λ h. refl, λ h. refl)
str_eq_iff [] (d ∷ t) = (λ h. cc, λ h. cc)
str_eq_iff (c ∷ s) [] = (λ h. cc, λ h. cc)
str_eq_iff (c ∷ s) (d ∷ t) =
    (λ h. ground (arith, (str_eq_iff s t).0), λ h. ground (arith, (str_eq_iff s t).1))

pub str_eq_refl : (s : Bytes) → str_eq s s ≡ true
str_eq_refl s = (str_eq_iff s s).1 refl

-- `strncmp(s, t, length of t) == 0`: `t` is a prefix of `s`.
unfoldable pub str_prefix : Bytes → Bytes → Bool
str_prefix s [] = true
str_prefix [] (d ∷ t) = false
str_prefix (c ∷ s) (d ∷ t) = c == d && str_prefix s t

-- `strstr(s, t) != NULL`: `t` stands somewhere in `s`.
unfoldable pub str_contains : Bytes → Bytes → Bool
unfolding str_prefix
str_contains [] t = str_prefix [] t
str_contains (c ∷ s) t = str_prefix (c ∷ s) t || str_contains s t
