-- ===== src/Base64/Tables.antt =====
-- Bit facts of the two coders, by evaluation over all values of the fields that they pack.
use tcos.Base.{
  ℕ, zero, suc, ◌+◌, ◌*◌, ◌/◌, ◌%◌, ◌^◌, ◌<◌, bit_and, bit_or, ◌≡◌, refl, ◌≢◌, Bool, true, ◌&&◌,
  not, ◌==◌, ==_iff, Bool-cases, inl, inr, arith,
}
use tcos.Base64.{symbol, dtable}

-- Every number under the bound passes the test.
passes : (ℕ → Bool) → ℕ → Bool
passes test zero = true
passes test (suc bound) = passes test bound && test bound

use_table :
    (test : ℕ → Bool) (bound : ℕ) {i : ℕ} → i < bound → passes test bound ≡ true → test i ≡ true
unfolding passes
use_table test zero lt ok = absurd (omega arith)
use_table test (suc bound) {i} lt ok = elim (Bool-cases (i == bound)) [
  | inl last ↦ ground (arith, last)
  | inr other ↦ use_table test bound (ground arith) (ground arith)
]

-- The same for a test that compares two numbers.
use_equations :
    (f g : ℕ → ℕ) (bound : ℕ) {i : ℕ}
    → i < bound
    → passes (λ n. f n == g n) bound ≡ true
    → f i ≡ g i
use_equations f g bound {i} lt ok = (==_iff (f i) (g i)).0 (use_table _ bound lt ok)

symbol_table : passes (λ i. dtable (symbol i) == i) 64 ≡ true
unfolding passes dtable symbol
symbol_table = refl

-- Decoding a symbol gives its index.
pub dtable-symbol : (i : ℕ) → i < 64 → dtable (symbol i) ≡ i
dtable-symbol i h = use_equations (λ n. dtable (symbol n)) (λ n. n) 64 h symbol_table

padding_table : passes (λ i. not (symbol i == b'=')) 64 ≡ true
unfolding passes symbol
padding_table = refl

pub symbol-ne-padding : (i : ℕ) → i < 64 → symbol i ≢ b'='
symbol-ne-padding i h = ground (arith, use_table (λ n. not (symbol n == b'=')) 64 h padding_table)

low_table : passes (λ a. bit_and a 0x03 == a % 4) 256 ≡ true
unfolding passes
low_table = refl

pub low_two : (a : ℕ) → a < 256 → bit_and a 0x03 ≡ a % 4
low_two a h = use_equations (λ n. bit_and n 0x03) (λ n. n % 4) 256 h low_table

four_table : passes (λ b. bit_and b 0x0f == b % 16) 256 ≡ true
unfolding passes
four_table = refl

six_table : passes (λ c. bit_and c 0x3f == c % 64) 256 ≡ true
unfolding passes
six_table = refl

pub low_four : (b : ℕ) → b < 256 → bit_and b 0x0f ≡ b % 16
low_four b h = use_equations (λ n. bit_and n 0x0f) (λ n. n % 16) 256 h four_table

pub low_six : (c : ℕ) → c < 256 → bit_and c 0x3f ≡ c % 64
low_six c h = use_equations (λ n. bit_and n 0x3f) (λ n. n % 64) 256 h six_table

or_two_table : passes (λ n. bit_or (n / 4 * 4) (n % 4) == n) 256 ≡ true
unfolding passes
or_two_table = refl

or_four_table : passes (λ n. bit_or (n / 16 * 16) (n % 16) == n) 1024 ≡ true
unfolding passes
or_four_table = refl

or_six_table : passes (λ n. bit_or (n / 64 * 64) (n % 64) == n) 4096 ≡ true
unfolding passes
or_six_table = refl

pack : (k n u v : ℕ) → u ≡ n / k → v ≡ n % k → bit_or (n / k * k) (n % k) ≡ n → bit_or (u * k) v ≡ n
pack k n u v p q e = rw (p, q) e

-- A field shifted left beside a field that fits below it: the bits do not meet.
pub or_two : (u v : ℕ) → u < 64 → v < 4 → bit_or (u * 2 ^ 2) v ≡ u * 4 + v
or_two u v hu hv =
    let n = u * 4 + v in
    pack 4 n u v (omega arith) (omega arith)
      (use_equations (λ i. bit_or (i / 4 * 4) (i % 4)) (λ i. i) 256 (omega arith) or_two_table)

pub or_four : (u v : ℕ) → u < 64 → v < 16 → bit_or (u * 2 ^ 4) v ≡ u * 16 + v
or_four u v hu hv =
    let n = u * 16 + v in
    pack 16 n u v (omega arith) (omega arith)
      (use_equations (λ i. bit_or (i / 16 * 16) (i % 16)) (λ i. i) 1024 (omega arith) or_four_table)

pub or_six : (u v : ℕ) → u < 64 → v < 64 → bit_or (u * 2 ^ 6) v ≡ u * 64 + v
or_six u v hu hv =
    let n = u * 64 + v in
    pack 64 n u v (omega arith) (omega arith)
      (use_equations (λ i. bit_or (i / 64 * 64) (i % 64)) (λ i. i) 4096 (omega arith) or_six_table)
