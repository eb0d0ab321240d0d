-- ===== src/Base64/Groups.antt =====
-- What one group of four symbols contributes to the decoder's output.
use tcos.Base.{ℕ, ◌+◌, ◌*◌, ◌/◌, ◌%◌, ◌<◌, ◌≡◌, arith, Bytes, [], ◌∷◌, ◌++◌}
use tcos.Base64.{second_index, third_index, dtable, block_bytes, Decoded, decode_loop}
use tcos.Base64.Tables.{low_two, low_four, or_two, or_four, or_six}

pub second_index_lem : (a b : ℕ) → a < 256 → b < 256 → second_index a b ≡ a % 4 * 16 + b / 16
unfolding second_index
second_index_lem a b ha hb =
    rw (low_two a ha) (or_four (a % 4) (b / 16) (omega arith) (omega arith))

pub third_index_lem : (b c : ℕ) → b < 256 → c < 256 → third_index b c ≡ b % 16 * 4 + c / 64
unfolding third_index
third_index_lem b c hb hc =
    rw (low_four b hb) (or_two (b % 16) (c / 64) (omega arith) (omega arith))

-- Four indices below 64 are the three bytes whose bits they cut.
pub block_bytes_lem :
    (i j k l : ℕ)
    → i < 64
    → j < 64
    → k < 64
    → l < 64
    → block_bytes i j k l ≡ (i * 4 + j / 16) ∷ ((j % 16 * 16 + k / 4)) ∷ ((k % 4 * 64 + l)) ∷ []
unfolding block_bytes
block_bytes_lem i j k l hi hj hk hl =
    ground (arith, or_two i (j / 16), or_four j (k / 4), or_six k l)

module _ (p q r t : ℕ) (hp : dtable p < 64) (hq : dtable q < 64) (hr : dtable r < 64)
    (ht : dtable t < 64) where
  -- Four symbols in a row, read with no symbol pending, append their three bytes.
  pub decode_loop_group :
      (s : Bytes) (d : Decoded)
      → decode_loop (p ∷ q ∷ r ∷ t ∷ s) [] d
        ≡ decode_loop s [] (record {
          in2 = r;
          in3 = t;
          out = d.out ++ block_bytes (dtable p) (dtable q) (dtable r) (dtable t);
        })
  unfolding decode_loop
  decode_loop_group s d = ground arith
