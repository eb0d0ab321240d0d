-- ===== src/WaitForX/Tries.antt =====
-- When lockscreen/waitforX.c ends, and with which exit code.
use tcos.Base.{
  ℕ, zero, suc, ◌<◌, ◌≡◌, refl, arith, true, false, Option, some, none, Bytes, codes, List, [], ◌∷◌,
}
use tcos.Host.{Host, Outcome, Trace, open_display, usleep, done, pure, ask, emit}
use tcos.WaitForX.{max_try, wait_loop, try_open, main}

-- What `n` tries leave that do not succeed.
unfoldable pub failed : Bytes → ℕ → Trace → Trace
failed display zero t = t
failed display (suc n) t = failed display n (usleep wait_loop ∷ open_display display ∷ t)

-- The first of 25 tries at which the display opens, or none.
pub data FirstOpen (h : Host) (display : Bytes) (t : Trace) : Option ℕ → Type 0 where
  opens_at :
      (k : ℕ)
      → k < max_try
      → ((i : ℕ) → i < k → h.display_opens (failed display i t) display ≡ false)
      → h.display_opens (failed display k t) display ≡ true
      → FirstOpen h display t (some k)
  never :
      ((i : ℕ) → i < max_try → h.display_opens (failed display i t) display ≡ false)
      → FirstOpen h display t none

pub ended : Bytes → Trace → Option ℕ → Outcome ℕ
ended display t (some k) = done 0 (open_display display ∷ failed display k t)
ended display t none = done 1 (failed display max_try t)

module _ (h : Host) (display : Bytes) where
  try_open-opens :
      (left k : ℕ) (t : Trace)
      → k < left
      → ((i : ℕ) → i < k → h.display_opens (failed display i t) display ≡ false)
      → h.display_opens (failed display k t) display ≡ true
      → try_open h display left t ≡ done 0 (open_display display ∷ failed display k t)
  unfolding try_open failed ask emit pure
  try_open-opens zero k t lt closed opens = absurd (omega arith)
  try_open-opens (suc left) zero t lt closed opens = rw opens refl
  try_open-opens (suc left) (suc k) t lt closed opens =
      rw (closed 0 (omega arith))
        (try_open-opens left k _ (omega arith) (λ i le. closed (suc i) (omega arith)) opens)

  try_open-never :
      (left : ℕ) (t : Trace)
      → ((i : ℕ) → i < left → h.display_opens (failed display i t) display ≡ false)
      → try_open h display left t ≡ done 1 (failed display left t)
  unfolding try_open failed ask emit pure
  try_open-never zero t closed = refl
  try_open-never (suc left) t closed =
      rw (closed 0 (omega arith)) (try_open-never left _ (λ i le. closed (suc i) (omega arith)))

  try_open-waits :
      (t : Trace) (first : Option ℕ)
      → FirstOpen h display t first
      → try_open h display max_try t ≡ ended display t first
  unfolding ended
  try_open-waits t _ (opens_at k lt closed opens) = try_open-opens max_try k t lt closed opens
  try_open-waits t _ (never closed) = try_open-never max_try t closed

-- What argv asks for: the display that is its only argument, and :0 for none or for more than one.
pub data Asks : List Bytes → Bytes → Type 0 where
  by_name : (display : Bytes) → Asks (display ∷ []) display
  by_default : Asks [] (codes ":0")
  by_many : (a b : Bytes) (args : List Bytes) → Asks (a ∷ b ∷ args) (codes ":0")

-- The program waits for the display that is its only argument, or for :0 if it has none or more
-- than one. It ends as soon as that display opens, with 0, if that is at one of 25 tries, a fifth
-- of a second apart; if all of them fail it ends after the last one with 1.
pub main_waits :
    (h : Host) (args : List Bytes) (display : Bytes) (t : Trace) (first : Option ℕ)
    → Asks args display
    → FirstOpen h display t first
    → main h args t ≡ ended display t first
unfolding main
main_waits h _ display t first (by_name _) w = try_open-waits h display t first w
main_waits h _ _ t first by_default w = try_open-waits h (codes ":0") t first w
main_waits h _ _ t first (by_many a b args) w = try_open-waits h (codes ":0") t first w
