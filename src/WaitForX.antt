-- ===== src/WaitForX.antt =====
-- lockscreen/waitforX.c, which waits until a display of the X server can be opened.
pub mod Tries
use tcos.Base.{ℕ, zero, suc, Bytes, codes, List, [], ◌∷◌, if◌then◌else◌}
use tcos.Host.{Host, M, open_display, usleep, pure, ask, emit, ◌>>=◌, ◌>>◌}

-- MAX_TRY
abbrev pub max_try : ℕ
max_try = 25

-- WAIT_LOOP, in microseconds
abbrev pub wait_loop : ℕ
wait_loop = 200000

-- The loop, with the rounds that are left.
unfoldable pub try_open : Host → Bytes → ℕ → M ℕ
try_open h display zero = pure 1
try_open h display (suc n) = do
  opened ← ask (λ t. h.display_opens t display)
  emit (open_display display)
  if opened then pure 0 else do emit (usleep wait_loop); try_open h display n

-- main, by the arguments behind argv[0].
unfoldable pub main : Host → List Bytes → M ℕ
unfolding try_open
main h (display ∷ []) = try_open h display max_try
main h args = try_open h (codes ":0") max_try
