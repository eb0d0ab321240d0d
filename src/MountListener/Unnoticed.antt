-- ===== src/MountListener/Unnoticed.antt =====
-- Changes of the table that the loop of udev/mount_listener.c does not notice.
use tcos.Base.{
  ℕ, ℤ, pos, negsuc, zero, suc, ltb_ℤ, ◌≡◌, refl, false, arith, Bytes, List, [], ◌∷◌, none, some,
  All, length, ==_refl,
}
use tcos.Host.{Host, Trace, Event, usleep, polled, done, pure, ask, emit}
use tcos.Host.Emits.{Extends, same, more}
use tcos.MountListener.{file_lines, getnumlines, compare_counts, compare, pause, on_change, listen}

-- The loop has returned from poll, or from a sleep.
pub data IsWait : Event → Type 0 where
  poll : (rc : ℤ) → IsWait (polled rc)
  pausing : (usec : ℕ) → IsWait (usleep usec)

-- At a moment, the table and its copy can be read and have equally many lines.
pub record IsEven (h : Host) (fname1 fname2 : Bytes) (t : Trace) : Type 0 where
  pub table : Bytes
  pub copy : Bytes
  pub read_table : h.read_file t fname1 ≡ some table
  pub read_copy : h.read_file t fname2 ≡ some copy
  pub even : length (file_lines table) ≡ length (file_lines copy)

module _ (h : Host) (fname1 fname2 : Bytes) where
  -- If both have the same number of lines, nothing is done, whatever the lines are.
  compare_misses :
      (t : Trace) → IsEven h fname1 fname2 t → compare h fname1 fname2 t ≡ done (pos 1) t
  unfolding compare getnumlines compare_counts ask pure
  compare_misses t e =
      rw (e.read_table, e.read_copy, e.even, ==_refl (length (file_lines e.copy))) refl

  -- As long as the table and its copy have equally many lines whenever the loop comes back from a
  -- wait, the listener only waits: it reports nothing and leaves the copy as it is. The lines may
  -- be others each time, as after a device went and another came between two returns of poll, which
  -- always returns without an error.
  pub listen_misses :
      (rcs : List ℤ) (t : Trace)
      → All (λ rc. ltb_ℤ rc (pos 0) ≡ false) rcs
      → ((u : Trace) → Extends IsWait t u → IsEven h fname1 fname2 u)
      → (u : Trace) × (listen h fname1 fname2 rcs t ≡ done none u) × Extends IsWait t u
  unfolding listen on_change pause emit pure
  listen_misses rcs t ok even = go rcs t ok same
    where
      go :
          (left : List ℤ) (u : Trace)
          → All (λ rc. ltb_ℤ rc (pos 0) ≡ false) left
          → Extends IsWait t u
          → (v : Trace) × (listen h fname1 fname2 left u ≡ done none v) × Extends IsWait t v
      go [] u ok' x = (u, refl, x)
      go (negsuc n ∷ left) u ok' x = absurd (ground (arith, ok'.0))
      go (pos zero ∷ left) u ok' x = go left (polled (pos 0) ∷ u) ok'.1 (more x (IsWait.poll _))
      go (pos (suc n) ∷ left) u ok' x =
          let x' = more (more x (IsWait.poll (pos (suc n)))) (IsWait.pausing 2) in
          let (v, e, y) = go left _ ok'.1 (more x' (IsWait.pausing 2000000)) in
          (v, rw (compare_misses _ (even _ x')) e, y)
