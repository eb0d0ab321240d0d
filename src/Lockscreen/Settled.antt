-- ===== src/Lockscreen/Settled.antt =====
-- How the loops of lockscreen2.c, lockvnc.c and lockvlc.c end.
use tcos.Base.{
  ℕ, zero, suc, ◌+◌, ◌<◌, ◌≡◌, refl, arith, Bool, true, false, not, ◌&&◌, if◌then◌else◌, Bytes, ◌∷◌,
  Bool-cases, inl, inr,
}
use tcos.XCalls.{
  Widget, set_input_focus, reset_screen_saver, set_screen_saver, ungrab_keyboard, ungrab_pointer,
  grab_keyboard, grab_pointer,
}
use tcos.Host.{M, Trace, x_call, print, sleep, done, pure, ask, emit}
use tcos.Lockscreen.{
  XServer, Locker, screen2, vnc, vlc, retry, calls, asked, disable_saver, grab_both, grab, ungrab,
  saver_message, grab_message, take_over,
}

module _ (leaves : Trace → Trace) (message : ℕ → Bytes) where
  -- What `n` failed rounds leave, the first of them at `count`.
  unfoldable pub failed : ℕ → ℕ → Trace → Trace
  failed zero count t = t
  failed (suc n) count t = failed n (count + 1) (sleep 1 ∷ print (message count) ∷ leaves t)

-- The end of a loop of `left` rounds: at the first round that succeeds, or after all of them.
pub data Settled (answer : Trace → Bool) (leaves : Trace → Trace) (message : ℕ → Bytes)
    (left count : ℕ) (t : Trace) : Trace → Type 0 where
  granted :
      (k : ℕ)
      → k < left
      → ((i : ℕ) → i < k → answer (failed leaves message i count t) ≡ false)
      → answer (failed leaves message k count t) ≡ true
      → Settled answer leaves message left count t (leaves (failed leaves message k count t))
  refused :
      ((i : ℕ) → i < left → answer (failed leaves message i count t) ≡ false)
      → Settled answer leaves message left count t (failed leaves message left count t)

module _ (answer : Trace → Bool) (leaves : Trace → Trace) (message : ℕ → Bytes) where
  next : ℕ → Trace → Trace
  next count t = sleep 1 ∷ print (message count) ∷ leaves t

  shift :
      (n count : ℕ) (t : Trace)
      → answer t ≡ false
      → ((i : ℕ) → i < n → answer (failed leaves message i (count + 1) (next count t)) ≡ false)
      → (i : ℕ) → i < suc n
      → answer (failed leaves message i count t) ≡ false
  unfolding failed next
  shift n count t now later zero lt = now
  shift n count t now later (suc i) lt = later i (omega arith)

  settle_later :
      (left count : ℕ) (t u : Trace)
      → answer t ≡ false
      → Settled answer leaves message left (count + 1) (next count t) u
      → Settled answer leaves message (suc left) count t u
  unfolding failed next
  settle_later left count t _ now (granted k lt before at) =
      granted (suc k) (omega arith) (shift k count t now before) at
  settle_later left count t _ now (refused all) = refused (shift left count t now all)

  pub retry_settles :
      (attempt : M Bool)
      → ((t : Trace) → attempt t ≡ done (answer t) (leaves t))
      → (left count : ℕ) (t : Trace)
      → (u : Trace) × (retry attempt message left count t ≡ done tt u)
        × Settled answer leaves message left count t u
  unfolding retry failed next emit pure
  retry_settles attempt runs zero count t = (t, refl, refused (λ i lt. absurd (omega arith)))
  retry_settles attempt runs (suc left) count t = elim (Bool-cases (answer t)) [
    | inl granting ↦ (
      leaves t,
      rw (runs, granting) refl,
      granted 0 (omega arith) (λ i lt. absurd (omega arith)) granting,
    )
    | inr denied ↦
        let (u, e, s) = retry_settles attempt runs left (count + 1) (next count t) in
        (u, rw (runs, denied) e, settle_later left count t u denied s)
  ]

unfoldable pub saver_leaves : Trace → Trace
saver_leaves t = x_call set_screen_saver ∷ t

-- Whether an attempt holds what the program takes, and the calls that it makes.
unfoldable pub grabs : XServer → Locker → Trace → Bool
grabs x vnc t = x.keyboard_granted t
grabs x p t = x.keyboard_granted t && x.pointer_granted (x_call (grab_keyboard Widget.toplevel) ∷ t)

unfoldable pub grab_leaves : XServer → Locker → Trace → Trace
grab_leaves x vnc t = x_call (grab_keyboard Widget.toplevel) ∷ t
grab_leaves x p t =
    if x.keyboard_granted t
    then x_call (grab_pointer Widget.toplevel) ∷ x_call (grab_keyboard Widget.toplevel) ∷ t
    else x_call (grab_keyboard Widget.toplevel) ∷ t

unfoldable pub started : Trace → Trace
started t = x_call reset_screen_saver ∷ x_call set_input_focus ∷ t

unfoldable pub ungrabbed : Locker → Trace → Trace
ungrabbed vnc t = t
ungrabbed p t = x_call ungrab_pointer ∷ x_call ungrab_keyboard ∷ t

module _ (x : XServer) where
  grab_both_runs :
      (t : Trace) → grab_both x Widget.toplevel t ≡ done (grabs x vlc t) (grab_leaves x vlc t)
  unfolding grab_both asked grabs grab_leaves ask emit pure
  grab_both_runs t = elim (Bool-cases (x.keyboard_granted t)) [
    | inl granting ↦ rw granting refl
    | inr denied ↦ rw denied refl
  ]

  grab_runs : (p : Locker) (t : Trace) → grab x p t ≡ done (grabs x p t) (grab_leaves x p t)
  unfolding grab asked grabs grab_leaves ask emit pure
  grab_runs screen2 t = grab_both_runs t
  grab_runs vnc t = refl
  grab_runs vlc t = grab_both_runs t

  ungrab_runs : (p : Locker) (t : Trace) → ungrab p t ≡ done tt (ungrabbed p t)
  unfolding ungrab ungrabbed calls emit pure
  ungrab_runs screen2 t = refl
  ungrab_runs vnc t = refl
  ungrab_runs vlc t = refl

  -- Once lockscreen2, lockvnc or lockvlc has set the input focus, it comes to its last loop. Before,
  -- it tries to disable the screen saver and then to grab the keyboard and, but for lockvnc, the
  -- pointer: for each it makes up to five attempts, a second apart, with a message for each one that
  -- fails, and stops at the first that succeeds. It goes on as well when all five fail.
  pub take_over_settles :
      (p : Locker) (t : Trace)
      → (v : Trace) × (u : Trace) × (take_over x p t ≡ done tt u)
        × Settled (λ s. not (x.saver_refused s)) saver_leaves (saver_message x p) 5 0 (started t) v
        × Settled (grabs x p) (grab_leaves x p) (grab_message p) 5 0 (ungrabbed p v) u
  unfolding take_over calls started emit pure saver_leaves disable_saver asked ask
  take_over_settles p t =
      let (v, saver, saver_settled) =
        retry_settles (λ s. not (x.saver_refused s)) saver_leaves (saver_message x p)
          (disable_saver x) (λ s. refl) 5 0 (started t) in
      let (u, grabbed, settled) =
        retry_settles (grabs x p) (grab_leaves x p) (grab_message p) (grab x p) (grab_runs p) 5 0
          (ungrabbed p v) in
      (v, u, rw (saver, ungrab_runs p v, grabbed) refl, saver_settled, settled)
