-- ===== src/Lockscreen.antt =====
-- The programs of lockscreen/*.c that block a display: what they ask of the X server, and the steps
-- that they share.
pub mod Window
pub mod Programs
pub mod Settled
use tcos.Base.{
  ℕ, zero, suc, ◌+◌, ◌%◌, ◌^◌, ℤ, pos, Bool, not, false, Bytes, codes, Option, List, [], ◌∷◌, ◌++◌,
  if◌then◌else◌,
}
use tcos.CText.Decimal.{print_int}
use tcos.XCalls.{
  XCall, Widget, set_input_focus, reset_screen_saver, set_screen_saver, ungrab_keyboard,
  ungrab_pointer, grab_keyboard, grab_pointer,
}
use tcos.Host.{Host, M, Trace, x_call, print, sleep, pure, ask, emit, ◌>>=◌, ◌>>◌}

-- What XSetWindowBackgroundPixmap returns.
pub data BackgroundResult : Type 0 where
  bad_match bad_pixmap bad_window no_fault : BackgroundResult

-- The X server and the libraries over it: their answers, by what was done before.
pub record XServer : Type 0 where
  pub width_of_screen : ℕ
  pub height_of_screen : ℕ
  -- BadValue
  pub bad_value : ℤ
  -- XSetScreenSaver(…) == BadValue
  pub saver_refused : Trace → Bool
  -- XtGrabKeyboard(…) == GrabSuccess, XtGrabPointer(…) == GrabSuccess
  pub keyboard_granted : Trace → Bool
  pub pointer_granted : Trace → Bool
  -- imlib_load_image(…) != NULL
  pub image_loads : Trace → Bool
  pub image_width : Trace → ℤ
  pub image_height : Trace → ℤ
  -- What `pixmap` and `mask` hold after they are rendered: None or not, and for `mask`, which has
  -- no value before, none where the library leaves it as it is.
  pub has_pixmap : Trace → Bool
  pub has_mask : Trace → Option Bool
  pub set_background : Trace → BackgroundResult

-- The three programs that try again.
pub data Locker : Type 0 where
  screen2 vnc vlc : Locker

abbrev pub call : XCall → M Unit
call c = emit (x_call c)

unfoldable pub calls : List XCall → M Unit
calls [] = pure tt
calls (c ∷ cs) = do call c; calls cs

unfoldable pub asked : {A : Type 0} → (Trace → A) → XCall → M A
asked answer c = do a ← ask answer; call c; pure a

-- Dimension, an unsigned short.
abbrev pub dimension : ℕ → ℕ
dimension n = n % 2 ^ 16

-- A loop `while (count < 5)`, with the rounds that are left.
unfoldable pub retry : M Bool → (ℕ → Bytes) → ℕ → ℕ → M Unit
retry attempt message zero count = pure tt
retry attempt message (suc left) count = do
  success ← attempt
  if success
      then pure tt
      else do emit (print (message count)); emit (sleep 1); retry attempt message left (count + 1)

unfoldable pub prefix : Locker → Bytes
prefix screen2 = codes "lockscreen"
prefix vnc = codes "lockvnc"
prefix vlc = codes "lockvlc"

abbrev pub counted : ℕ → Bytes
counted count = codes "Count=" ++ print_int (pos count) ++ codes ".\n"

unfoldable pub saver_message : XServer → Locker → ℕ → Bytes
saver_message x p count =
    prefix p
    ++ codes "::screensaver Could not disable screensaver, Badvalue="
    ++ print_int x.bad_value
    ++ codes " "
    ++ counted count

unfoldable pub grab_message : Locker → ℕ → Bytes
grab_message vnc count =
    prefix vnc ++ codes "::keybmouse Could not grab keyboard, " ++ counted count
grab_message p count =
    prefix p ++ codes "::keybmouse Could not grab keyboard and mouse, " ++ counted count

unfoldable pub disable_saver : XServer → M Bool
disable_saver x = asked (λ t. not (x.saver_refused t)) set_screen_saver

-- The keyboard and, if it is granted, the pointer.
unfoldable pub grab_both : XServer → Widget → M Bool
grab_both x w = do
  keyboard ← asked x.keyboard_granted (grab_keyboard w)
  if keyboard then asked x.pointer_granted (grab_pointer w) else pure false

unfoldable pub grab : XServer → Locker → M Bool
grab x vnc = asked x.keyboard_granted (grab_keyboard Widget.toplevel)
grab x p = grab_both x Widget.toplevel

-- lockvnc keeps the grabs of others.
unfoldable pub ungrab : Locker → M Unit
ungrab vnc = pure tt
ungrab p = calls (ungrab_keyboard ∷ ungrab_pointer ∷ [])

-- From the input focus to the end of the second loop.
unfoldable pub take_over : XServer → Locker → M Unit
take_over x p = do
  calls (set_input_focus ∷ reset_screen_saver ∷ [])
  retry (disable_saver x) (saver_message x p) 5 0
  ungrab p
  retry (grab x p) (grab_message p) 5 0
