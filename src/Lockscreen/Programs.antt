-- ===== src/Lockscreen/Programs.antt =====
-- `main` of the programs of lockscreen/*.c that block a display, and of screensize.c and
-- get-xdg-desktop.c. The endless loop at the end of the former, which sleeps, is a way to end here.
use tcos.Base.{ℕ, ◌++◌, pos, Bytes, Option, codes, [], ◌∷◌, if◌then◌else◌}
use tcos.CText.Decimal.{print_int}
use tcos.XCalls.{XCall, Widget, Drawable}
use tcos.Host.{Host, M, set_env, print, null_pointer, deref, pure, emit, ◌>>=◌, ◌>>◌}
use tcos.Lockscreen.{XServer, Locker, calls, dimension, grab_both, take_over}
use tcos.Lockscreen.Window.{open_window, fill_screen, blank_cursor, show_screen}

pub data Ended : Type 0 where
  exited : ℕ → Ended
  waiting : Ended

abbrev pub skip_argb : M Unit
skip_argb = emit (set_env (codes "XLIB_SKIP_ARGB_VISUALS") (codes "1"))

-- What the three programs that try again end with.
unfoldable pub block : XServer → Locker → M Ended
block x p = do calls blank_cursor; take_over x p; pure waiting

-- lockscreen2.c
unfoldable pub lockscreen2 : Host → XServer → M Ended
lockscreen2 host x = do
  let w = dimension x.width_of_screen
  let h = dimension x.height_of_screen
  skip_argb
  calls (open_window w h)
  calls (fill_screen w h)
  shown ← show_screen host x w h
  if shown then block x Locker.screen2 else pure (exited 1)

-- lockvnc.c and lockvlc.c, with a window of one pixel.
unfoldable pub small_lock : XServer → Locker → M Ended
small_lock x p = do
  skip_argb
  calls (open_window (dimension x.width_of_screen) (dimension x.height_of_screen))
  calls (XCall.resize_toplevel 1 1 ∷ [])
  block x p

unfoldable pub lockvnc : XServer → M Ended
lockvnc x = small_lock x Locker.vnc

unfoldable pub lockvlc : XServer → M Ended
lockvlc x = small_lock x Locker.vlc

-- lockscreen.c, which tries once.
unfoldable pub lockscreen : XServer → M Ended
lockscreen x = do
  let w = dimension x.width_of_screen
  let h = dimension x.height_of_screen
  calls (open_window w h)
  calls (fill_screen w h)
  calls (XCall.foreground_black ∷ XCall.fill_rectangle Drawable.desktop_win w h ∷ [])
  calls blank_cursor
  calls (XCall.set_input_focus ∷ [])
  grabbed ← grab_both x Widget.desktop
  if grabbed then pure tt else emit (print (codes "Could not grab keyboard and mouse.\n"))
  pure waiting

-- screensize.c
unfoldable pub screensize : XServer → M Ended
screensize x = do
  calls (XCall.open_toplevel ∷ [])
  emit (
      print (
        print_int (pos (dimension x.width_of_screen))
        ++ codes "x"
        ++ print_int (pos (dimension x.height_of_screen))
        ++ codes "\n"))
  calls (XCall.close_display ∷ [])
  pure (exited 0)

-- get-xdg-desktop.c, with the answer of GLib.
unfoldable pub get_xdg_desktop : Option Bytes → M Ended
get_xdg_desktop dir = do
  name ← deref null_pointer dir
  emit (print (name ++ codes "\n"))
  pure (exited 0)
