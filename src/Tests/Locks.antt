-- ===== src/Tests/Locks.antt =====
-- Lock screens on a server that grants the keyboard late, or never.
use tcos.Base.{ltb, ◌≡◌, refl, codes, pos, true, false, not, some, [], ◌∷◌, length, take}
use tcos.CText.Decimal.{print_int, digits}
use tcos.XCalls.{XCall, Widget}
use tcos.Host.{Trace, x_call, sleep, print, done, pure, ask, emit, trace_of}
use tcos.Lockscreen.{
  XServer, BackgroundResult, vnc, vlc, take_over, calls, retry, disable_saver, asked, grab, ungrab,
  grab_both, saver_message, grab_message, prefix,
}
use tcos.Lockscreen.Settled.{
  Settled, take_over_settles, saver_leaves, started, grabs, grab_leaves, ungrabbed,
}
use tcos.Lockscreen.Programs.{screensize}

abbrev late : XServer
late = record {
  width_of_screen = 1024;
  height_of_screen = 768;
  bad_value = pos 2;
  saver_refused = λ t. false;
  keyboard_granted = λ t. ltb 8 (length t);
  pointer_granted = λ t. true;
  image_loads = λ t. true;
  image_width = λ t. pos 800;
  image_height = λ t. pos 600;
  has_pixmap = λ t. true;
  has_mask = λ t. some false;
  set_background = λ t. BackgroundResult.no_fault;
}

take_over_settles_example :
    (v : Trace) × (u : Trace) × (take_over late vlc [] ≡ done tt u)
    × Settled
        (λ s. not (late.saver_refused s))
        saver_leaves
        (saver_message late vlc)
        5
        0
        (started [])
        v
    × Settled (grabs late vlc) (grab_leaves late vlc) (grab_message vlc) 5 0 (ungrabbed vlc v) u
take_over_settles_example = take_over_settles late vlc []

-- The second attempt succeeds.
granted_late :
    take 5 (trace_of (take_over late vlc []))
    ≡ x_call (XCall.grab_pointer Widget.toplevel)
      ∷ x_call (XCall.grab_keyboard Widget.toplevel)
      ∷ sleep 1
      ∷ print (codes "lockvlc::keybmouse Could not grab keyboard and mouse, Count=1.\n")
      ∷ x_call (XCall.grab_keyboard Widget.toplevel)
      ∷ []
unfolding take_over calls retry disable_saver asked grab ungrab grab_both grab_message prefix ask
    emit pure print_int digits
granted_late = refl

-- The keyboard is refused five times, and lockvnc goes on.
refused_always :
    take 2 (trace_of (take_over (record late { keyboard_granted = λ t. false }) vnc []))
    ≡ sleep 1 ∷ print (codes "lockvnc::keybmouse Could not grab keyboard, Count=4.\n") ∷ []
unfolding take_over calls retry disable_saver asked grab ungrab grab_both grab_message prefix ask
    emit pure print_int digits
refused_always = refl

screen_size : take 1 (trace_of (screensize late [])) ≡ x_call XCall.close_display ∷ []
unfolding screensize calls emit pure
screen_size = refl
