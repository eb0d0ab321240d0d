-- ===== src/XCalls.antt =====
-- The calls of Xlib, Xt, Imlib and the shape extension that the programs of lockscreen make.
use tcos.Base.{ℕ, Bytes}

pub data Widget : Type 0 where
  toplevel form viewport desktop : Widget

pub data Drawable : Type 0 where
  desktop_win pixmap : Drawable

-- One constructor for each call, with the arguments that differ between calls.
pub data XCall : Type 0 where
  open_toplevel : XCall
  place_toplevel : XCall
  create_widget : Widget → Widget → XCall
  size_desktop : ℕ → ℕ → XCall
  realize_toplevel override_redirect reparent_to_root : XCall
  resize_toplevel : ℕ → ℕ → XCall
  unmanage_viewport chain_viewport manage_viewport : XCall
  create_gc free_gc : XCall
  imlib_display imlib_visual imlib_colormap : XCall
  imlib_color_usage : ℕ → XCall
  imlib_dither : ℕ → XCall
  load_image : Bytes → XCall
  imlib_image image_size : XCall
  create_pixmap : ℕ → ℕ → XCall
  imlib_drawable : XCall
  render_image : ℕ → ℕ → XCall
  render_pixmaps : ℕ → ℕ → XCall
  background_pixmap shape_mask map_desktop foreground_black : XCall
  fill_rectangle : Drawable → ℕ → ℕ → XCall
  free_image free_pixmap free_pixmap_and_mask : XCall
  create_src create_msk free_src free_msk : XCall
  alloc_color : Bytes → XCall
  create_cursor backing_store change_attributes : XCall
  set_input_focus reset_screen_saver set_screen_saver : XCall
  ungrab_keyboard ungrab_pointer : XCall
  grab_keyboard : Widget → XCall
  grab_pointer : Widget → XCall
  close_display : XCall
