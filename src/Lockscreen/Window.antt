-- ===== src/Lockscreen/Window.antt =====
-- The window and the pointer's shape in lockscreen/*.c, and what lockscreen2.c shows.
use tcos.Base.{
  ℕ, ◌||◌, ℤ, pos, Bool, true, false, Bytes, codes, Option, List, [], ◌∷◌, ◌++◌, if◌then◌else◌,
}
use tcos.CText.Decimal.{print_int}
use tcos.XCalls.{XCall, Widget, Drawable}
use tcos.Host.{Host, M, uninitialised, print, pure, ask, emit, deref, ◌>>=◌, ◌>>◌}
use tcos.Lockscreen.{XServer, BackgroundResult, call, calls, asked}

-- From the first call to the window that no window manager manages.
unfoldable pub open_window : ℕ → ℕ → List XCall
open_window w h =
    XCall.open_toplevel
    ∷ XCall.place_toplevel
    ∷ XCall.create_widget Widget.form Widget.toplevel
    ∷ XCall.create_widget Widget.viewport Widget.form
    ∷ XCall.create_widget Widget.desktop Widget.viewport
    ∷ XCall.size_desktop w h
    ∷ XCall.realize_toplevel
    ∷ XCall.override_redirect
    ∷ XCall.reparent_to_root
    ∷ []

-- The window over the whole screen.
unfoldable pub fill_screen : ℕ → ℕ → List XCall
fill_screen w h =
    XCall.resize_toplevel w h
    ∷ XCall.unmanage_viewport
    ∷ XCall.chain_viewport
    ∷ XCall.manage_viewport
    ∷ XCall.resize_toplevel w h
    ∷ XCall.create_gc
    ∷ []

unfoldable pub blank_cursor : List XCall
blank_cursor =
    XCall.create_src
    ∷ XCall.create_msk
    ∷ XCall.alloc_color (codes "black")
    ∷ XCall.alloc_color (codes "white")
    ∷ XCall.create_cursor
    ∷ XCall.free_src
    ∷ XCall.free_msk
    ∷ XCall.backing_store
    ∷ XCall.change_attributes
    ∷ []

abbrev pub lockscreen_image : Bytes
lockscreen_image = codes "/usr/share/tcos-core/lockscreen-custom.png"

abbrev pub lockscreen_image_tcos : Bytes
lockscreen_image_tcos = codes "/usr/share/tcos-core/lockscreen.png"

unfoldable pub imlib_context : List XCall
imlib_context =
    XCall.imlib_display
    ∷ XCall.imlib_visual
    ∷ XCall.imlib_colormap
    ∷ XCall.imlib_color_usage 128
    ∷ XCall.imlib_dither 1
    ∷ []

-- The custom image or else that of TCOS; whether it is loaded.
unfoldable pub load_image : Host → XServer → M Bool
load_image h x = do
  custom ← ask (λ t. h.file_exists t lockscreen_image)
  emit (
      print (
        if custom
        then codes "loading custom image " ++ lockscreen_image ++ codes "...\n"
        else codes "loading TCOS image " ++ lockscreen_image_tcos ++ codes "...\n"))
  asked x.image_loads
      (XCall.load_image (if custom then lockscreen_image else lockscreen_image_tcos))

abbrev size_text : ℤ → ℤ → ℕ → ℕ → Bytes
size_text image_x image_y w h =
    codes "image x="
    ++ print_int image_x
    ++ codes " y="
    ++ print_int image_y
    ++ codes " displayWidth="
    ++ print_int (pos w)
    ++ codes " displayHeight="
    ++ print_int (pos h)
    ++ codes "\n"

unfoldable pub when : Bool → List XCall → M Unit
when b cs = if b then calls cs else pure tt

-- After the background is set.
unfoldable pub show_shape : Bool → Bool → Bool → ℕ → ℕ → M Unit
show_shape image pixmap mask w h = do
  when mask (XCall.shape_mask ∷ [])
  calls (XCall.map_desktop ∷ XCall.foreground_black ∷ XCall.fill_rectangle Drawable.pixmap w h ∷ [])
  when image (XCall.free_image ∷ [])
  when pixmap (XCall.free_pixmap ∷ XCall.free_pixmap_and_mask ∷ [])
  call XCall.free_gc

unfoldable pub masked : Bool → Bool → Option Bool → ℕ → ℕ → M Bool
masked image pixmap mask_left w h = do
  mask ← deref uninitialised mask_left
  show_shape image pixmap mask w h
  pure true

unfoldable pub no_fault : BackgroundResult → Bool
no_fault BackgroundResult.no_fault = true
no_fault _ = false

-- The image on the window: whether the program goes on, as it exits with 1 otherwise.
unfoldable pub show_image : Host → XServer → ℕ → ℕ → M Bool
show_image host x w h = do
  calls imlib_context
  image ← load_image host x
  call XCall.imlib_image
  image_x ← ask x.image_width
  image_y ← asked x.image_height XCall.image_size
  emit (print (size_text image_x image_y w h))
  calls (XCall.create_pixmap w h ∷ XCall.imlib_drawable ∷ XCall.render_image w h ∷ [])
  pixmap ← ask x.has_pixmap
  mask_left ← asked x.has_mask (XCall.render_pixmaps w h)
  result ← asked x.set_background XCall.background_pixmap
  if no_fault result then masked image pixmap mask_left w h else pure false

unfoldable pub show_black : ℕ → ℕ → M Bool
show_black w h = do
  emit (print (codes "file " ++ lockscreen_image ++ codes " not exists!!\n"))
  calls (XCall.foreground_black ∷ XCall.fill_rectangle Drawable.desktop_win w h ∷ [])
  pure true

-- The image, or a black window without one.
unfoldable pub show_screen : Host → XServer → ℕ → ℕ → M Bool
show_screen host x w h = do
  there ← ask (λ t. host.file_exists t lockscreen_image || host.file_exists t lockscreen_image_tcos)
  if there then show_image host x w h else show_black w h
