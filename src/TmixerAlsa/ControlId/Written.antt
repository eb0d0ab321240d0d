-- ===== src/TmixerAlsa/ControlId/Written.antt =====
-- What parse_control_id of tmixer/tmixer-alsa.c reads from the settings that a caller writes.
use tcos.Base.{
  ℕ, ◌<◌, ◌≡◌, ◌≢◌, refl, arith, pos, true, false, ◌||◌, ◌==◌, ltb, Bytes, codes, List, [], ◌∷◌,
  ◌++◌, length, All,
}
use tcos.CText.Decimal.{print_int, int_limit, is_digit}
use tcos.CText.Decimal.RoundTrip.{Ends}
use tcos.TmixerAlsa.Scans.{skip_digits-number, to_int-number}
use tcos.TmixerAlsa.ControlId.{Iface, Setting, took, is_positive, read_numid, buf_size}

unfoldable pub iface_name : Iface → Bytes
iface_name Iface.card = codes "card"
iface_name Iface.mixer = codes "mixer"
iface_name Iface.pcm = codes "pcm"
iface_name Iface.rawmidi = codes "rawmidi"
iface_name Iface.timer = codes "timer"
iface_name Iface.sequencer = codes "sequencer"

-- One setting and its text.
pub data Plain : Setting → Bytes → Type 0 where
  numid :
      (n : ℕ)
      → 0 < n
      → n < int_limit
      → Plain (Setting.set_numid (pos n)) (codes "numid=" ++ print_int (pos n))
  iface : (i : Iface) → Plain (Setting.set_interface i) (codes "iface=" ++ iface_name i)
  name :
      (c : ℕ) (s : Bytes)
      → (c == b'\'' || c == b'"') ≡ false
      → All (λ d. d ≢ b',') (c ∷ s)
      → length (c ∷ s) < buf_size
      → Plain (Setting.set_name (c ∷ s)) (codes "name=" ++ (c ∷ s))
  index :
      (n : ℕ)
      → n < int_limit
      → Plain (Setting.set_index (pos n)) (codes "index=" ++ print_int (pos n))
  device :
      (n : ℕ)
      → n < int_limit
      → Plain (Setting.set_device (pos n)) (codes "device=" ++ print_int (pos n))
  subdevice :
      (n : ℕ)
      → n < int_limit
      → Plain (Setting.set_subdevice (pos n)) (codes "subdevice=" ++ print_int (pos n))

-- Settings with a comma between them.
pub data Written : List Setting → Bytes → Type 0 where
  one : {x : Setting} {t : Bytes} → Plain x t → Written (x ∷ []) t
  more :
      {x : Setting} {t : Bytes} {xs : List Setting} {u : Bytes}
      → Plain x t
      → Written xs u
      → Written (x ∷ xs) (t ++ (b',' ∷ u))

-- The end of the text, or a comma.
pub data Tail : Bytes → Type 0 where
  over : Tail []
  comma : (u : Bytes) → Tail (b',' ∷ u)

Tail-Ends : {rest : Bytes} → Tail rest → Ends rest
Tail-Ends over = tt
Tail-Ends (comma u) = unfold is_digit in refl

pub read_numid-took :
    (n : ℕ) (rest : Bytes)
    → 0 < n
    → n < int_limit
    → Tail rest
    → read_numid (print_int (pos n) ++ rest) ≡ took (Setting.set_numid (pos n)) rest
unfolding read_numid is_positive
read_numid-took n rest above lt tail =
    let positive : ltb 0 n ≡ true = ground arith in
    let ends = Tail-Ends tail in
    rw (to_int-number n rest ends lt, positive, skip_digits-number n rest ends) refl
