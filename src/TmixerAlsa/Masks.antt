-- ===== src/TmixerAlsa/Masks.antt =====
-- channels_mask and dir_mask of tmixer/tmixer-alsa.c: which channels and directions an argument of
-- `sset` names.
use tcos.Base.{ℕ, ◌^◌, bit_or, ◌||◌, ◌==◌, Bytes, codes, List, [], ◌∷◌, if◌then◌else◌}
use tcos.TmixerAlsa.{has_prefix}

-- The numbers of the channels, SND_MIXER_SCHN_…
pub record ChannelIds : Type 0 where
  pub mono : ℕ
  pub front_left : ℕ
  pub front_right : ℕ
  pub front_center : ℕ
  pub rear_left : ℕ
  pub rear_right : ℕ
  pub woofer : ℕ
  pub last : ℕ

abbrev pub bit : ℕ → ℕ
bit chn = 2 ^ chn

unfoldable pub chanmask : ChannelIds → List (Bytes × ℕ)
chanmask ids =
    (codes "frontleft", bit ids.front_left)
    ∷ (codes "frontright", bit ids.front_right)
    ∷ (codes "frontcenter", bit ids.front_center)
    ∷ (codes "front", bit_or (bit ids.front_left) (bit ids.front_right))
    ∷ (codes "center", bit ids.front_center)
    ∷ (codes "rearleft", bit ids.rear_left)
    ∷ (codes "rearright", bit ids.rear_right)
    ∷ (codes "rear", bit_or (bit ids.rear_left) (bit ids.rear_right))
    ∷ (codes "woofer", bit ids.woofer)
    ∷ []

-- To the end of a word, which a comma, a space or a tabulator ends, and past it.
unfoldable pub skip_word : Bytes → Bytes
skip_word [] = []
skip_word (c ∷ s) =
    let rest = skip_word s in if c == b',' || c == b' ' || c == b'\t' then s else rest

unfoldable pub find_mask : List (Bytes × ℕ) → Bytes → ℕ → ℕ × Bytes
unfolding has_prefix skip_word
find_mask [] arg def = (def, arg)
find_mask ((name, mask) ∷ masks) arg def =
    let rest = find_mask masks arg def in
    if has_prefix arg name then (mask, skip_word arg) else rest

unfoldable pub channels_mask : ChannelIds → Bytes → ℕ → ℕ × Bytes
unfolding chanmask find_mask
channels_mask ids arg def = find_mask (chanmask ids) arg def

-- Bit 0 for playback, bit 1 for capture.
unfoldable pub dir_mask : Bytes → ℕ → ℕ × Bytes
unfolding has_prefix skip_word
dir_mask arg def =
    if has_prefix arg (codes "playback")
    then (1, skip_word arg)
    else if has_prefix arg (codes "capture")
    then (2, skip_word arg)
    else (def, arg)
