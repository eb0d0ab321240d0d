-- ===== src/TmixerAlsa/Integers.antt =====
-- get_integer and get_integer64 of tmixer/tmixer-alsa.c: a value of a raw control.
use tcos.Base.{ℤ, Bool, ◌==◌, Bytes, [], ◌∷◌, not, if◌then◌else◌}
use tcos.TmixerAlsa.Card.{Card}
use tcos.TmixerAlsa.Volumes.{read_volume, skip_one, starts_number, check_range}

-- Behind a number, "%" makes it a percentage of the range.
unfoldable pub scale : (Bytes → ℤ → ℤ → ℤ) → Bytes → ℤ → ℤ → ℤ → Bytes → ℤ × Bytes
scale percent s min max val [] = (val, [])
scale percent s min max val (d ∷ p) = if d == b'%' then (percent s min max, p) else (val, d ∷ p)

-- The value that get_integer reads, or the least one where no number stands, and what is left.
unfoldable pub get_scaled :
    (Bytes → ℤ × Bytes) → (Bytes → ℤ → ℤ → ℤ) → Bool → Bytes → ℤ → ℤ → ℤ × Bytes
unfolding read_volume scale check_range
get_scaled strtol percent no_check ptr min max =
    let s = skip_one b':' ptr in
    if not (starts_number s)
    then (min, s)
    else (let (val, p) = read_volume strtol s in
        let (scaled, q) = scale percent s min max val p in
        (check_range no_check scaled min max, skip_one b',' q))

unfoldable pub get_integer : Card → Bool → Bytes → ℤ → ℤ → ℤ × Bytes
unfolding get_scaled
get_integer c no_check ptr min max = get_scaled c.strtol c.percent no_check ptr min max

-- The value is returned as a long.
unfoldable pub get_integer64 : Card → Bool → Bytes → ℤ → ℤ → ℤ × Bytes
unfolding get_scaled
get_integer64 c no_check ptr min max =
    let (val, p) = get_scaled c.strtol c.percent64 no_check ptr min max in (c.to_long val, p)
