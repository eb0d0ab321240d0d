-- ===== src/TmixerAlsa/Tlv.antt =====
-- decode_tlv of tmixer/tmixer-alsa.c: the text that is shown for the type, length and value words
-- of a control. A word that is not there, or that nothing wrote, has no defined value.
pub mod Ends
pub mod Compound
pub mod Dumped
use tcos.Base.{
  ℕ, zero, suc, ◌+◌, ◌-◌, ◌*◌, ◌/◌, ◌%◌, ◌^◌, ltb, ℤ, pos, negsuc, ◌==◌, not, Bytes, codes, [], ◌∷◌,
  ◌++◌, none, some, drop, length, get_elem?, if◌then◌else◌,
}
use tcos.CText.Decimal.{print_int}
use tcos.Host.{bad_pointer, uninitialised}
use tcos.TmixerAlsa.{Result, ok, undefined, endless, ◌>>=◌}
use tcos.TmixerAlsa.Card.{Card, Memory, concat, print_long, print_hex, two_digits}
use tcos.TmixerAlsa.ControlId.{to_signed}

unfoldable pub print_spaces : ℕ → Bytes
print_spaces zero = []
print_spaces (suc spaces) = b' ' ∷ print_spaces spaces

-- dB / 100 and what is left, without its sign
unfoldable pub print_db : ℤ → Bytes
unfolding print_long concat
print_db (pos n) =
    concat (print_long (pos (n / 100)) ∷ codes "." ∷ two_digits (n % 100) ∷ codes "dB" ∷ [])
print_db (negsuc n) =
    let whole = (n + 1) / 100 in
    concat (
      (if whole == 0 then print_long (pos 0) else print_long (negsuc (whole - 1)))
      ∷ codes "."
      ∷ two_digits ((n + 1) % 100)
      ∷ codes "dB"
      ∷ [])

unfoldable pub word : Memory → ℕ → Result ℕ
word tlv i = elim (get_elem? tlv i) [
  | none ↦ undefined bad_pointer
  | some none ↦ undefined uninitialised
  | some (some w) ↦ ok w
]

-- The loop that prints words, four bytes of `size` each. A size that is no multiple of four wraps
-- and the loop goes on behind the memory.
unfoldable pub dump : ℕ → Memory → Result Bytes
unfolding print_hex
dump zero tlv = ok []
dump (suc n) [] = undefined bad_pointer
dump (suc n) (none ∷ tlv) = undefined uninitialised
dump (suc n) (some w ∷ tlv) = dump ((suc n + (2 ^ 32 - 4)) % 2 ^ 32) tlv >>= λ rest.
    ok (codes "0x" ++ (print_hex 8 w ++ (b',' ∷ rest)))

-- What decode_tlv does for an element of a compound, or of a range.
abbrev pub Nested : Type 0
Nested = ℕ → Memory → ℕ → Result Bytes

-- The loop over a compound of `own` bytes, that is `size` words, from `i` on, of at most as many
-- rounds as there is fuel. Sizes are below 2 ^ 32 - 8 here, so no sum wraps.
unfoldable pub container : Nested → ℕ → Memory → ℕ → ℕ → ℕ → ℕ → Result Bytes
unfolding word
container nested spaces tlv own size zero i = if ltb i size then endless else ok (codes "\n")
container nested spaces tlv own size (suc fuel) i =
    let rest = container nested spaces tlv own size fuel (i + (2 + (own + 3) / 4)) in
    if ltb i size
    then (word tlv (i + 1) >>= λ len.
        if ltb ((size - i) * 4) len
        then ok (codes "TLV size error in compound!\n")
        else nested (spaces + 2) (drop i tlv) len >>= λ shown. rest >>= λ more. ok (shown ++ more))
    else ok (codes "\n")

-- "dBscale-"
unfoldable pub db_scale : Memory → ℕ → Result Bytes
unfolding dump word print_db concat
db_scale tlv size =
    if size == 8
    then (do
      least ← word tlv 2
      step ← word tlv 3
      ok (
          concat (
            codes "min="
            ∷ print_db (to_signed least)
            ∷ codes ",step="
            ∷ print_db (pos (step % 2 ^ 16))
            ∷ codes ",mute="
            ∷ print_int (pos (step / 2 ^ 16 % 2))
            ∷ [])))
    else dump size (drop 2 tlv)

-- "dBlinear-", where both words become longs.
unfoldable pub db_linear : Card → Memory → ℕ → Result Bytes
unfolding dump word print_db concat
db_linear c tlv size =
    if size == 8
    then (do
      least ← word tlv 2
      most ← word tlv 3
      ok (
          concat (
            codes "min="
            ∷ print_db (c.to_long (pos least))
            ∷ codes ",max="
            ∷ print_db (c.to_long (pos most))
            ∷ [])))
    else dump size (drop 2 tlv)

-- "dBrange-": the loop over the ranges adds 24 to an index that starts at 0, and is left after one
-- round, since a size of 24 or more is shown as words.
unfoldable pub db_range : Nested → ℕ → Memory → ℕ → Result Bytes
unfolding dump word print_spaces concat
db_range nested spaces tlv size =
    if not (size / 24 == 0) then dump size (drop 2 tlv) else if size == 0 then ok [] else (do
      least ← word tlv 0
      most ← word tlv 1
      shown ← nested (spaces + 4) (drop 2 tlv) 24
      ok (
          concat (
            print_spaces (spaces + 2)
            ∷ codes "rangemin="
            ∷ print_int (to_signed least)
            ∷ codes ",,rangemax="
            ∷ print_int (to_signed most)
            ∷ codes "\n"
            ∷ shown
            ∷ [])))

-- The name of a kind, its values and the end of the line.
abbrev pub line : Bytes → Result Bytes → Result Bytes
line name values = values >>= λ shown. ok (name ++ (shown ++ codes "\n"))

-- The switch over the types.
unfoldable pub values : Card → Nested → ℕ → Memory → ℕ → ℕ → Result Bytes
unfolding container db_scale db_linear db_range dump concat
values c nested spaces tlv kind size =
    if kind == c.tlv_types.container
    then container nested spaces tlv size ((size + 3) / 4) (length tlv + 1) 2
    else if kind == c.tlv_types.db_scale
    then line (codes "dBscale-") (db_scale tlv size)
    else if kind == c.tlv_types.db_linear
    then line (codes "dBlinear-") (db_linear c tlv size)
    else if kind == c.tlv_types.db_range
    then line (codes "dBrange-\n") (db_range nested spaces tlv size)
    else line (concat (codes "unk-" ∷ print_int (to_signed kind) ∷ codes "-" ∷ []))
        (dump size (drop 2 tlv))

unfoldable pub sized : Card → Nested → ℕ → Memory → ℕ → ℕ → ℕ → Result Bytes
unfolding values print_spaces concat
sized c nested spaces tlv kind size room =
    let start = print_spaces spaces ++ codes "| " in
    if ltb room size
    then ok (
        concat (
          start
          ∷ codes "TLV size error ("
          ∷ print_int (to_signed kind)
          ∷ codes ", "
          ∷ print_int (to_signed size)
          ∷ codes ", "
          ∷ print_int (to_signed room)
          ∷ codes ")!\n"
          ∷ []))
    else values c nested spaces tlv kind size >>= λ shown. ok (start ++ shown)

unfoldable pub decode : Card → ℕ → ℕ → Memory → ℕ → Result Bytes
unfolding sized word
decode c zero spaces tlv tlv_size = endless
decode c (suc fuel) spaces tlv tlv_size =
    let nested = decode c fuel in
    word tlv 0 >>= λ kind.
    if ltb tlv_size 8
    then ok (codes "TLV size error!\n")
    else word tlv 1 >>= λ size. sized c nested spaces tlv kind size (tlv_size - 8)

-- Each element that stands in another one starts at least two words behind it.
unfoldable pub decode_tlv : Card → ℕ → Memory → ℕ → Result Bytes
unfolding decode
decode_tlv c spaces tlv tlv_size = decode c (length tlv + 1) spaces tlv tlv_size
