-- ===== src/Base64/Tool.antt =====
-- The helpers readfile, getfilesize and memset of xmlrpc/common.c, and its `main` for tests, which codes a file.
use tcos.Base.{
  ℕ, zero, suc, ◌%◌, ◌^◌, ◌-◌, ℤ, pos, negsuc, Bytes, codes, Option, none, some, [], ◌∷◌, ◌++◌, ◌≡◌,
  refl, List, length, str_eq, true, if◌then◌else◌, All,
}
use tcos.Host.{Host, M, Trace, done, print, write_file, pure, ask, emit, ◌>>=◌, ◌>>◌}
use tcos.Base64.{base64_encode, base64_decode}
use tcos.Base64.RoundTrip.{IsByte, decode-encode}

-- NULL, or the bytes of the file; that allocation succeeds is taken for granted.
unfoldable pub readfile : Host → Bytes → M (Option Bytes)
readfile h name = ask (λ t. h.read_file t name)

abbrev set_first : ℕ → Option Bytes → Option Bytes
set_first c none = none
set_first c (some s) = some (c ∷ s)

-- The buffer after the loop, or none where it writes behind the buffer's end.
unfoldable pub memset : Bytes → ℕ → ℕ → Option Bytes
memset s c zero = some s
memset [] c (suc n) = none
memset (x ∷ s) c (suc n) = set_first (c % 256) (memset s c n)

-- The file's size by stat, which may fail, as an unsigned int.
unfoldable pub getfilesize : Option ℕ → ℕ
getfilesize none = 2 ^ 32 - 1
getfilesize (some st_size) = st_size % 2 ^ 32

-- base64_encode and base64_decode, chosen by the first argument.
unfoldable pub coded : Bytes → Bytes → Option Bytes
coded mode buf =
    if str_eq mode (codes "encode") then some (base64_encode buf) else base64_decode buf

unfoldable pub store : Host → Bytes → Option Bytes → M ℤ
store h output none = pure (negsuc 1)
store h output (some e) = do
  writable ← ask (λ t. h.can_write t output)
  if writable then (do emit (write_file output e); pure (pos 0)) else pure (negsuc 2)

unfoldable pub code_file : Host → Bytes → Bytes → Option Bytes → M ℤ
code_file h mode output none = pure (negsuc 0)
code_file h mode output (some buf) = store h output (coded mode buf)

-- main, by the arguments behind argv[0].
unfoldable pub main : Host → List Bytes → M ℤ
main h (mode ∷ input ∷ output ∷ []) = readfile h input >>= code_file h mode output
main h args = do
  emit (print (codes "Usage: base64 <encode|decode> <in file> <out file>\n"))
  pure (negsuc 0)

unfoldable pub repeated : ℕ → ℕ → Bytes
repeated c zero = []
repeated c (suc n) = c ∷ repeated c n

-- memset writes the byte as often as it should, and leaves what is behind.
pub memset-append :
    (s rest : Bytes) (c : ℕ)
    → memset (s ++ rest) c (length s) ≡ some (repeated (c % 256) (length s) ++ rest)
unfolding memset repeated
memset-append [] rest c = refl
memset-append (x ∷ s) rest c = rw (memset-append s rest c) refl

module _ (h : Host) (a b c : Bytes) (s : Bytes) (t : Trace) where
  -- Where the files can be written and the coded file reads as it was written, encoding a file
  -- and decoding the result writes the file's bytes again, and both runs end with 0.
  pub main-main :
      h.read_file t a ≡ some s
      → All IsByte s
      → h.can_write t b ≡ true
      → h.read_file (write_file b (base64_encode s) ∷ t) b ≡ some (base64_encode s)
      → h.can_write (write_file b (base64_encode s) ∷ t) c ≡ true
      → (main h (codes "encode" ∷ a ∷ b ∷ []) >> main h (codes "decode" ∷ b ∷ c ∷ [])) t
        ≡ done (pos 0) (write_file c s ∷ write_file b (base64_encode s) ∷ t)
  unfolding main readfile code_file coded store ask emit pure str_eq
  main-main there bytes writes again writes_back =
      rw (there, writes, again, decode-encode s bytes, writes_back) refl
