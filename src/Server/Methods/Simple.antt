-- ===== src/Server/Methods/Simple.antt =====
-- xmlrpc/simple-methods.c: `tcos_version`, `tcos_echo` and `tcos_status`, open to every caller.
use tcos.Base.{Option, none, some, Bytes, codes, [], ◌∷◌, ◌++◌, if◌then◌else◌}
use tcos.CText.{snprintf}
use tcos.CText.Decimal.{is_space, skip_spaces}
use tcos.Host.{
  Host, M, null_pointer, uninitialised, Request, Reply, string, pure, run, deref, sprintf, ◌>>=◌,
}
use tcos.Server.Xauth.{params_error}
use tcos.Server.Exec.{buff_size}
use tcos.Server.Gates.{with_params}

unfoldable pub tcos_version : Host → Request → M Reply
tcos_version h req = pure (string h.version)

unfoldable pub tcos_echo : Host → Request → M Reply
tcos_echo h req = do s ← deref uninitialised req.one_sized; pure (string s)

unfoldable pub status_command : Bytes → Bytes
unfolding snprintf
status_command app =
    snprintf buff_size (codes "pidof " ++ (app ++ codes "| grep -c \"[1234567890]\""))

-- The text before the first space.
unfoldable pub word : Bytes → Bytes
unfolding is_space
word [] = []
word (c ∷ s) = let rest = word s in if is_space c then [] else c ∷ rest

-- fscanf(fp, "%s", ret): no word leaves `ret` as it was, with no value.
unfoldable pub scan_word : Bytes → Option Bytes
unfolding skip_spaces word
scan_word s = elim (skip_spaces s) [ [] ↦ none | c ∷ r ↦ some (word (c ∷ r)) ]

unfoldable pub read_status : Host → Bytes → M Reply
unfolding status_command scan_word
read_status h app = do
  fp ← run h (status_command app)
  out ← deref null_pointer fp
  scanned ← deref uninitialised (scan_word out)
  ret ← sprintf buff_size scanned
  pure (string ret)

unfoldable pub tcos_status : Host → Request → M Reply
unfolding read_status with_params
tcos_status h req = with_params req.one params_error (read_status h)
