-- ===== src/TcosPasswd.antt =====
-- xmlrpc/tcospasswd.c, which codes a password for /etc/tcospasswd.
pub mod Accepted
use tcos.Base.{ℕ, Bytes, List, [], ◌∷◌, ◌++◌, Option}
use tcos.Host.{Host, M, print, null_pointer, pure, emit, deref, ◌>>=◌, ◌>>◌}
use tcos.Auth.{pass_id}

unfoldable pub print_coded : Host → Bytes → M (Unit {0})
print_coded h pass = do
  coded ← deref null_pointer (h.crypt pass pass_id)
  emit (print (coded ++ b'\n' ∷ []))

-- main, by the arguments behind argv[0] and what getpass returns.
unfoldable pub main : Host → Option Bytes → List Bytes → M ℕ
unfolding print_coded
main h typed (pass ∷ []) = do print_coded h pass; pure 0
main h typed args = do pass ← deref null_pointer typed; print_coded h pass; pure 1
