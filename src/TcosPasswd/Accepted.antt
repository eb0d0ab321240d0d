-- ===== src/TcosPasswd/Accepted.antt =====
-- The server accepts what xmlrpc/tcospasswd.c prints.
use tcos.Base.{
  ◌+◌, ◌<◌, ◌≡◌, ◌≢◌, refl, ap, ◌∙◌, Bytes, [], ◌∷◌, ◌++◌, append_assoc, Option, some, All, length,
}
use tcos.Host.{Host, Trace, print, done, pure, emit, deref}
use tcos.Auth.{pass_id, bsize, login_ok, tcospasswd_file, validate_tcos}
use tcos.Auth.PasswordFile.{IsFieldByte, tcospasswd_decides}
use tcos.TcosPasswd.{print_coded, main}

-- tcospasswd prints a line for a password that crypt codes, and validate_tcos accepts the password
-- of a user whose name stands before that line, with a colon, at the start of /etc/tcospasswd. The
-- name is not empty, neither it nor the coding holds a NUL, a colon or a line break, and both fit
-- the server's buffer.
pub coded_accepted :
    (h : Host) (typed : Option Bytes) (t u : Trace) (pass hash user rest : Bytes)
    → h.crypt pass pass_id ≡ some hash
    → All IsFieldByte user
    → All IsFieldByte hash
    → user ≢ []
    → length user + length hash + 2 < bsize
    → h.read_file u tcospasswd_file ≡ some ((user ++ b':' ∷ []) ++ ((hash ++ b'\n' ∷ []) ++ rest))
    → (main h typed (pass ∷ []) t ≡ done 0 (print (hash ++ b'\n' ∷ []) ∷ t))
      × (validate_tcos h user pass u ≡ done login_ok u)
unfolding main print_coded deref emit pure
coded_accepted h typed t u pass hash user rest coded hu hh ne fits file =
    let whole : (user ++ b':' ∷ []) ++ ((hash ++ b'\n' ∷ []) ++ rest)
        ≡ (user ++ b':' ∷ hash) ++ b'\n' ∷ rest =
      simp append_assoc in
    let decides =
      tcospasswd_decides user hash rest hu hh h u user pass ne fits
        (file ∙ ap (λ r. some r) whole) in
    (rw coded refl, decides.1 (refl, coded))
