-- ===== src/Auth.antt =====
-- Who may call: `validate_login` of xmlrpc/validate.c with the three account checks that it
-- includes (validate-tcos.c, validate-shadow.c, validate-passwd.c), and `tcos_login`,
-- `tcos_logout` of xmlrpc/login.c. Sleeping (SLEEP_SECONDS is 0), the log and memory exhaustion
-- are left out; the sum of day counts in a shadow entry is taken exactly.
pub mod Quiet
pub mod Decisions
pub mod PasswordFile
use tcos.Base.{
  ℕ, zero, suc, ◌/◌, ◌*◌, ◌-◌, ◌^◌, ℤ, pos, negsuc, ◌+ℤ◌, ltb_ℤ, Bool, true, false, ◌&&◌, not,
  Option, none, some, Bytes, codes, List, [], ◌∷◌, str_eq, if◌then◌else◌,
}
use tcos.CText.{fgets, split}
use tcos.Host.{
  Host, Shadow, M, Trace, Cause, int_overflow, null_pointer, bad_pointer, uninitialised, Request,
  Reply, string, pure, undef, ask, deref, ◌>>=◌,
}

abbrev pub login_ok : Bytes
login_ok = codes "ok"

abbrev pub login_nouser : Bytes
login_nouser = codes "error: User not allowed"

abbrev pub login_nopass : Bytes
login_nopass = codes "error: Password not valid"

abbrev pub login_noperms : Bytes
login_noperms = codes "error: cant read shadow"

abbrev pub login_expired : Bytes
login_expired = codes "error: user expired"

abbrev pub login_error : Bytes
login_error = codes "error: unknow error"

-- The salt PASS_ID.
abbrev pub pass_id : Bytes
pass_id = codes "$1$id2trA1q"

abbrev pub bsize : ℕ
bsize = 500

abbrev pub tcospasswd_file : Bytes
tcospasswd_file = codes "/etc/tcospasswd"

abbrev pub shadow_file : Bytes
shadow_file = codes "/etc/shadow"

abbrev pub passwd_file : Bytes
passwd_file = codes "/etc/passwd"

abbrev pub is_some : Option Bytes → Bool
is_some none = false
is_some (some a) = true

-- check_for_file(fname) == 1
unfoldable pub check_for_file : Host → Bytes → Trace → Bool
check_for_file h fname t = is_some (h.read_file t fname)

-- login->pass[strlen(login->pass) - 1] = '\0'
unfoldable pub drop_last_byte : Bytes → Bytes
drop_last_byte [] = []
drop_last_byte (c ∷ []) = []
drop_last_byte (c ∷ d ∷ s) = c ∷ drop_last_byte (d ∷ s)

-- The comparisons behind the loop over the tokens; `saved` is login->pass, if it was set.
unfoldable pub compare_tcos : Host → Bytes → Bytes → Bytes → Option Bytes → M Bytes
compare_tcos h user pass login_user saved =
    if not (str_eq login_user user) then pure login_nouser else do
      cryptpass ← deref null_pointer (h.crypt pass pass_id)
      login_pass ← deref uninitialised saved
      if str_eq login_pass cryptpass then pure login_ok else pure login_nopass

-- login->user and login->pass from the tokens of the line.
unfoldable pub check_tokens : Host → Bytes → Bytes → List Bytes → M Bytes
unfolding compare_tcos drop_last_byte
check_tokens h user pass [] = undef uninitialised
check_tokens h user pass (u ∷ []) = compare_tcos h user pass u none
check_tokens h user pass (u ∷ p ∷ rest) = compare_tcos h user pass u (some (drop_last_byte p))

unfoldable pub read_tcos : Host → Bytes → Bytes → Option Bytes → M Bytes
read_tcos h user pass none = pure login_error
read_tcos h user pass (some contents) = do
  line ← deref uninitialised (fgets bsize contents)
  check_tokens h user pass (split line (codes ":"))

unfoldable pub validate_tcos : Host → Bytes → Bytes → M Bytes
unfolding read_tcos
validate_tcos h user pass = do
  file ← ask (λ t. h.read_file t tcospasswd_file)
  read_tcos h user pass file

-- A long has 64 bits.
unfoldable pub fits_long : ℤ → Bool
fits_long v = not (ltb_ℤ v (negsuc (2 ^ 63 - 1))) && not (ltb_ℤ (pos (2 ^ 63 - 1)) v)

-- days > ret->sp_lstchg + ret->sp_max + ret->sp_inact, where both limits are set; `none` where a
-- sum is no long.
unfoldable pub is_inactive : Shadow → ℕ → Option Bool
unfolding fits_long
is_inactive e days =
    if ltb_ℤ (pos 0) e.sp_max && ltb_ℤ (pos 0) e.sp_inact
    then (if fits_long (e.sp_lstchg +ℤ e.sp_max)
          && fits_long (e.sp_lstchg +ℤ e.sp_max +ℤ e.sp_inact)
        then some (ltb_ℤ (e.sp_lstchg +ℤ e.sp_max +ℤ e.sp_inact) (pos days))
        else none)
    else some false

unfoldable pub is_expired : Shadow → ℕ → Bool
is_expired e days = ltb_ℤ (pos 0) e.sp_expire && ltb_ℤ e.sp_expire (pos days)

unfoldable pub check_shadow : Host → Bytes → Option Shadow → M Bytes
check_shadow h pw none = do
  readable ← ask (λ t. is_some (h.read_file t shadow_file))
  if readable then pure login_nouser else pure login_noperms
check_shadow h pw (some e) = do
  cryptpw ← deref null_pointer (h.crypt pw e.sp_pwdp)
  if not (str_eq cryptpw e.sp_pwdp) then pure login_nopass else do
    secs ← ask h.time
    let days = secs / (24 * 60 * 60)
    inactive ← deref int_overflow (is_inactive e days)
    if inactive
        then pure login_expired
        else if is_expired e days
        then pure login_expired
        else pure login_ok

unfoldable pub validate_shadow : Host → Bytes → Bytes → M Bytes
unfolding check_shadow
validate_shadow h user pw = do ret ← ask (λ t. h.getspnam t user); check_shadow h pw ret

-- get_passwd: the password field, or "" for an unknown user.
unfoldable pub get_passwd : Option Bytes → Bytes
get_passwd none = []
get_passwd (some field) = field

unfoldable pub validate_passwd : Host → Bytes → Bytes → M Bytes
unfolding get_passwd
validate_passwd h user pass = do
  entry ← ask (λ t. h.getpwnam t user)
  cryptpass ← deref null_pointer (h.crypt pass pass_id)
  if str_eq cryptpass (get_passwd entry) then pure login_ok else pure login_nopass

-- The files are tried in order; the standalone build knows the first only.
unfoldable pub validate_login : Host → Bytes → Bytes → M Bytes
unfolding check_for_file
validate_login h user pw = do
  tcospasswd ← ask (check_for_file h tcospasswd_file)
  shadow ← ask (check_for_file h shadow_file)
  passwd ← ask (check_for_file h passwd_file)
  if tcospasswd
      then validate_tcos h user pw
      else if not h.is_standalone && shadow
      then validate_shadow h user pw
      else if not h.is_standalone && passwd
      then validate_passwd h user pw
      else pure login_error

-- The answer of tcos_login for each result of validate_login.
unfoldable pub login_message : Bytes → Bytes
login_message m =
    if str_eq m login_ok
    then codes "ok"
    else if str_eq m login_nouser
    then codes "error: User not allowed"
    else if str_eq m login_nopass
    then codes "error: Password not valid"
    else if str_eq m login_noperms
    then codes "error: cant read shadow"
    else if str_eq m login_expired
    then codes "error: user expired"
    else login_error

-- The parameters are not checked before they are used.
unfoldable pub tcos_login : Host → Request → M Reply
unfolding login_message
tcos_login h req = do
  (user, pass) ← deref uninitialised req.two
  m ← validate_login h user pass
  pure (string (login_message m))

-- The number 1 is passed where the format "s" wants a string.
unfoldable pub tcos_logout : Host → Request → M Reply
tcos_logout h req = undef bad_pointer
