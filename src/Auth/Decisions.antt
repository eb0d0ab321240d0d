-- ===== src/Auth/Decisions.antt =====
-- When a login is accepted.
use tcos.Base.{
  ℕ, ◌++◌, ◌∙◌, ap, ◌/◌, ◌*◌, ◌+◌, ◌<◌, ◌-◌, ◌^◌, ℤ, pos, negsuc, pos_part, neg_part, ◌+ℤ◌, Bool,
  true, false, ◌&&◌, not, Option, none, some, Bytes, codes, List, [], ◌∷◌, ◌≡◌, ◌≢◌, refl, arith,
  str_eq, str_eq_iff, str_eq_refl, Option-cases, Bool-cases, inl, inr, ◌↔◌, if◌then◌else◌,
}
use tcos.CText.{fgets, split}
use tcos.Host.{Host, Shadow, Trace, done, pure, ask, deref, undef}
use tcos.Auth.{
  login_ok, login_error, pass_id, bsize, tcospasswd_file, shadow_file, passwd_file, is_some,
  drop_last_byte, compare_tcos, check_tokens, read_tcos, validate_tcos, is_inactive, is_expired,
  fits_long, check_shadow, validate_shadow, validate_passwd, validate_login,
}

-- a < b over the integers.
abbrev pub LtZ : ℤ → ℤ → Type 0
LtZ a b = pos_part a + neg_part b < pos_part b + neg_part a

-- A value of a long, of 64 bits.
abbrev pub IsLong : ℤ → Type 0
IsLong v = (¬ LtZ v (negsuc (2 ^ 63 - 1))) × (¬ LtZ (pos (2 ^ 63 - 1)) v)

-- shadow(5): the password may not be older than sp_max + sp_inact days, and the account ends with
-- the day sp_expire; a limit that is not positive does not hold. The sums in longs must not
-- overflow.
pub record IsActive (e : Shadow) (days : ℕ) : Type 0 where
  pub sums_fit :
      LtZ (pos 0) e.sp_max
      → LtZ (pos 0) e.sp_inact
      → IsLong (e.sp_lstchg +ℤ e.sp_max) × IsLong (e.sp_lstchg +ℤ e.sp_max +ℤ e.sp_inact)
  pub fresh :
      LtZ (pos 0) e.sp_max
      → LtZ (pos 0) e.sp_inact
      → ¬ LtZ (e.sp_lstchg +ℤ e.sp_max +ℤ e.sp_inact) (pos days)
  pub unexpired : LtZ (pos 0) e.sp_expire → ¬ LtZ e.sp_expire (pos days)

abbrev pub today : Host → Trace → ℕ
today h t = h.time t / (24 * 60 * 60)

pub record ShadowAccepts (h : Host) (t : Trace) (user pw : Bytes) (e : Shadow) : Type 0 where
  pub known : h.getspnam t user ≡ some e
  pub matches : h.crypt pw e.sp_pwdp ≡ some e.sp_pwdp
  pub active : IsActive e (today h t)

IsActive-tests :
    (e : Shadow) (days : ℕ)
    → IsActive e days
    → (is_inactive e days ≡ some false) × (is_expired e days ≡ false)
unfolding is_inactive is_expired fits_long
IsActive-tests e days a = ground (arith, a.sums_fit, a.fresh, a.unexpired)

tests-IsActive :
    (e : Shadow) (days : ℕ)
    → is_inactive e days ≡ some false
    → is_expired e days ≡ false
    → IsActive e days
unfolding is_inactive is_expired fits_long
tests-IsActive e days p q = record {
  sums_fit = λ x y. ground arith;
  fresh = λ x y z. ground arith;
  unexpired = λ x y. ground arith;
}

-- What check_shadow does with an entry, the two date tests kept shut.
check_entry :
    (h : Host) (pw : Bytes) (e : Shadow) (t : Trace)
    → check_shadow h pw (some e) t ≡ done login_ok t
    → (h.crypt pw e.sp_pwdp ≡ some e.sp_pwdp)
      × (is_inactive e (today h t) ≡ some false)
      × (is_expired e (today h t) ≡ false)
unfolding check_shadow pure ask deref
check_entry h pw e t k = elim (Option-cases (h.crypt pw e.sp_pwdp)) [
  | inl n ↦ cc (rw n at k)
  | inr (c, s) ↦
      let k' = rw s at k in
      let same : str_eq c e.sp_pwdp ≡ true = ground (arith, s) in
      let equal : c ≡ e.sp_pwdp = (str_eq_iff c e.sp_pwdp).0 same in
      (rw equal at s, ground (arith, s, same), ground (arith, s, same))
]

no_entry : (h : Host) (pw : Bytes) (t : Trace) → check_shadow h pw none t ≢ done login_ok t
unfolding check_shadow pure ask
no_entry h pw t k = elim (Option-cases (h.read_file t shadow_file)) [
  | inl n ↦ cc (rw n at k)
  | inr (c, s) ↦ cc (rw s at k)
]

accepted_entry :
    (h : Host) (pw : Bytes) (e : Shadow) (t : Trace)
    → h.crypt pw e.sp_pwdp ≡ some e.sp_pwdp
    → is_inactive e (today h t) ≡ some false
    → is_expired e (today h t) ≡ false
    → check_shadow h pw (some e) t ≡ done login_ok t
unfolding check_shadow pure ask deref
accepted_entry h pw e t m i x = rw (m, deref) (rw (str_eq_refl e.sp_pwdp) (rw (i, x)))

-- validate_shadow accepts a user exactly when there is an entry for the name, the password is
-- coded to the stored text, and the entry is active on the day of the call: that day is not after
-- sp_expire, on which the account still works, nor more than sp_max + sp_inact days after the last
-- change, where these limits are positive and the sums are longs.
pub shadow_decides :
    (h : Host) (user pw : Bytes) (t : Trace)
    → (validate_shadow h user pw t ≡ done login_ok t) ↔ ((e : Shadow) × ShadowAccepts h t user pw e)
unfolding validate_shadow ask
shadow_decides h user pw t = (accepted, accepts)
  where
    accepted :
        validate_shadow h user pw t ≡ done login_ok t → (e : Shadow) × ShadowAccepts h t user pw e
    accepted k = elim (Option-cases (h.getspnam t user)) [
      | inl n ↦ absurd (no_entry h pw t (rw n at k))
      | inr (e, s) ↦
          let (m, i, x) = check_entry h pw e t (rw s at k) in
          (e, record { known = s; matches = m; active = tests-IsActive e (today h t) i x })
    ]

    accepts :
        ((e : Shadow) × ShadowAccepts h t user pw e) → validate_shadow h user pw t ≡ done login_ok t
    accepts (e, a) =
        let (i, x) = IsActive-tests e (today h t) a.active in
        rw a.known (accepted_entry h pw e t a.matches i x)

-- Where a coded password may stand for a user: the salt to code the password with, and the coded
-- text. In /etc/tcospasswd it is the second field of the first line without its last byte, whatever
-- that is: the line break of a line `user:coded`, or a byte of what the field stores where there is
-- no line break behind it.
pub data Stored (h : Host) (t : Trace) (user : Bytes) : Bytes → Bytes → Type 0 where
  in_tcospasswd :
      (contents line hash : Bytes) (last : ℕ) (rest : List Bytes)
      → h.read_file t tcospasswd_file ≡ some contents
      → fgets bsize contents ≡ some line
      → split line (codes ":") ≡ user ∷ (hash ++ last ∷ []) ∷ rest
      → Stored h t user pass_id hash
  in_shadow : (e : Shadow) → h.getspnam t user ≡ some e → Stored h t user e.sp_pwdp e.sp_pwdp
  in_passwd : (field : Bytes) → h.getpwnam t user ≡ some field → Stored h t user pass_id field

-- The password is coded to what is stored for the user.
pub record Proves (h : Host) (t : Trace) (user pw : Bytes) : Type 0 where
  pub salt : Bytes
  pub hash : Bytes
  pub stored : Stored h t user salt hash
  pub matches : h.crypt pw salt ≡ some hash

pub compare_sound :
    (h : Host) (user pass u : Bytes) (saved : Option Bytes) (t : Trace)
    → compare_tcos h user pass u saved t ≡ done login_ok t
    → (p : Bytes) × (saved ≡ some p) × (u ≡ user) × (h.crypt pass pass_id ≡ some p)
unfolding compare_tcos pure deref
compare_sound h user pass u saved t k = elim (Bool-cases (str_eq u user)) [
  | inr ne ↦ cc (rw ne at k)
  | inl same ↦ elim (Option-cases (h.crypt pass pass_id)) [
    | inl n ↦ cc (rw n at (rw same at k))
    | inr (c, s) ↦ elim (Option-cases saved) [
      | inl n ↦ cc (rw n at (rw s at (rw same at k)))
      | inr (p, e) ↦
          let coded : str_eq p c ≡ true = ground (arith, s, same, e) in
          (p, e, (str_eq_iff u user).0 same, rw ((str_eq_iff p c).0 coded) s)
    ]
  ]
]

tokens_sound :
    (h : Host) (user pass : Bytes) (tokens : List Bytes) (t : Trace)
    → check_tokens h user pass tokens t ≡ done login_ok t
    → (p : Bytes) × (rest : List Bytes) × (tokens ≡ user ∷ p ∷ rest)
      × (h.crypt pass pass_id ≡ some (drop_last_byte p))
tokens_sound h user pass [] t k = unfold check_tokens undef in cc k
tokens_sound h user pass (u ∷ []) t k =
    let (p, e, _, _) = compare_sound h user pass u none t (unfold check_tokens in k) in cc e
tokens_sound h user pass (u ∷ p ∷ rest) t k =
    let (q, e, same, coded) =
      compare_sound h user pass u (some (drop_last_byte p)) t (unfold check_tokens in k) in
    (p, rest, rw same, cc (e, coded))

drop_last_byte-append : (p : Bytes) → p ≢ [] → (last : ℕ) × (p ≡ drop_last_byte p ++ last ∷ [])
unfolding drop_last_byte
drop_last_byte-append [] filled = absurd (filled refl)
drop_last_byte-append (c ∷ []) filled = (c, refl)
drop_last_byte-append (c ∷ d ∷ s) filled =
    let (last, e) = drop_last_byte-append (d ∷ s) (λ n. cc n) in (last, ap (λ r. c ∷ r) e)

-- crypt(3) never returns an empty text.
abbrev pub CryptFills : Host → Type 0
CryptFills h = (key salt : Bytes) → h.crypt key salt ≢ some []

tcos_sound :
    (h : Host) (user pass : Bytes) (t : Trace)
    → CryptFills h
    → validate_tcos h user pass t ≡ done login_ok t
    → Proves h t user pass
unfolding validate_tcos read_tcos ask deref pure
tcos_sound h user pass t fills k = elim (Option-cases (h.read_file t tcospasswd_file)) [
  | inl n ↦ cc (rw n at k)
  | inr (contents, s) ↦ read (fgets bsize contents) contents refl s (rw s at k)
]
  where
    read :
        (o : Option Bytes) (contents : Bytes)
        → fgets bsize contents ≡ o
        → h.read_file t tcospasswd_file ≡ some contents
        → read_tcos h user pass (some contents) t ≡ done login_ok t
        → Proves h t user pass
    read none contents e s k' = cc (rw e at k')
    read (some line) contents e s k' =
        let (p, rest, split_up, coded) =
          tokens_sound h user pass (split line (codes ":")) t (rw e at k') in
        let filled : p ≢ [] = λ n.
          fills pass pass_id
            (coded ∙ ap some (ap drop_last_byte n ∙ unfold drop_last_byte in refl)) in
        let (last, ends) = drop_last_byte-append p filled in
        record {
          salt = pass_id;
          hash = drop_last_byte p;
          stored =
              in_tcospasswd contents line (drop_last_byte p) last rest s e
                (split_up ∙ ap (λ q. user ∷ q ∷ rest) ends);
          matches = coded;
        }

passwd_sound :
    (h : Host) (user pass : Bytes) (t : Trace)
    → CryptFills h
    → validate_passwd h user pass t ≡ done login_ok t
    → Proves h t user pass
unfolding validate_passwd ask deref pure
passwd_sound h user pass t fills k = elim (Option-cases (h.crypt pass pass_id)) [
  | inl n ↦ cc (rw n at k)
  | inr (c, s) ↦ elim (Option-cases (h.getpwnam t user)) [
    | inl n ↦
        let empty : str_eq c [] ≡ true = ground (arith, s, n) in
        absurd (fills pass pass_id (rw ((str_eq_iff c []).0 empty) at s))
    | inr (field, e) ↦
        let same : str_eq c field ≡ true = ground (arith, s, e) in
        record {
          salt = pass_id;
          hash = field;
          stored = in_passwd field e;
          matches = rw ((str_eq_iff c field).0 same) at s;
        }
  ]
]

-- validate_login answers "ok" only if the password is coded to the text that getspnam or getpwnam
-- gives for the user, or to the second field of the first line of /etc/tcospasswd without its last
-- byte, whatever byte that is, where the first field is the user. The host's crypt never returns an
-- empty text.
pub login_sound :
    (h : Host) (user pw : Bytes) (t : Trace)
    → CryptFills h
    → validate_login h user pw t ≡ done login_ok t
    → Proves h t user pw
unfolding validate_login ask pure
login_sound h user pw t fills k =
    choose (is_some (h.read_file t tcospasswd_file))
      (not h.is_standalone && is_some (h.read_file t shadow_file))
      (not h.is_standalone && is_some (h.read_file t passwd_file)) k
  where
    choose :
        (a b c : Bool)
        → (if a
              then validate_tcos h user pw
              else if b
              then validate_shadow h user pw
              else if c
              then validate_passwd h user pw
              else pure login_error)
            t
          ≡ done login_ok t
        → Proves h t user pw
    choose true b c e = tcos_sound h user pw t fills e
    choose false true c e =
        let (s, a) = (shadow_decides h user pw t).0 e in
        record {
          salt = s.sp_pwdp;
          hash = s.sp_pwdp;
          stored = in_shadow s a.known;
          matches = a.matches;
        }
    choose false false true e = passwd_sound h user pw t fills e
    choose false false false e = cc e
