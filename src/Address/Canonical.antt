-- ===== src/Address/Canonical.antt =====
-- Which texts `check_ip_address` takes for an address.
use tcos.Base.{
  ℕ, zero, suc, ◌%◌, ◌^◌, pos, negsuc, List, Bool, false, ltb, ◌==◌, All, Option, none, get_elem?,
  Bool-cases, ap, str_eq_refl, Option-cases, inl, inr, ℤ, true, Bytes, [], ◌∷◌, ◌++◌, arith, ◌≡◌,
  refl, sym, ◌∙◌, length-append, take_all, some, str_eq, str_eq_iff, append-nil,
}
use tcos.CText.{snprintf}
use tcos.CText.Decimal.{
  int_limit, Scan, mismatch, overflow, int, print_int, scan_int, scan_digits, scan_sign, in_range,
  read_digits, skip_spaces, is_digit,
}
use tcos.CText.Decimal.Digits.{length-print_int}
use tcos.CText.Decimal.RoundTrip.{IsInt, Ends, scan-print}
use tcos.Host.{Host, Trace, done, deref, pure}
use tcos.Address.{
  after_dot, scan_ints, IpAddress, ip_lenght, print_ip, word_int, member, describe,
  check_ip_address,
}

dot-Ends : (s : Bytes) → Ends (b'.' ∷ s)
dot-Ends s = unfold is_digit in refl

scan_step :
    (n : ℕ) (v : ℤ) (s : Bytes) (vs : List ℤ)
    → IsInt v
    → scan_ints n s ≡ some vs
    → scan_ints (suc n) (print_int v ++ b'.' ∷ s) ≡ some (v ∷ vs)
unfolding scan_ints after_dot
scan_step n v s vs hv e = ground (arith, scan-print v (b'.' ∷ s) hv (dot-Ends s))

scan_last : (v : ℤ) → IsInt v → scan_ints 1 (print_int v) ≡ some (v ∷ [])
unfolding scan_ints after_dot
scan_last v hv =
    let e : scan_int (print_int v) ≡ int v [] = rw append-nil at (scan-print v [] hv tt) in
    ground (arith, e)

scan-print_ip :
    (a b c d : ℤ)
    → IsInt a
    → IsInt b
    → IsInt c
    → IsInt d
    → scan_ints 4 (print_ip a b c d) ≡ some (a ∷ b ∷ c ∷ d ∷ [])
unfolding print_ip
scan-print_ip a b c d ha hb hc hd =
    scan_step 3 a _ _ ha (scan_step 2 b _ _ hb (scan_step 1 c _ _ hc (scan_last d hd)))

-- Four ints and their dots fit the buffer.
ip_fits : (a b c d : ℤ) → snprintf ip_lenght (print_ip a b c d) ≡ print_ip a b c d
unfolding snprintf print_ip
ip_fits a b c d = take_all 1023 _ (
    omega (
      arith,
      length-append (print_int a) _,
      length-append (print_int b) _,
      length-append (print_int c) _,
      length-print_int a,
      length-print_int b,
      length-print_int c,
      length-print_int d,
    ))

-- Four ints in decimal, with dots between them, are taken for an address, and the text that is
-- kept is the one that was given. An int may be negative, or above 255.
pub accepts_canonical :
    (h : Host) (a b c d : ℤ) (t : Trace)
    → IsInt a
    → IsInt b
    → IsInt c
    → IsInt d
    → check_ip_address h (print_ip a b c d) t
      ≡ done (record { is_ip = true; ipstr = print_ip a b c d }) t
unfolding check_ip_address deref pure
accepts_canonical h a b c d t ha hb hc hd =
    rw (scan-print_ip a b c d ha hb hc hd) (rw (ip_fits a b c d, str_eq_refl (print_ip a b c d)))

All-get : (vs : List ℤ) (i : ℕ) {w : ℤ} → get_elem? vs i ≡ some w → All IsInt vs → IsInt w
All-get [] i e ok = cc e
All-get (v ∷ vs) zero {w} e ok = let same : w ≡ v = cc e in rw same ok.0
All-get (v ∷ vs) (suc i) e ok = All-get vs i e ok.1

in_range-IsInt :
    (neg : Bool) (p : ℕ × Bytes) {v : ℤ} {r : Bytes} → in_range neg p ≡ int v r → IsInt v
unfolding in_range
in_range-IsInt true (zero, r') {v} e = let same : v ≡ pos 0 = cc e in rw same (omega arith)
in_range-IsInt true (suc n, r') {v} e = elim (Bool-cases (ltb n int_limit)) [
  | inl fits ↦ let same : v ≡ negsuc n = cc (rw fits at e) in rw same (ground (arith, fits))
  | inr large ↦ cc (rw large at e)
]
in_range-IsInt false (n, r') {v} e = elim (Bool-cases (ltb n int_limit)) [
  | inl fits ↦ let same : v ≡ pos n = cc (rw fits at e) in rw same (ground (arith, fits))
  | inr large ↦ cc (rw large at e)
]

scan_digits-IsInt :
    (neg : Bool) (s : Bytes) {v : ℤ} {r : Bytes} → scan_digits neg s ≡ int v r → IsInt v
unfolding scan_digits
scan_digits-IsInt neg [] e = cc e
scan_digits-IsInt neg (c ∷ s) e = elim (Bool-cases (is_digit c)) [
  | inl digit ↦ in_range-IsInt neg (read_digits 0 (c ∷ s)) (rw digit at e)
  | inr other ↦ cc (rw other at e)
]

scan_sign-IsInt : (s : Bytes) {v : ℤ} {r : Bytes} → scan_sign s ≡ int v r → IsInt v
unfolding scan_sign
scan_sign-IsInt [] e = cc e
scan_sign-IsInt (c ∷ s) e = elim (Bool-cases (c == b'-')) [
  | inl minus ↦ scan_digits-IsInt true s (rw minus at e)
  | inr other ↦ elim (Bool-cases (c == b'+')) [
    | inl plus ↦ scan_digits-IsInt false s (rw (other, plus) at e)
    | inr digit ↦ scan_digits-IsInt false (c ∷ s) (rw (other, digit) at e)
  ]
]

scan_ints-IsInt : (n : ℕ) (s : Bytes) (vs : List ℤ) → scan_ints n s ≡ some vs → All IsInt vs
unfolding scan_ints
scan_ints-IsInt zero s vs e = let none_left : vs ≡ [] = cc e in rw none_left tt
scan_ints-IsInt (suc n) s vs e = by_scan (λ s' us. scan_ints-IsInt n s' us) (scan_int s) refl e
  where
    by_rest :
        (ih : (s' : Bytes) (us : List ℤ) → scan_ints n s' ≡ some us → All IsInt us) (v : ℤ)
        (o : Option (List ℤ)) (s' : Bytes)
        → IsInt v
        → scan_ints n s' ≡ o
        → elim o [ none ↦ none | some us ↦ some (v ∷ us) ] ≡ some vs
        → All IsInt vs
    by_rest ih v none s' hv q e' = cc e'
    by_rest ih v (some us) s' hv q e' = let same : vs ≡ v ∷ us = cc e' in rw same (hv, ih s' us q)

    by_dot :
        (ih : (s' : Bytes) (us : List ℤ) → scan_ints n s' ≡ some us → All IsInt us) (v : ℤ)
        (o : Option Bytes)
        → IsInt v
        → elim o [
          | none ↦ some (v ∷ [])
          | some s' ↦ elim (scan_ints n s') [ none ↦ none | some us ↦ some (v ∷ us) ]
        ]
          ≡ some vs
        → All IsInt vs
    by_dot ih v none hv e' = let same : vs ≡ v ∷ [] = cc e' in rw same (hv, tt)
    by_dot ih v (some s') hv e' = by_rest ih v (scan_ints n s') s' hv refl e'

    by_scan :
        (ih : (s' : Bytes) (us : List ℤ) → scan_ints n s' ≡ some us → All IsInt us) (o : Scan)
        → scan_int s ≡ o
        → elim o [
          | mismatch ↦ some []
          | overflow ↦ none
          | int v r ↦ elim (after_dot r) [
            | none ↦ some (v ∷ [])
            | some s' ↦ elim (scan_ints n s') [ none ↦ none | some us ↦ some (v ∷ us) ]
          ]
        ]
          ≡ some vs
        → All IsInt vs
    by_scan ih mismatch q e' = let same : vs ≡ [] = cc e' in rw same tt
    by_scan ih overflow q e' = cc e'
    by_scan ih (int v r) q e' =
        by_dot ih v (after_dot r) (scan_sign-IsInt (skip_spaces s) {r = r} (unfold scan_int in q))
          e'

word_int-IsInt : (n : ℕ) → IsInt (word_int n)
unfolding word_int
word_int-IsInt n = elim (Bool-cases (ltb (n % 2 ^ 32) int_limit)) [
  | inl low ↦ rw low (ground (arith, low))
  | inr high ↦ rw high (ground (arith, high))
]

member-IsInt : (h : Host) (vs : List ℤ) (i : ℕ) → All IsInt vs → IsInt (member h vs i)
unfolding member
member-IsInt h [] i ok = word_int-IsInt (h.junk i)
member-IsInt h (v ∷ vs) zero ok = ok.0
member-IsInt h (v ∷ vs) (suc i) ok = by_entry (get_elem? vs i) refl
  where
    by_entry :
        (o : Option ℤ)
        → get_elem? vs i ≡ o
        → IsInt (elim o [ none ↦ word_int (h.junk (suc i)) | some w ↦ w ])
    by_entry none e = word_int-IsInt (h.junk (suc i))
    by_entry (some w) e = All-get vs i e ok.1

-- A text that is taken for an address is four ints with dots between them, and is kept as it
-- stands. sscanf reads all four of them, so that nothing uninitialised plays a part.
pub only_canonical :
    (h : Host) (text : Bytes) (t u : Trace) {ip : IpAddress}
    → check_ip_address h text t ≡ done ip u
    → ip.is_ip ≡ true
    → (a : ℤ) × (b : ℤ) × (c : ℤ) × (d : ℤ) × (IsInt a × IsInt b × IsInt c × IsInt d)
      × (text ≡ print_ip a b c d)
      × (scan_ints 4 text ≡ some (a ∷ b ∷ c ∷ d ∷ []))
      × (ip.ipstr ≡ text)
unfolding check_ip_address deref pure
only_canonical h text t u {ip} e y = elim (Option-cases (scan_ints 4 text)) [
  | inl n ↦ cc (rw n at e)
  | inr (vs, s) ↦
      let ok = scan_ints-IsInt 4 text vs s in
      let a = member h vs 0 in
      let b = member h vs 1 in
      let c = member h vs 2 in
      let d = member h vs 3 in
      let ha = member-IsInt h vs 0 ok in
      let hb = member-IsInt h vs 1 ok in
      let hc = member-IsInt h vs 2 ok in
      let hd = member-IsInt h vs 3 ok in
      let kept : describe h text vs ≡ ip = cc (rw s at e) in
      let shown : ip.ipstr ≡ print_ip a b c d = rw (← kept) (ip_fits a b c d) in
      let same : str_eq text (print_ip a b c d) ≡ true =
        rw (ip_fits a b c d) at (rw (← kept) at y) in
      let equal : text ≡ print_ip a b c d = (str_eq_iff text _).0 same in
      (
        a,
        b,
        c,
        d,
        (ha, hb, hc, hd),
        equal,
        ap (scan_ints 4) equal ∙ scan-print_ip a b c d ha hb hc hd,
        shown ∙ sym equal,
      )
]
