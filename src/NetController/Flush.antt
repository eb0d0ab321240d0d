-- ===== src/NetController/Flush.antt =====
-- What `flush_iptables_user` of tnc/tcos-net-controller.c leaves of the rules.
use tcos.Base.{
  ℕ, suc, ◌+◌, ◌-◌, ◌≤◌, ◌<◌, ◌≡◌, ◌≢◌, refl, sym, ap, ◌∙◌, arith, pos, true, false, Bytes, codes,
  List, [], ◌∷◌, some, All, length, length-append, drop, ltb, lt→ltb, All-append,
}
use mathlib.Core.List.{map}
use tcos.CText.{is_delim}
use tcos.CText.Decimal.{print_int, int_limit}
use tcos.CText.Decimal.Digits.{IsDigit, print_int-IsDigit, print_int-ne, length-print_int}
use tcos.CText.Lines.{fgets-text}
use tcos.CText.Tokens.{IsToken, terminated, split-terminated}
use tcos.Host.{Host, Trace, popen, done, pure, ask, run, deref, sprintf}
use tcos.NetController.Chain.{remove, without, Descending, without-below, without-remove}
use tcos.NetController.{
  line_size, int_uid, chop_break, chopped, first_line, status_iptables_user, only_ports,
  flush_command, delete_command, delete_rules, delete_listed, flush_iptables_user,
}

-- iptables(8), for the rules of the chain OUTPUT after some events: "-D OUTPUT n" deletes the n-th
-- of them, and nothing if there are fewer.
pub record Iptables (Rule : Type 0) : Type 0 where
  pub chain : Trace → List Rule
  pub deletes :
      (n : ℕ) (t : Trace)
      → 1 ≤ n
      → n < int_limit
      → chain (popen (delete_command (print_int (pos n))) ∷ t) ≡ remove (n - 1) (chain t)

abbrev pub number_text : ℕ → Bytes
number_text n = print_int (pos n)

delete-fits : (n : ℕ) → length (delete_command (number_text n)) < line_size
unfolding delete_command
delete-fits n =
    omega
      (arith, length-append (print_int (pos n)) (codes " 2>/dev/null"), length-print_int (pos n))

module _ (h : Host) {Rule : Type 0} (tables : Iptables Rule) where
  delete_rules-without :
      (ns : List ℕ) (t : Trace)
      → Descending ns
      → All (λ n. n < int_limit) ns
      → (u : Trace) × (delete_rules h (map number_text ns) t ≡ done tt u)
        × (tables.chain u ≡ without 1 ns (tables.chain t))
  unfolding delete_rules sprintf run pure
  delete_rules-without [] t d ints = (t, refl, sym (without-below 1 [] (tables.chain t) tt))
  delete_rules-without (n ∷ ns) t (low, below, d) (an_int, ints) =
      let (u, runs, chain) =
        delete_rules-without ns (popen (delete_command (number_text n)) ∷ t) d ints in
      (
        u,
        rw (lt→ltb _ _ (delete-fits n)) runs,
        chain
            ∙ ap (without 1 ns) (tables.deletes n t low an_int)
            ∙ sym (without-remove n 1 (n - 1) ns (tables.chain t) (omega arith) below),
      )

-- What the listing prints: the numbers with a space behind each.
abbrev pub listing : List ℕ → Bytes
listing ns = terminated b' ' (map number_text ns)

module _ {P : ℕ → Type 0} (f : (c : ℕ) → IsDigit c → P c) where
  digit_bytes : (s : Bytes) → All IsDigit s → All P s
  digit_bytes [] h = tt
  digit_bytes (c ∷ s) (p, h) = (f c p, digit_bytes s h)

  listing_bytes : P b' ' → (ns : List ℕ) → All P (listing ns)
  listing_bytes space [] = tt
  listing_bytes space (n ∷ ns) =
      All-append P (number_text n) (b' ' ∷ listing ns)
        (digit_bytes (number_text n) (print_int-IsDigit n)) (space, listing_bytes space ns)

chop_break-text : (s : Bytes) → All (λ c. c ≢ b'\n') s → chop_break s ≡ s
unfolding chop_break
chop_break-text [] h = refl
chop_break-text (c ∷ []) h = ground (arith, h.0)
chop_break-text (c ∷ d ∷ s) h = ap (λ r. c ∷ r) (chop_break-text (d ∷ s) h.1)

first_line-text :
    (s : Bytes) (t : Trace)
    → s ≢ []
    → All (λ c. c ≢ b'\n') s
    → All (λ c. c ≢ 0) s
    → length s + 1 < line_size
    → first_line s t ≡ done s t
unfolding first_line chopped deref pure
first_line-text [] t ne h hz lt = absurd (ne refl)
first_line-text (c ∷ s) t ne h hz lt =
    rw (fgets-text line_size c s h hz (omega arith)) (rw (chop_break-text (c ∷ s) h) refl)

number-IsToken : (n : ℕ) → IsToken (codes " ") (number_text n)
unfolding is_delim
number-IsToken n = record {
  filled = print_int-ne n;
  plain =
      digit_bytes {P = λ c. is_delim (codes " ") c ≡ false} (λ c p. ground (arith, p.0, p.1))
        (number_text n) (print_int-IsDigit n);
}

numbers-IsToken : (ns : List ℕ) → All (IsToken (codes " ")) (map number_text ns)
numbers-IsToken [] = tt
numbers-IsToken (n ∷ ns) = (number-IsToken n, numbers-IsToken ns)

length-numbers : (ns : List ℕ) → length (map number_text ns) ≡ length ns
length-numbers [] = refl
length-numbers (n ∷ ns) = ap suc (length-numbers ns)

-- A listing that fits the buffer, of fewer numbers than `split` keeps.
pub record IsListing (ns : List ℕ) : Type 0 where
  pub descending : Descending ns
  pub ints : All (λ n. n < int_limit) ns
  pub filled : listing ns ≢ []
  pub fits : length (listing ns) + 1 < line_size
  pub few : length ns < 256

module _ (h : Host) {Rule : Type 0} (tables : Iptables Rule) where
  delete_listed-without :
      (ns : List ℕ) (t : Trace)
      → IsListing ns
      → (u : Trace) × (delete_listed h (some (listing ns)) t ≡ done true u)
        × (tables.chain u ≡ without 1 ns (tables.chain t))
  unfolding delete_listed pure
  delete_listed-without ns t ok =
      let line =
        first_line-text (listing ns) t ok.filled
          (listing_bytes (λ c p. omega arith) (omega arith) ns)
          (listing_bytes (λ c p. omega arith) (omega arith) ns) ok.fits in
      let tokens =
        split-terminated (codes " ") b' ' (map number_text ns) (numbers-IsToken ns)
          (unfold is_delim in refl) (omega (arith, length-numbers ns)) in
      let (u, runs, chain) = delete_rules-without h tables ns t ok.descending ok.ints in
      (u, rw (line, tokens, runs) refl, chain)

  -- For a user with rules, flush_iptables_user succeeds and takes exactly the rules that were
  -- listed out of the chain: the listing has the highest number first, so that no deletion moves a
  -- rule that is still to be deleted. The commands and the listing fit their buffers.
  pub flush-without :
      (user only : Bytes) (ns : List ℕ) (t v : Trace)
      → status_iptables_user h user t ≡ done true v
      → 13 ≤ length only
      → length (flush_command (drop 13 only) (int_uid (h.pw_uid v user)) user) < line_size
      → h.popen_output v (flush_command (drop 13 only) (int_uid (h.pw_uid v user)) user)
        ≡ some (listing ns)
      → IsListing ns
      → (u : Trace) × (flush_iptables_user h user only t ≡ done true u)
        × (tables.chain u
            ≡ without 1 ns (
                tables.chain
                  (popen (flush_command (drop 13 only) (int_uid (h.pw_uid v user)) user) ∷ v)))
  unfolding flush_iptables_user only_ports ask sprintf run pure
  flush-without user only ns t v active long fits lists ok =
      let cmd = flush_command (drop 13 only) (int_uid (h.pw_uid v user)) user in
      let (u, runs, chain) = delete_listed-without ns (popen cmd ∷ v) ok in
      let long_enough : ltb (length only) 13 ≡ false = ground arith in
      (u, rw active (rw long_enough (rw (lt→ltb _ _ fits) (rw lists runs))), chain)
