-- ===== src/TmixerAlsa/Main/Lines.antt =====
-- A line on the stdin of tmixer-alsa runs a command as the command line does.
use tcos.Base.{
  ℕ, zero, suc, ◌-◌, ◌<◌, ◌≡◌, ◌≢◌, refl, sym, subst, ap, arith, ◌==◌, ◌||◌, true, false,
  Bool-cases, inl, inr, Bytes, codes, List, [], ◌∷◌, All, length, drop, fun_ext, str_eq,
  if◌then◌else◌,
}
use tcos.CText.{fgets}
use tcos.CText.Lines.{fgets-text, take_line-text}
use tcos.Host.{Trace, Outcome, done, undefined, continue, pure, ◌>>=◌}
use tcos.MountListener.{after_fgets, read_lines}
use tcos.TmixerAlsa.ArgLines.{split_line, max_args}
use tcos.TmixerAlsa.ArgLines.Quoted.{escape, line_of, split_line-quoted}
use tcos.TmixerAlsa.Card.{Card, Options, Status, success, one}
use tcos.TmixerAlsa.Main.{Handles, exec_line, exec_lines, exec_stdin, buf_size, is_negative}
use tcos.TmixerAlsa.Sset.{sset, Kept}

drop_all : (s : Bytes) → drop (length s) s ≡ []
drop_all [] = refl
drop_all (c ∷ s) = drop_all s

-- A stream that holds less than a line is one line.
read_lines-text :
    (size c : ℕ) (s : Bytes)
    → All (λ b. b ≢ b'\n') (c ∷ s)
    → All (λ b. b ≢ 0) (c ∷ s)
    → length (c ∷ s) < size
    → read_lines (length (c ∷ s)) size (c ∷ s) ≡ (c ∷ s) ∷ []
unfolding read_lines
read_lines-text size c s h hz lt =
    let line = fgets-text size c s h hz (omega arith) in
    rw (line, read_lines) (ap (λ more. (c ∷ s) ∷ more) (no_more (length s)))
  where
    rest : after_fgets size (c ∷ s) ≡ []
    rest =
        unfold after_fgets in
        rw (take_line-text (size - 1) (c ∷ s) h (omega arith)) (drop_all (c ∷ s))

    no_more : (n : ℕ) → read_lines n size (after_fgets size (c ∷ s)) ≡ []
    no_more zero = refl
    no_more (suc n) = rw rest (unfold fgets in refl)

-- The bytes of a line in quotes are those of its tokens, quotes, spaces and backslashes.
module _ (P : ℕ → Type 0) (quote : P b'"') (space : P b' ') (backslash : P b'\\') where
  escape-All : (t rest : Bytes) → All P t → All P rest → All P (escape t rest)
  unfolding escape
  escape-All [] rest h hr = (quote, (space, hr))
  escape-All (c ∷ t) rest h hr = elim (Bool-cases (c == b'"' || c == b'\\')) [
    | inl e ↦ rw e (backslash, (h.0, escape-All t rest h.1 hr))
    | inr e ↦ rw e (h.0, escape-All t rest h.1 hr)
  ]

  pub line_of-All : (ts : List Bytes) → All (All P) ts → All P (line_of ts)
  unfolding line_of
  line_of-All [] h = tt
  line_of-All (t ∷ ts) h = (quote, escape-All t (line_of ts) h.0 (line_of-All ts h.1))

abbrev pub exit_of : Kept → Status
exit_of r = if is_negative r.0 then one else success

-- The exit code of the loop, where no line follows.
module _ (c : Card) (o : Options) where
  last_line :
      (r : Outcome Kept) (handles : Handles)
      → continue
          (continue r (λ (status, open_now). pure (status, record handles { mixer = open_now })))
          (λ (status, next). if is_negative status then pure one else exec_lines c o next [])
        ≡ continue r (λ k. pure (exit_of k))
  unfolding exec_lines pure
  last_line (done (status, open_now) t) handles = elim (Bool-cases (is_negative status)) [
    | inl e ↦ rw e refl
    | inr e ↦ rw e refl
  ]
  last_line (undefined cause t) handles = refl

  exec_lines-sset :
      (ts : List Bytes) (line : Bytes) (handles : Handles) (t : Trace)
      → split_line line max_args ≡ codes "sset" ∷ ts
      → exec_lines c o handles (line ∷ []) t
        ≡ (sset c o ts false true handles.mixer >>= λ k. pure (exit_of k)) t
  unfolding exec_lines exec_line str_eq
  exec_lines-sset ts line handles t e =
      rw e (last_line (sset c o ts false true handles.mixer t) handles)

-- A stdin that is one line without a line break, with `sset` and its arguments in quotes, runs sset
-- with those arguments, with errors that a control is not there ignored and the handle kept, and the
-- program ends with 1 where sset returns an error and with 0 else. The line has less than 256 bytes
-- and its arguments no line breaks and no NUL, and there are at most 31.
pub stdin_runs_sset :
    (c : Card) (o : Options) (ts : List Bytes)
    → c.stdin ≡ line_of (codes "sset" ∷ ts)
    → All (All (λ b. b ≢ b'\n')) ts
    → All (All (λ b. b ≢ 0)) ts
    → length ts < max_args
    → length (line_of (codes "sset" ∷ ts)) < buf_size
    → exec_stdin c o
      ≡ (sset c (record o { ignore_error = true }) ts false true false >>= λ k. pure (exit_of k))
unfolding exec_stdin line_of
stdin_runs_sset c o ts e plain hz few short =
    let name : All (λ b. b ≢ b'\n') (codes "sset") = omega arith in
    let named : All (λ b. b ≢ 0) (codes "sset") = omega arith in
    let line =
      read_lines-text buf_size b'"' (escape (codes "sset") (line_of ts))
        (line_of-All (λ b. b ≢ b'\n') (omega arith) (omega arith) (omega arith) (codes "sset" ∷ ts)
          (name, plain))
        (line_of-All (λ b. b ≢ 0) (omega arith) (omega arith) (omega arith) (codes "sset" ∷ ts)
          (named, hz))
        short in
    let lines =
      subst (λ (s : Bytes). read_lines (length s) buf_size s ≡ line_of (codes "sset" ∷ ts) ∷ [])
        (sym e) line in
    rw lines (
      fun_ext (λ t.
        exec_lines-sset c (record o { ignore_error = true }) ts (line_of (codes "sset" ∷ ts))
          (record { mixer = false; ctl = false }) t
          (split_line-quoted (codes "sset" ∷ ts) max_args (name, plain) (omega arith))))
