-- ===== src/Host/Emits.antt =====
-- Which events an action may add, with one rule for each way to build an action.
use tcos.Base.{ℕ, Bool, true, false, Bytes, Option, none, some, ◌∷◌, if◌then◌else◌, ltb, length}
use tcos.Host.{
  Event, popen, Trace, Cause, Host, Outcome, done, undefined, trace_of, M, continue, ◌>>=◌, pure,
  undef, ask, emit, run, deref, sprintf,
}

-- `u` is `t` with events in front, all of which satisfy `P`.
pub data Extends (P : Event → Type 0) (t : Trace) : Trace → Type 0 where
  same : Extends P t t
  more : {e : Event} {u : Trace} → Extends P t u → P e → Extends P t (e ∷ u)

pub Extends-trans :
    {P : Event → Type 0} {t u v : Trace} → Extends P t u → Extends P u v → Extends P t v
Extends-trans h same = h
Extends-trans h (more k p) = more (Extends-trans h k) p

Extends-weaken :
    {P Q : Event → Type 0} {t u : Trace} → ((e : Event) → P e → Q e) → Extends P t u → Extends Q t u
Extends-weaken f same = same
Extends-weaken f (more x p) = more (Extends-weaken f x) (f _ p)

-- Only events of `P` are added, whether the action ends or its behaviour is undefined.
pub record Emits {A : Type 0} (P : Event → Type 0) (m : M A) : Type 0 where
  pub at : (t : Trace) → Extends P t (trace_of (m t))

pub Emits-weaken :
    {A : Type 0} {P Q : Event → Type 0} (m : M A)
    → ((e : Event) → P e → Q e)
    → Emits P m
    → Emits Q m
Emits-weaken m f h = record { at = λ t. Extends-weaken f (h.at t) }

module _ {A : Type 0} {P : Event → Type 0} where
  pub Emits-pure : (a : A) → Emits P (pure a)
  unfolding pure
  Emits-pure a = record { at = λ t. same }

  pub Emits-undef : (c : Cause) → Emits P (undef {A = A} c)
  unfolding undef
  Emits-undef c = record { at = λ t. same }

  pub Emits-ask : (f : Trace → A) → Emits P (ask f)
  unfolding ask
  Emits-ask f = record { at = λ t. same }

  pub Emits-deref : (c : Cause) (o : Option A) → Emits P (deref c o)
  unfolding deref
  Emits-deref c none = record { at = λ t. same }
  Emits-deref c (some a) = record { at = λ t. same }

  pub Emits-if : (b : Bool) (m n : M A) → Emits P m → Emits P n → Emits P (if b then m else n)
  Emits-if true m n hm hn = hm
  Emits-if false m n hm hn = hn

module _ {P : Event → Type 0} where
  pub Emits-emit : (e : Event) → P e → Emits P (emit e)
  unfolding emit
  Emits-emit e p = record { at = λ t. more same p }

  pub Emits-run : (h : Host) (cmd : Bytes) → P (popen cmd) → Emits P (run h cmd)
  unfolding run
  Emits-run h cmd p = record { at = λ t. more same p }

  sprintf-same :
      (b : Bool) (s : Bytes) (c : Cause) (t : Trace)
      → Extends P t (trace_of (if b then done s t else undefined c t))
  sprintf-same true s c t = same
  sprintf-same false s c t = same

  pub Emits-sprintf : (n : ℕ) (s : Bytes) → Emits P (sprintf n s)
  unfolding sprintf
  Emits-sprintf n s = record { at = λ t. sprintf-same (ltb (length s) n) s _ t }

module _ {A B : Type 0} {P : Event → Type 0} where
  continue-Extends :
      (t : Trace) (r : Outcome A) (f : A → M B)
      → Extends P t (trace_of r)
      → ((a : A) → Emits P (f a))
      → Extends P t (trace_of (continue r f))
  continue-Extends t (done a u) f h k = Extends-trans h ((k a).at u)
  continue-Extends t (undefined c u) f h k = h

  pub Emits-bind :
      (m : M A) (f : A → M B) → Emits P m → ((a : A) → Emits P (f a)) → Emits P (m >>= f)
  Emits-bind m f hm hf = record { at = λ t. continue-Extends t (m t) f (hm.at t) hf }

pub ruleset emits_rules = (
  Emits-pure, Emits-undef, Emits-ask, Emits-deref, Emits-if, Emits-emit, Emits-run, Emits-sprintf,
  Emits-bind,
)

-- What follows a look at the machine sees what it found.
pub Emits-seen :
    {A B : Type 0} {P : Event → Type 0} (f : Trace → A) (k : A → M B)
    → ((t : Trace) → Emits P (k (f t)))
    → Emits P (ask f >>= k)
unfolding ask
Emits-seen f k h = record { at = λ t. (h t).at t }

module _ {A B C : Type 0} {P : Event → Type 0} (f : A → M B) (k : B → M C) where
  assoc-Extends :
      (t : Trace) (r : Outcome A)
      → Extends P t (trace_of (continue r (λ a. f a >>= k)))
      → Extends P t (trace_of (continue (continue r f) k))
  assoc-Extends t (done a u) x = x
  assoc-Extends t (undefined c u) x = x

  pub Emits-assoc : (m : M A) → Emits P (m >>= λ a. f a >>= k) → Emits P ((m >>= f) >>= k)
  Emits-assoc m h = record { at = λ t. assoc-Extends t (m t) (h.at t) }
