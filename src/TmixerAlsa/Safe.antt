-- ===== src/TmixerAlsa/Safe.antt =====
-- What tmixer/tmixer-alsa.c may do: print, open and close ALSA's handles, and set controls and
-- elements to values that they have. The actions that only print or call the library are safe.
pub mod Numbers
pub mod Values
pub mod Listings
pub mod Commands
pub mod Program
use tcos.Base.{
  ◌≡◌, ◌≤◌, ◌<◌, ◌⊎◌, ℕ, ℤ, pos, ltb_ℤ, true, false, Bool, Bytes, List, [], ◌∷◌, Option, none, some,
  All, length,
}
use tcos.Host.{Event, Trace, AlsaCall, print, alsa, write_element, M, ◌>>=◌}
use tcos.Host.Emits.{Emits, emits_rules, Emits-pure, Emits-undef}
use tcos.TmixerAlsa.{Result, ok, einval, undefined, endless}
use tcos.TmixerAlsa.Allowed.{IsAllowed, IsChecking}
use tcos.TmixerAlsa.Card.{
  Card, ElementInfo, ElementType, boolean, integer, integer64, enumerated, bytes, iec958, other,
  Options, Simple, say, call, read, open_mixer, give_up, option_case,
}
use tcos.TmixerAlsa.ControlId.{Setting}
use tcos.TmixerAlsa.SimpleId.{SimpleId}
use tcos.TmixerAlsa.Volumes.{Control}

-- The value is not outside a range.
pub record Within (min max val : ℤ) : Type 0 where
  pub low : ltb_ℤ val min ≡ false
  pub high : ltb_ℤ max val ≡ false

-- A switch is 0 or 1, a number lies in the element's range, an item is one that the element has, a
-- byte is below 256, and a value of another type is left 0.
abbrev pub Fits : ElementInfo → ElementType → ℤ → Type 0
Fits info boolean v = Within (pos 0) (pos 1) v
Fits info integer v = Within info.min info.max v
Fits info integer64 v = Within info.min info.max v
Fits info enumerated v = (i : ℕ) × (v ≡ pos i) × (i < info.items)
Fits info bytes v = (b : ℕ) × (v ≡ pos b) × (b < 256)
Fits info iec958 v = v ≡ pos 0
Fits info other v = v ≡ pos 0

-- `sets` is for a simple control that the mixer finds, `writes` for an element that the card finds,
-- with no more values than the element has; the values behind those are written as 0.
pub data IsSafe (c : Card) : Event → Type 0 where
  prints : (s : Bytes) → IsSafe c (print s)
  calls : (a : AlsaCall) → IsSafe c (alsa a)
  sets :
      (t : Trace) (sid : SimpleId) (s : Simple) (e : Event)
      → c.find_simple t sid ≡ some s
      → IsAllowed s.control e
      → IsSafe c e
  writes :
      (t : Trace) (settings : List Setting) (info : ElementInfo) (values : List ℤ)
      → c.find_element t settings ≡ some info
      → length values ≤ info.count
      → All (Fits info info.element_type) values
      → IsSafe c (write_element info.id.numid values)

module _ {A B : Type 0} {P : Event → Type 0} where
  pub Emits-option :
      (o : Option A) (m : M B) (f : A → M B)
      → Emits P m
      → ((a : A) → Emits P (f a))
      → Emits P (option_case o m f)
  Emits-option none m f hm hf = hm
  Emits-option (some a) m f hm hf = hf a

pub Emits-read : {A : Type 0} {P : Event → Type 0} (r : Result A) → Emits P (read r)
unfolding read
Emits-read (ok a) = Emits-pure _
Emits-read einval = Emits-pure _
Emits-read (undefined cause) = Emits-undef cause
Emits-read endless = Emits-pure _

module _ {c : Card} where
  pub say-Safe : (parts : List Bytes) → Emits (IsSafe c) (say parts)
  unfolding say
  say-Safe parts = search (emits_rules, IsSafe.prints)

  pub call-Safe : (a : AlsaCall) → Emits (IsSafe c) (call c a)
  unfolding call
  call-Safe a = search (emits_rules, IsSafe.calls)

  give_up-Safe : Emits (IsSafe c) give_up
  unfolding give_up
  give_up-Safe = search (emits_rules, IsSafe.calls)

pub ruleset safe_rules =
    (emits_rules, Emits-option, Emits-read, say-Safe, call-Safe, IsSafe.prints, IsSafe.calls)

pub open_mixer-Safe : {c : Card} (o : Options) → Emits (IsSafe c) (open_mixer c o)
unfolding open_mixer
open_mixer-Safe o = search (safe_rules, give_up-Safe) depth 16
