-- ===== src/TmixerAlsa/Safe/Commands.antt =====
-- The commands of tmixer/tmixer-alsa.c are safe, whatever the command line and stdin say.
use tcos.Base.{◌≡◌, ℕ, ltb_ℤ, ℤ, refl, false, Bool, Bytes, List, [], ◌∷◌, Option, none, some}
use tcos.Host.{Trace, Event, VolType, ControlSide, write_element, pure, undef, ask, ◌>>=◌}
use tcos.Host.Emits.{Extends, Emits, Emits-bind, Emits-pure, Emits-if, Emits-seen, Emits-weaken}
use tcos.TmixerAlsa.{Result}
use tcos.TmixerAlsa.Allowed.{IsAllowed, IsChecking}
use tcos.TmixerAlsa.Card.{Card, ElementInfo, Element, Options, Simple, Status, read, option_case}
use tcos.TmixerAlsa.Channels.{Check, failed, skipped, changed}
use tcos.TmixerAlsa.ControlId.{Setting, ControlInfo}
use tcos.TmixerAlsa.Cset.{
  write_values, set_values, close_ctl, show_shown, show_element, set_element, on_settings, cset,
}
use tcos.TmixerAlsa.Enums.{set_control}
use tcos.TmixerAlsa.InRange.{sset_in_range}
use tcos.TmixerAlsa.Safe.{IsSafe, safe_rules, open_mixer-Safe}
use tcos.TmixerAlsa.Safe.Listings.{show_selem-Safe, show_control-Safe, open_hctl-Safe}
use tcos.TmixerAlsa.Safe.Values.{Proper, Yields, AreGood, given_values-Good}
use tcos.TmixerAlsa.SimpleId.{SimpleId}
use tcos.TmixerAlsa.Sset.{
  configured, finish, show_result, after_set, set_found, on_simple, on_id, sset,
}
use tcos.TmixerAlsa.Volumes.{Control}

-- No range that the card reports is empty, every enumerated element has an item, and a long holds
-- the values of the elements.
pub record IsSound (c : Card) : Type 0 where
  pub ranges :
      (u t : Trace) (sid : SimpleId) (s : Simple) (dir : ControlSide) (vol_type : VolType)
      (pmin pmax : ℤ)
      → c.find_simple u sid ≡ some s
      → s.control.get_range t dir vol_type ≡ some (pmin, pmax)
      → ltb_ℤ pmax pmin ≡ false
  pub elements :
      (t : Trace) (settings : List Setting) (info : ElementInfo)
      → c.find_element t settings ≡ some info
      → Proper c info info.element_type

-- The option for the check does not change what a control reports.
configured-Allowed :
    (o : Options) (control : Control) (e : Event)
    → IsAllowed (configured o control) e
    → IsAllowed control e
unfolding configured
configured-Allowed o control _ (IsAllowed.volume t dir vol_type chn val pmin pmax r low high) =
    IsAllowed.volume t dir vol_type chn val pmin pmax r low high
configured-Allowed o control _ (IsAllowed.item i lt) = IsAllowed.item i lt
configured-Allowed o control _ (IsAllowed.switch dir chn value) = IsAllowed.switch dir chn value

module _ (c : Card) (sound : IsSound c) (o : Options) (checks : o.no_check ≡ false) where
  configured-IsChecking :
      (u : Trace) (sid : SimpleId) (s : Simple)
      → c.find_simple u sid ≡ some s
      → IsChecking (configured o s.control)
  unfolding configured
  configured-IsChecking u sid s found = record {
    check = checks;
    proper = λ t dir vol_type pmin pmax r. sound.ranges u t sid s dir vol_type pmin pmax found r;
  }

  set_control-Safe :
      (u : Trace) (sid : SimpleId) (s : Simple) (args : List (Bytes × ℕ))
      → c.find_simple u sid ≡ some s
      → Emits (IsSafe c) (set_control (configured o s.control) c.ids args)
  set_control-Safe u sid s args found =
      Emits-weaken _
        (λ e allowed. IsSafe.sets u sid s e found (configured-Allowed o s.control e allowed))
        (sset_in_range (configured o s.control) (configured-IsChecking u sid s found) c.ids args)

  finish-Safe : (keep : Bool) (status : Status) → Emits (IsSafe c) (finish keep status)
  unfolding finish
  finish-Safe keep status = search safe_rules

  show_result-Safe : (keep : Bool) (sid : SimpleId) → Emits (IsSafe c) (show_result c o keep sid)
  unfolding show_result
  show_result-Safe keep sid = search (safe_rules, finish-Safe, show_selem-Safe)

  after_set-Safe :
      (keep : Bool) (sid : SimpleId) (check : Check)
      → Emits (IsSafe c) (after_set c o keep sid check)
  unfolding after_set
  after_set-Safe keep sid skipped = finish-Safe keep _
  after_set-Safe keep sid failed = finish-Safe keep _
  after_set-Safe keep sid changed = show_result-Safe keep sid

  module _ (argv : List Bytes) (roflag keep : Bool) where
    set_found-Safe :
        (u : Trace) (sid : SimpleId) (values : List Bytes) (s : Option Simple)
        → c.find_simple u sid ≡ s
        → Emits (IsSafe c) (set_found c o argv roflag keep sid values s)
    unfolding set_found
    set_found-Safe u sid values none found = search safe_rules
    set_found-Safe u sid values (some s) found =
        Emits-if _ _ _ (show_result-Safe keep sid)
          (Emits-bind _ _ (set_control-Safe u sid s _ found) (after_set-Safe keep sid))

    on_simple-Safe :
        (sid : SimpleId) (values : List Bytes)
        → Emits (IsSafe c) (on_simple c o argv roflag keep sid values)
    unfolding on_simple
    on_simple-Safe sid values = Emits-seen _ _ (λ u. set_found-Safe u sid values _ refl)

    on_id-Safe :
        (handle : Bool) (values : List Bytes) (sid : Option SimpleId)
        → Emits (IsSafe c) (on_id c o argv roflag keep handle values sid)
    unfolding on_id
    on_id-Safe handle values none = search safe_rules
    on_id-Safe handle values (some sid) = search (safe_rules, open_mixer-Safe, on_simple-Safe)

  pub sset-Safe :
      (argv : List Bytes) (roflag keep handle : Bool)
      → Emits (IsSafe c) (sset c o argv roflag keep handle)
  unfolding sset
  sset-Safe [] roflag keep handle = Emits-pure _
  sset-Safe (id ∷ values) roflag keep handle = search (safe_rules, on_id-Safe)

  show_shown-Safe : (elem : Option Element) → Emits (IsSafe c) (show_shown c elem)
  unfolding show_shown
  show_shown-Safe none = search safe_rules
  show_shown-Safe (some elem) = search (safe_rules, show_control-Safe)

  show_element-Safe :
      (id : ControlInfo) (handle : Bool) → Emits (IsSafe c) (show_element c o id handle)
  unfolding show_element
  show_element-Safe id handle = search (safe_rules, open_hctl-Safe, show_shown-Safe) depth 14

  close_ctl-Safe : (keep : Bool) → Emits (IsSafe c) (close_ctl keep)
  unfolding close_ctl
  close_ctl-Safe keep = search safe_rules

  module _ (u : Trace) (settings : List Setting) (info : ElementInfo)
      (found : c.find_element u settings ≡ some info) where
    write_values-Safe :
        (values : List ℤ)
        → AreGood c o checks info values
        → Emits (IsSafe c) (write_values c info values)
    unfolding write_values
    write_values-Safe values (le, fits) =
        let safe : IsSafe c (write_element info.id.numid values) =
          IsSafe.writes u settings info values found le fits in
        search (safe_rules, safe)

    write_given-Safe :
        (r : Result (List ℤ))
        → Yields (AreGood c o checks info) r
        → Emits
            (IsSafe c)
            (read r >>= λ given. option_case given (pure false) (write_values c info))
    unfolding read pure undef
    write_given-Safe _ (Yields.value values good) = record {
      at = λ t. (write_values-Safe values good).at t;
    }
    write_given-Safe _ Yields.invalid = record { at = λ t. Extends.same }
    write_given-Safe _ (Yields.failing cause) = record { at = λ t. Extends.same }
    write_given-Safe _ Yields.looping = record { at = λ t. Extends.same }

    set_values-Safe :
        (roflag keep : Bool) (args : List Bytes)
        → Emits (IsSafe c) (set_values c o roflag keep info args)
    unfolding set_values
    set_values-Safe roflag keep args = Emits-if _ _ _ (Emits-pure _) (
        write_given-Safe _
          (given_values-Good c o checks info args (sound.elements u settings info found)))

  set_element-Safe :
      (u : Trace) (settings : List Setting) (args : List Bytes) (roflag keep : Bool)
      (info : Option ElementInfo)
      → c.find_element u settings ≡ info
      → Emits (IsSafe c) (set_element c o args roflag keep info)
  unfolding set_element
  set_element-Safe u settings args roflag keep none found = search (safe_rules, close_ctl-Safe)
  set_element-Safe u settings args roflag keep (some info) found =
      Emits-bind _ _ (set_values-Safe u settings info found roflag keep args)
        (λ written. search (safe_rules, close_ctl-Safe, show_element-Safe))

  find_element-Safe :
      (settings : List Setting) (args : List Bytes) (roflag keep : Bool)
      → Emits
          (IsSafe c)
          (ask (λ t. c.find_element t settings) >>= λ info. set_element c o args roflag keep info)
  find_element-Safe settings args roflag keep =
      Emits-seen _ _ (λ u. set_element-Safe u settings args roflag keep _ refl)

  on_settings-Safe :
      (args : List Bytes) (roflag keep handle : Bool) (settings : Option (List Setting))
      → Emits (IsSafe c) (on_settings c o args roflag keep handle settings)
  unfolding on_settings
  on_settings-Safe args roflag keep handle none = search safe_rules
  on_settings-Safe args roflag keep handle (some settings) =
      search (safe_rules, find_element-Safe) depth 12

  pub cset-Safe :
      (argv : List Bytes) (roflag keep handle : Bool)
      → Emits (IsSafe c) (cset c o argv roflag keep handle)
  unfolding cset
  cset-Safe [] roflag keep handle = Emits-pure _
  cset-Safe (id ∷ args) roflag keep handle = search (safe_rules, on_settings-Safe)
