-- ===== src/TmixerAlsa/Safe/Listings.antt =====
-- The listings of tmixer/tmixer-alsa.c set nothing.
use tcos.Base.{ℕ, zero, suc, ◌+◌, ℤ, Bool, Bytes, List, [], ◌∷◌, Option, none, some}
use tcos.Host.{ControlSide}
use tcos.Host.Emits.{Emits, Emits-bind, Emits-pure}
use tcos.TmixerAlsa.Card.{
  Card, Options, Element, ElementInfo, ElementType, boolean, integer, integer64, enumerated, bytes,
  iec958, other, Memory, Notice, Poll, Simple, CardInfo,
}
use tcos.TmixerAlsa.Elements.{
  Level, show_items, show_limits, show_values, show_tlv, show_current, show_info, show_control,
  list_elements, open_hctl, controls,
}
use tcos.TmixerAlsa.Listening.{on_notice, on_notices, poll_loop, events, sevents}
use tcos.TmixerAlsa.Main.{show_card, info}
use tcos.TmixerAlsa.Safe.{IsSafe, safe_rules, open_mixer-Safe}
use tcos.TmixerAlsa.SimpleId.{SimpleId}
use tcos.TmixerAlsa.Simples.{
  get_percent, show_volume, show_switch, show_mono, show_channel_side, show_channels, show_contents,
  show_found, show_selem, list_simples, selems,
}
use tcos.TmixerAlsa.Volumes.{Control}

module _ {c : Card} where
  show_items-Safe :
      (space : Bytes) (i : ElementInfo) (n item : ℕ) → Emits (IsSafe c) (show_items space i n item)
  unfolding show_items
  show_items-Safe space i zero item = Emits-pure _
  show_items-Safe space i (suc n) item =
      let rest = show_items-Safe space i n (item + 1) in search safe_rules

  show_limits-Safe :
      (space : Bytes) (i : ElementInfo) (kind : ElementType)
      → Emits (IsSafe c) (show_limits space i kind)
  unfolding show_limits
  show_limits-Safe space i integer = search safe_rules
  show_limits-Safe space i integer64 = search safe_rules
  show_limits-Safe space i enumerated = search (safe_rules, show_items-Safe)
  show_limits-Safe space i boolean = search safe_rules
  show_limits-Safe space i bytes = search safe_rules
  show_limits-Safe space i iec958 = search safe_rules
  show_limits-Safe space i other = search safe_rules

  show_values-Safe :
      (kind : ElementType) (status : ℕ → ℕ) (values : ℕ → ℤ) (n idx : ℕ)
      → Emits (IsSafe c) (show_values kind status values n idx)
  unfolding show_values
  show_values-Safe kind status values zero idx = Emits-pure _
  show_values-Safe kind status values (suc n) idx =
      let rest = show_values-Safe kind status values n (idx + 1) in search safe_rules

  show_tlv-Safe : (space : Bytes) (tlv : Option Memory) → Emits (IsSafe c) (show_tlv c space tlv)
  unfolding show_tlv
  show_tlv-Safe space none = search safe_rules
  show_tlv-Safe space (some tlv) = search safe_rules

  show_current-Safe :
      (space : Bytes) (elem : Element) (i : ElementInfo) (values : Option (ℕ → ℤ))
      → Emits (IsSafe c) (show_current c space elem i values)
  unfolding show_current
  show_current-Safe space elem i none = search safe_rules
  show_current-Safe space elem i (some values) =
      search (safe_rules, show_values-Safe, show_tlv-Safe) depth 12

  show_info-Safe :
      (space : Bytes) (elem : Element) (level : Level) (i : Option ElementInfo)
      → Emits (IsSafe c) (show_info c space elem level i)
  unfolding show_info
  show_info-Safe space elem level none = search safe_rules
  show_info-Safe space elem level (some i) =
      search (safe_rules, show_limits-Safe, show_current-Safe) depth 12

  pub show_control-Safe :
      (space : Bytes) (elem : Element) (level : Level)
      → Emits (IsSafe c) (show_control c space elem level)
  unfolding show_control
  show_control-Safe space elem level = search (safe_rules, show_info-Safe)

  list_elements-Safe :
      (level : Level) (elems : List Element) → Emits (IsSafe c) (list_elements c level elems)
  unfolding list_elements
  list_elements-Safe level [] = Emits-pure _
  list_elements-Safe level (elem ∷ elems) =
      let rest = list_elements-Safe level elems in search (safe_rules, show_control-Safe) depth 12

  pub open_hctl-Safe : (o : Options) → Emits (IsSafe c) (open_hctl c o)
  unfolding open_hctl
  open_hctl-Safe o = search safe_rules

  pub controls-Safe : (o : Options) (level : Level) → Emits (IsSafe c) (controls c o level)
  unfolding controls
  controls-Safe o level = search (safe_rules, open_hctl-Safe, list_elements-Safe) depth 12

  get_percent-Safe : (val : ℤ) (range : ℤ × ℤ) → Emits (IsSafe c) (get_percent c val range)
  unfolding get_percent
  get_percent-Safe val (min, max) = search safe_rules

  show_volume-Safe :
      (control : Control) (side : ControlSide) (chn : ℕ) (range : ℤ × ℤ) (mark : Bytes)
      → Emits (IsSafe c) (show_volume c control side chn range mark)
  unfolding show_volume
  show_volume-Safe control side chn range mark = search (safe_rules, get_percent-Safe)

  show_switch-Safe :
      (control : Control) (side : ControlSide) (chn : ℕ) (mark : Bytes)
      → Emits (IsSafe c) (show_switch control side chn mark)
  unfolding show_switch
  show_switch-Safe control side chn mark = search safe_rules

  show_mono-Safe :
      (s : Simple) (side : ControlSide) (range : ℤ × ℤ)
      → Emits (IsSafe c) (show_mono c s side range)
  unfolding show_mono
  show_mono-Safe s side range = search (safe_rules, show_volume-Safe, show_switch-Safe)

  show_channel_side-Safe :
      (s : Simple) (side : ControlSide) (chn : ℕ) (range : ℤ × ℤ) (pmono cmono : Bool)
      → Emits (IsSafe c) (show_channel_side c s side chn range pmono cmono)
  unfolding show_channel_side
  show_channel_side-Safe s side chn range pmono cmono =
      search (safe_rules, show_volume-Safe, show_switch-Safe) depth 12

  show_channels-Safe :
      (s : Simple) (pmono cmono : Bool) (prange crange : ℤ × ℤ) (n chn : ℕ)
      → Emits (IsSafe c) (show_channels c s pmono cmono prange crange n chn)
  unfolding show_channels
  show_channels-Safe s pmono cmono prange crange zero chn = Emits-pure _
  show_channels-Safe s pmono cmono prange crange (suc n) chn =
      let rest = show_channels-Safe s pmono cmono prange crange n (chn + 1) in
      search (safe_rules, show_channel_side-Safe)

  show_contents-Safe : (sid : SimpleId) (s : Simple) → Emits (IsSafe c) (show_contents c sid s)
  unfolding show_contents
  show_contents-Safe sid s = search (safe_rules, show_mono-Safe, show_channels-Safe) depth 20

  show_found-Safe :
      (sid : SimpleId) (level : Level) (s : Option Simple)
      → Emits (IsSafe c) (show_found c sid level s)
  unfolding show_found
  show_found-Safe sid level none = search safe_rules
  show_found-Safe sid level (some s) = search (safe_rules, show_contents-Safe) depth 12

  pub show_selem-Safe : (sid : SimpleId) (level : Level) → Emits (IsSafe c) (show_selem c sid level)
  unfolding show_selem
  show_selem-Safe sid level = search (safe_rules, show_found-Safe)

  list_simples-Safe :
      (level : Level) (sids : List SimpleId) → Emits (IsSafe c) (list_simples c level sids)
  unfolding list_simples
  list_simples-Safe level [] = Emits-pure _
  list_simples-Safe level (sid ∷ sids) =
      let rest = list_simples-Safe level sids in search (safe_rules, show_selem-Safe)

  pub selems-Safe : (o : Options) (level : Level) → Emits (IsSafe c) (selems c o level)
  unfolding selems
  selems-Safe o level = search (safe_rules, open_mixer-Safe, list_simples-Safe) depth 12

  show_card-Safe :
      (o : Options) (i : Option CardInfo) (count : Option ℕ)
      → Emits (IsSafe c) (show_card c o i count)
  unfolding show_card
  show_card-Safe o none count = search safe_rules
  show_card-Safe o (some i) count = search safe_rules depth 12

  pub info-Safe : (o : Options) → Emits (IsSafe c) (info c o)
  unfolding info
  info-Safe o = search (safe_rules, show_card-Safe, open_mixer-Safe) depth 20

module _ {c : Card} {A : Type 0} (show : A → Bytes) where
  on_notice-Safe : (n : Notice A) → Emits (IsSafe c) (on_notice show n)
  unfolding on_notice
  on_notice-Safe n = search safe_rules depth 12

  on_notices-Safe : (notices : List (Notice A)) → Emits (IsSafe c) (on_notices show notices)
  unfolding on_notices
  on_notices-Safe [] = Emits-pure _
  on_notices-Safe (n ∷ notices) =
      Emits-bind _ _ (on_notice-Safe n) (λ done. on_notices-Safe notices)

  poll_loop-Safe : (polls : List (Poll A)) → Emits (IsSafe c) (poll_loop show polls)
  unfolding poll_loop
  poll_loop-Safe [] = Emits-pure _
  poll_loop-Safe (p ∷ polls) =
      let rest = poll_loop-Safe polls in search (safe_rules, on_notices-Safe)

module _ {c : Card} (o : Options) where
  pub events-Safe : Emits (IsSafe c) (events c o)
  unfolding events
  events-Safe = search (safe_rules, open_hctl-Safe, poll_loop-Safe)

  pub sevents-Safe : Emits (IsSafe c) (sevents c o)
  unfolding sevents
  sevents-Safe = search (safe_rules, open_mixer-Safe, poll_loop-Safe)
