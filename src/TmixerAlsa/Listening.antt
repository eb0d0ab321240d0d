-- ===== src/TmixerAlsa/Listening.antt =====
-- events and sevents of tmixer/tmixer-alsa.c, which print what the library's callbacks report. The
-- loops have no end: they are followed over the waits that were made.
use tcos.Base.{pos, not, Bytes, codes, List, [], ◌∷◌, if◌then◌else◌}
use tcos.CText.Decimal.{print_int}
use tcos.Host.{M, pure, ◌>>=◌, ◌>>◌}
use tcos.TmixerAlsa.Card.{
  option_case, Card, Options, Notice, Poll, Status, negative, listening, aborted, say, open_mixer,
  concat,
}
use tcos.TmixerAlsa.ControlId.{show_control_id}
use tcos.TmixerAlsa.Elements.{open_hctl}
use tcos.TmixerAlsa.SimpleId.{SimpleId}

-- 'name',index
unfoldable pub show_simple_id : SimpleId → Bytes
unfolding concat
show_simple_id sid = concat (codes "'" ∷ sid.name ∷ codes "'," ∷ print_int sid.index ∷ [])

module _ {A : Type 0} (show : A → Bytes) where
  unfoldable pub report : Bytes → A → M (Unit {0})
  unfolding say
  report kind a = say (kind ∷ show a ∷ codes "\n" ∷ [])

  -- The callbacks of the card and of a control.
  unfoldable pub on_notice : Notice A → M (Unit {0})
  unfolding report
  on_notice n =
      if n.for_all
      then (if n.is_add then report (codes "event add: ") n.about else pure tt)
      else if n.is_remove
      then report (codes "event remove: ") n.about
      else ((if n.has_info then report (codes "event info: ") n.about else pure tt)
          >> (if n.has_value then report (codes "event value: ") n.about else pure tt))

  unfoldable pub on_notices : List (Notice A) → M (Unit {0})
  unfolding on_notice
  on_notices [] = pure tt
  on_notices (n ∷ notices) = on_notice n >> on_notices notices

  unfoldable pub poll_loop : List (Poll A) → M Status
  unfolding say on_notices
  poll_loop [] = pure listening
  poll_loop (p ∷ polls) =
      let rest = poll_loop polls in
      option_case p.res rest (λ res.
        say (codes "Poll ok: " ∷ print_int (pos res) ∷ codes "\n" ∷ [])
        >> (on_notices p.notices >> (if p.handled then rest else pure aborted)))

abbrev pub ready : List Bytes
ready = codes "Ready to listen...\n" ∷ []

unfoldable pub events : Card → Options → M Status
unfolding open_hctl say poll_loop
events c o = do
  opened ← open_hctl c o
  if not opened then pure negative else say ready >> poll_loop show_control_id c.ctl_polls

unfoldable pub sevents : Card → Options → M Status
unfolding open_mixer say poll_loop
sevents c o = do
  opened ← open_mixer c o
  if not opened then pure negative else say ready >> poll_loop show_simple_id c.mixer_polls
