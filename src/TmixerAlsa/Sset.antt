-- ===== src/TmixerAlsa/Sset.antt =====
-- sset of tmixer/tmixer-alsa.c, for `sset` and `sget`, with its static handle of the mixer.
use tcos.Base.{
  ℕ, ◌+◌, Bool, true, false, ◌&&◌, not, ◌==◌, Bytes, List, [], ◌∷◌, Option, none, some, length,
  if◌then◌else◌,
}
use tcos.Host.{M, mixer_close, alsa, pure, ask, emit, ◌>>=◌, ◌>>◌}
use tcos.TmixerAlsa.Card.{Card, Options, Simple, Status, success, one, negative, read, open_mixer}
use tcos.TmixerAlsa.Channels.{Check, failed, skipped, changed}
use tcos.TmixerAlsa.Elements.{only_basic}
use tcos.TmixerAlsa.Enums.{set_control}
use tcos.TmixerAlsa.SimpleId.{SimpleId, parse_simple_id}
use tcos.TmixerAlsa.Simples.{show_selem}
use tcos.TmixerAlsa.Volumes.{Control}

-- What a command returns, and whether its static handle is open then.
abbrev pub Kept : Type 0
Kept = Status × Bool

-- The program's options in force for a control.
unfoldable pub configured : Options → Control → Control
configured o control = record control { no_check = o.no_check; ignore_error = o.ignore_error }

-- The arguments from a position on, each with the free bytes behind it.
unfoldable pub with_room : Card → List Bytes → ℕ → List Bytes → List (Bytes × ℕ)
with_room c argv i [] = []
with_room c argv i (arg ∷ args) = (arg, c.room argv i) ∷ with_room c argv (i + 1) args

-- From `done` on: the handle is closed if it is not kept.
unfoldable pub finish : Bool → Status → M Kept
finish keep status =
    if keep then pure (status, true) else emit (alsa mixer_close) >> pure (status, false)

unfoldable pub show_result : Card → Options → Bool → SimpleId → M Kept
unfolding show_selem finish
show_result c o keep sid =
    (if o.quiet
      then finish keep success
      else show_selem c sid only_basic >>= λ shown. finish keep success)

unfoldable pub after_set : Card → Options → Bool → SimpleId → Check → M Kept
unfolding show_result finish
after_set c o keep sid skipped = finish keep success
after_set c o keep sid failed = finish keep one
after_set c o keep sid changed = show_result c o keep sid

-- The control that was found, if one was, and the arguments behind its name.
unfoldable pub set_found :
    Card → Options → List Bytes → Bool → Bool → SimpleId → List Bytes → Option Simple → M Kept
unfolding set_control after_set configured with_room show_result
set_found c o argv roflag keep sid values none =
    if o.ignore_error
    then pure (success, true)
    else emit (alsa mixer_close) >> pure (negative, false)
set_found c o argv roflag keep sid values (some s) =
    if roflag
    then show_result c o keep sid
    else set_control (configured o s.control) c.ids (with_room c argv 1 values)
      >>= after_set c o keep sid

unfoldable pub on_simple :
    Card → Options → List Bytes → Bool → Bool → SimpleId → List Bytes → M Kept
unfolding set_found
on_simple c o argv roflag keep sid values =
    ask (λ t. c.find_simple t sid) >>= set_found c o argv roflag keep sid values

-- The mixer is opened unless it is kept from the last command.
unfoldable pub on_id :
    Card → Options → List Bytes → Bool → Bool → Bool → List Bytes → Option SimpleId → M Kept
unfolding on_simple open_mixer
on_id c o argv roflag keep handle values none = pure (one, handle)
on_id c o argv roflag keep handle values (some sid) =
    if not roflag && length values == 0
    then pure (one, handle)
    else ((if handle then pure true else open_mixer c o) >>= λ opened.
        if opened then on_simple c o argv roflag keep sid values else pure (negative, false))

unfoldable pub sset : Card → Options → List Bytes → Bool → Bool → Bool → M Kept
unfolding read on_id
sset c o [] roflag keep handle = pure (one, handle)
sset c o (id ∷ values) roflag keep handle =
    read (parse_simple_id id) >>= on_id c o (id ∷ values) roflag keep handle values
