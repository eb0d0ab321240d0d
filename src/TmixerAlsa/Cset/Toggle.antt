-- ===== src/TmixerAlsa/Cset/Toggle.antt =====
-- `toggle` as a value of cset of tmixer/tmixer-alsa.c.
use tcos.Base.{
  ℕ, zero, suc, ◌≡◌, ◌∙◌, refl, ℤ, pos, false, Bytes, codes, List, [], ◌∷◌, ◌++◌, Bool,
  append_assoc, append-nil, length, get_or, str_contains, ap,
}
use tcos.Host.{Trace, done, write_element, pure, ask, emit}
use tcos.TmixerAlsa.{ok, has_prefix, to_lower}
use tcos.TmixerAlsa.Card.{Card, Options, ElementInfo, boolean, read}
use tcos.TmixerAlsa.Cset.{
  read_boolean, read_value, next_value, read_values, rounds, given_values, write_values, set_values,
}

pub ones : ℕ → List ℤ
ones zero = []
ones (suc n) = pos 1 ∷ ones n

abbrev pub toggle : Bytes
toggle = codes "toggle"

get_or-length : (values : List ℤ) → get_or values (length values) (pos 0) ≡ pos 0
get_or-length [] = refl
get_or-length (v ∷ values) = get_or-length values

module _ (c : Card) (o : Options) (info : ElementInfo) (kind : info.element_type ≡ boolean) where
  read_values-toggle :
      (n : ℕ) (values : List ℤ)
      → read_values c o info toggle n values toggle ≡ ok (values ++ ones n)
  unfolding read_values read_value read_boolean next_value ones has_prefix to_lower str_contains
  read_values-toggle zero values = rw append-nil refl
  read_values-toggle (suc n) values =
      rw (kind, get_or-length values)
        (read_values-toggle n (values ++ pos 1 ∷ [])
          ∙ ap ok (append_assoc values (pos 1 ∷ []) (ones n)))

  -- `toggle` switches every value of a boolean element on, whatever its values are: the code looks
  -- at its own buffer, which holds zeros, and not at the card.
  pub toggle_sets_on :
      (keep : Bool) (more : List Bytes) (t : Trace)
      → set_values c o false keep info (toggle ∷ more) t
        ≡ done
            (c.accepts_values t info.id.numid (ones (rounds info)))
            (write_element info.id.numid (ones (rounds info)) ∷ t)
  unfolding set_values given_values read write_values pure ask emit
  toggle_sets_on keep more t = rw (read_values-toggle (rounds info) []) refl
