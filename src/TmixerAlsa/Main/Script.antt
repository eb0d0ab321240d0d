-- ===== src/TmixerAlsa/Main/Script.antt =====
-- The lines on the stdin of tmixer-alsa run commands, one after the other.
use tcos.Base.{◌+◌, ◌<◌, ◌≢◌, Bytes, codes, List, [], ◌∷◌, All, length, true, false, if◌then◌else◌}
use tcos.Host.{M, pure, ◌>>=◌}
use tcos.TmixerAlsa.ArgLines.Quoted.{line_of}
use tcos.TmixerAlsa.Card.{Card, Options, Status, success, one}
use tcos.TmixerAlsa.Cset.{cset}
use tcos.TmixerAlsa.Main.{Handles, is_negative}
use tcos.TmixerAlsa.Sset.{sset}

-- A command with its arguments.
pub data Command : Type 0 where
  set_simple set_element : List Bytes → Command

-- The words of a command's line.
abbrev pub words : Command → List Bytes
words (set_simple ts) = codes "sset" ∷ ts
words (set_element ts) = codes "cset" ∷ ts

abbrev pub arguments : Command → List Bytes
arguments (set_simple ts) = ts
arguments (set_element ts) = ts

-- The line, with each word in quotes.
abbrev pub command_line : Command → Bytes
command_line cmd = line_of (words cmd)

-- A command whose line is read whole.
pub record IsCommand (cmd : Command) : Type 0 where
  pub unbroken : All (All (λ c. c ≢ b'\n')) (arguments cmd)
  pub plain : All (All (λ c. c ≢ 0)) (arguments cmd)
  pub few : length (arguments cmd) < 32
  pub short : length (command_line cmd) + 1 < 256

-- The commands one after the other, each with the handle that the last one of its kind left, up to
-- the first that returns an error.
unfoldable pub run_commands : Card → Options → Handles → List Command → M Status
run_commands c o handles [] = pure success
run_commands c o handles (set_simple ts ∷ rest) =
    sset c o ts false true handles.mixer >>= λ (status, open_now).
    if is_negative status
    then pure one
    else run_commands c o (record handles { mixer = open_now }) rest
run_commands c o handles (set_element ts ∷ rest) =
    cset c o ts false true handles.ctl >>= λ (status, open_now).
    if is_negative status
    then pure one
    else run_commands c o (record handles { ctl = open_now }) rest
