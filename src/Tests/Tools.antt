-- ===== src/Tests/Tools.antt =====
-- The small tools: a coded password, and a display that opens at the third try.
use tcos.Base.{
  ℕ, zero, suc, str_eq, ◌<◌, ◌++◌, ◌≡◌, refl, false, arith, codes, [], ◌∷◌, some, none, ltb, length,
}
use tcos.Host.{Host, print, done, pure, emit, deref}
use tcos.Auth.{login_ok, validate_tcos}
use tcos.TcosPasswd
use tcos.TcosPasswd.Accepted.{coded_accepted}
use tcos.WaitForX
use tcos.WaitForX.Tries.{Asks, FirstOpen, failed, ended, main_waits}
use tcos.Tests.Fixtures.{machine, kiosk}

coded_accepted_example :
    (TcosPasswd.main kiosk none (codes "secret" ∷ []) []
      ≡ done 0 (print (codes "hash" ++ b'\n' ∷ []) ∷ []))
    × (validate_tcos kiosk (codes "guest") (codes "secret") [] ≡ done login_ok [])
unfolding str_eq
coded_accepted_example =
    coded_accepted kiosk none [] [] (codes "secret") (codes "hash") (codes "guest")
      (codes "root:other\n") refl (ground arith) (ground arith) (λ p. cc p) (omega arith) refl

-- A password from the terminal is printed as well, but the exit code is 1.
asks_and_fails :
    TcosPasswd.main kiosk (some (codes "secret")) [] [] ≡ done 1 (print (codes "hash\n") ∷ [])
unfolding TcosPasswd.main TcosPasswd.print_coded deref emit pure str_eq
asks_and_fails = refl

abbrev booting : Host
booting = record machine { display_opens = λ t display. ltb 3 (length t) }

third_try : FirstOpen booting (codes ":0") [] (some 2)
unfolding failed
third_try = FirstOpen.opens_at 2 (omega arith) closed refl
  where
    closed : (i : ℕ) → i < 2 → booting.display_opens (failed (codes ":0") i []) (codes ":0") ≡ false
    closed zero lt = refl
    closed (suc zero) lt = refl
    closed (suc (suc i)) lt = absurd (omega arith)

main_waits_example : WaitForX.main booting [] [] ≡ ended (codes ":0") [] (some 2)
main_waits_example = main_waits booting [] (codes ":0") [] (some 2) Asks.by_default third_try
