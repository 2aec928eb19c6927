-- ===== src/Backend/Tests.antt =====
-- Two goroutines and a pool.
use gocryptsftp.Base.{ℕ, ◌≡◌, refl, some, List, [], ◌∷◌, codes}
use mathlib.Core.Option
use gocryptsftp.FileTree.Defs.{gives, fails}
use gocryptsftp.Backend.{
  connects, opened, read_file, stat, Provider, new_provider, new_conn, get, close, put, answered,
  written, pinged, Action, calls, gets, answers, writes, pings, puts, closes, step_at, run,
}
use gocryptsftp.Backend.Sound.{IsSound}
use gocryptsftp.Backend.Reach.{run_new-IsSound}

program : Unit {0}
unfolding new_provider new_conn get close put answered written pinged step_at run
program = tt

-- Goroutine 1 reads a file while the request of goroutine 2 fails, and so does its ping.
abbrev schedule : List (ℕ × Action)
schedule =
    (1, calls read_file)
    ∷ (2, calls stat)
    ∷ (1, gets connects)
    ∷ (2, gets connects)
    ∷ (1, answers (gives opened))
    ∷ (2, answers (fails 4))
    ∷ (2, pings (some 5))
    ∷ (1, writes (gives (codes "x")))
    ∷ (1, puts)
    ∷ (2, closes)
    ∷ []

final : Provider
unfolding program
final = Option.get_or (run schedule new_provider) new_provider

final-run : run schedule new_provider ≡ some final
unfolding final program
final-run = refl

-- One connection is in the pool, the other one closed.
final_conns : (final.conns ≡ 0 ∷ []) × (final.closed ≡ 1 ∷ [])
unfolding final program
final_conns = (refl, refl)

run_new-IsSound_example : IsSound final
run_new-IsSound_example = run_new-IsSound schedule final final-run
