-- ===== src/Bot/Tests.antt =====
-- Concrete commands.
use rafuk.Base.{ℕ, ◌≡◌, ◌≤◌, ◌+◌, none, some, List, [], ◌∷◌, length, ℕ_discrete}
use rafuk.Base.OrderedDict.{find}
use rafuk.Bot.Throttling.{Throttling, init}
use rafuk.Bot.Throttling.Capacity.{commands_of}
use rafuk.Bot.Throttling.Runs.{Event, command, done, run, run-capacity}

-- The user 7 called at 100.
abbrev called : Throttling
called = record (init 3_000_000 (some 1) 1) { last_call = (7, 100) ∷ [] }

program : Unit {0}
unfolding find init ℕ_discrete
program = tt

-- Two users, one slot, one place in the queue, and a double tap.
abbrev rush : List Event
rush =
    command (some 7) 100
    ∷ command (some 8) 200
    ∷ command (some 7) 300
    ∷ command none 400
    ∷ done (some 7)
    ∷ []

run-capacity_example :
    ((m : ℕ) → some 1 ≡ some m → length (run rush (init 3_000_000 (some 1) 1)).running ≤ m)
    × (length (run rush (init 3_000_000 (some 1) 1)).queue ≤ 1)
    × ((u : ℕ)
        → commands_of u (run rush (init 3_000_000 (some 1) 1)).running
            + commands_of u (run rush (init 3_000_000 (some 1) 1)).queue
          ≤ 1)
run-capacity_example = run-capacity rush 3_000_000 1 (some 1)
