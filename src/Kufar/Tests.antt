-- ===== src/Kufar/Tests.antt =====
-- Concrete searches.
use rafuk.Base.{ℕ, zero, suc, ◌+◌, ◌≡◌, ◌≤◌, refl, none, some, List, [], ◌∷◌}
use rafuk.Base.Int.{pos}
use rafuk.Json.{Value, int, text, array, object, nil, cons, end, field}
use rafuk.Kufar.Pacer.{
  System, Event, enter, acquire, wake, leave, slow_down, init, run, step, phase_of, enter_slot,
  acquire_slot, wake_slot, leave_slot, pause,
}
use rafuk.Kufar.Pacer.Invariant.{IsPaced, run-IsPaced}
use rafuk.Kufar.Pacer.Pauses.{started, run_after_pause}
use rafuk.Kufar.Retry.{Attempt, status, network_error, answered}
use rafuk.Kufar.Pages.{Round, page, timed_out}

-- Kufar asks to slow down, the network fails, and then there is an answer.
abbrev shaky : ℕ → Attempt
shaky zero = status (some 429) (some 3_000_000)
shaky (suc zero) = network_error
shaky (suc (suc n)) = answered (some (object end))

-- One ad, and a cursor.
abbrev first_page : Value
first_page = object (
    field "ads" (array (cons (object (field "ad_id" (int (pos 7)) end)) nil)) (
      field "pagination"
        (object (
          field "pages"
            (array
              (cons (object (field "label" (text "next") (field "token" (text "two") end))) nil))
            end))
        end))

-- The second page fails.
abbrev rounds : ℕ → Round
rounds zero = record { checked = 0; started = 0; reply = page first_page }
rounds (suc n) = record { checked = 1; started = 1; reply = timed_out }

-- Two requests at once; Kufar asks for a pause of 3 seconds while the second one sleeps.
abbrev both : List Event
both = enter 1 ∷ enter 2 ∷ acquire 1 1_000_000 ∷ acquire 2 1_000_000 ∷ wake 1 1_000_000 ∷ []

abbrev new_system : System
new_system = record { pacer = init (pos 2) none; requests = [] }

-- The second request wakes in the pause, sleeps again, and starts.
abbrev rest : List Event
rest = wake 2 1_500_000 ∷ wake 2 4_200_000 ∷ leave 1 ∷ []

run-IsPaced_example :
    IsPaced 500_000 2 (run 500_000 (record { pacer = init (pos 2) none; requests = [] }) both)
run-IsPaced_example = run-IsPaced 500_000 (pos 2) none both

two_idle : started (phase_of 2 (run 500_000 new_system both).requests) ≡ none
unfolding run step init enter_slot acquire_slot wake_slot leave_slot phase_of
two_idle = refl

run_test :
    started (
      phase_of 2
        (run 500_000
          (run 500_000 new_system both)
          (slow_down 1_200_000 (some (pos (suc 2_999_999))) ∷ rest)).requests)
    ≡ some 4_200_000
unfolding run step init enter_slot acquire_slot wake_slot leave_slot phase_of pause
run_test = refl

run_after_pause_example : 1_200_000 + suc 2_999_999 ≤ 4_200_000
run_after_pause_example =
    run_after_pause 500_000 (run 500_000 new_system both) 2 1_200_000 2_999_999 4_200_000 rest
      two_idle run_test
