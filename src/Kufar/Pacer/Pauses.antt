-- ===== src/Kufar/Pacer/Pauses.antt =====
-- A pause holds for every request that has not started.
use rafuk.Base.{
  ℕ, suc, ◌+◌, ◌≤◌, ◌≡◌, refl, inl, inr, true, Option, none, some, List, [], ◌∷◌, arith, ◌==◌, ltb,
  leb, Bool-cases,
}
use rafuk.Base.Int.{ℤ, pos, negsuc}
use rafuk.Kufar.Pacer.{
  Pacer, System, Phase, queued, asleep, running, finished, dropped, phase_of, set_phase, Event,
  enter, acquire, wake, leave, cancel, slow_down, waiting_limit, hold_until, pause, reserve,
  stop_waiting, release, enter_slot, sleep_round, acquire_slot, wake_slot, leave_slot, cancel_slot,
  step, run,
}
use rafuk.Kufar.Pacer.Requests.{phase_of-set_phase}

-- The start of a request that has started.
abbrev pub started : Option Phase → Option ℕ
started (some (running start woke)) = some start
started (some (finished start woke)) = some start
started other = none

abbrev Late : ℕ → Option ℕ → Type 0
Late P none = Unit
Late P (some start) = P ≤ start

-- The pause lasts until `P` at least, and the request `id` has not started before.
record Waits (P id : ℕ) (s : System) : Type 0 where
  held : P ≤ s.pacer.paused_until
  late : Late P (started (phase_of id s.requests))

le-pause :
    (p : Pacer) (now : ℕ) (length : Option ℤ) → p.paused_until ≤ (pause p now length).paused_until
unfolding pause hold_until
le-pause p now none = omega arith
le-pause p now (some (negsuc n)) = omega arith
le-pause p now (some (pos n)) = ground arith

pause-le : (p : Pacer) (now n : ℕ) → now + suc n ≤ (pause p now (some (pos (suc n)))).paused_until
unfolding pause hold_until
pause-le p now n = ground arith

module _ (delay P id : ℕ) where
  Late-set :
      (j : ℕ) (q old : Phase) (rs : List (ℕ × Phase))
      → phase_of j rs ≡ some old
      → ((j == id) ≡ true → Late P (started (some q)))
      → Late P (started (phase_of id rs))
      → Late P (started (phase_of id (set_phase j q rs)))
  Late-set j q old rs h new same =
      rw (phase_of-set_phase j id q old rs h)
        (elim (Bool-cases (j == id)) [ inl e ↦ rw e (new e) | inr n ↦ rw n same ])

  enter_slot-Waits :
      (j : ℕ) (s : System) (found : Option Phase)
      → Waits P id s
      → Waits P id (enter_slot delay j s found)
  unfolding enter_slot phase_of
  enter_slot-Waits j s (some known) w = w
  enter_slot-Waits j s none w =
      elim (Bool-cases (leb (waiting_limit s.pacer delay) s.pacer.waiting)) [
        | inl full ↦ rw full w
        | inr free ↦ rw free record {
          held = w.held;
          late = elim (Bool-cases (j == id)) [ inl e ↦ rw e tt | inr n ↦ rw n w.late ];
        }
      ]

  acquire_slot-Waits :
      (j now : ℕ) (s : System) (found : Option Phase)
      → phase_of j s.requests ≡ found
      → Waits P id s
      → Waits P id (acquire_slot delay j now s found)
  unfolding acquire_slot sleep_round reserve
  acquire_slot-Waits j now s (some queued) h w = elim (Bool-cases (s.pacer.permits == 0)) [
    | inl taken ↦ rw taken w
    | inr free ↦
        rw free record {
          held = w.held;
          late = Late-set j (asleep _) queued s.requests h (λ e. tt) w.late;
        }
  ]
  acquire_slot-Waits j now s other h w = w

  wake_slot-Waits :
      (j now : ℕ) (s : System) (found : Option Phase)
      → phase_of j s.requests ≡ found
      → Waits P id s
      → Waits P id (wake_slot delay j now s found)
  unfolding wake_slot sleep_round reserve stop_waiting
  wake_slot-Waits j now s (some (asleep t)) h w = elim (Bool-cases (ltb now t)) [
    | inl early ↦ rw early w
    | inr due ↦ rw due (elim (Bool-cases (leb s.pacer.paused_until t)) [
      | inl starts ↦ rw starts record {
        held = w.held;
        late =
            Late-set j (running t now) (asleep t) s.requests h (λ e. ground (arith, w.held)) w.late;
      }
      | inr paused ↦ rw paused record {
        held = w.held;
        late = Late-set j (asleep _) (asleep t) s.requests h (λ e. tt) w.late;
      }
    ])
  ]
  wake_slot-Waits j now s other h w = w

  leave_slot-Waits :
      (j : ℕ) (s : System) (found : Option Phase)
      → phase_of j s.requests ≡ found
      → Waits P id s
      → Waits P id (leave_slot delay j s found)
  unfolding leave_slot release
  leave_slot-Waits j s (some (running t at)) h w = record {
    held = w.held;
    late =
        Late-set j (finished t at) (running t at) s.requests h
          (λ e.
            let same : id ≡ j = ground arith in
            let at_j : Late P (started (phase_of j s.requests)) = rw (← same) w.late in
            rw h at at_j)
          w.late;
  }
  leave_slot-Waits j s other h w = w

  cancel_slot-Waits :
      (j : ℕ) (s : System) (found : Option Phase)
      → phase_of j s.requests ≡ found
      → Waits P id s
      → Waits P id (cancel_slot delay j s found)
  unfolding cancel_slot release stop_waiting
  cancel_slot-Waits j s (some queued) h w = record {
    held = w.held;
    late = Late-set j dropped queued s.requests h (λ e. tt) w.late;
  }
  cancel_slot-Waits j s (some (asleep t)) h w = record {
    held = w.held;
    late = Late-set j dropped (asleep t) s.requests h (λ e. tt) w.late;
  }
  cancel_slot-Waits j s other h w = w

  step-Waits : (s : System) (e : Event) → Waits P id s → Waits P id (step delay s e)
  unfolding step
  step-Waits s (enter j) w = enter_slot-Waits j s (phase_of j s.requests) w
  step-Waits s (acquire j now) w = acquire_slot-Waits j now s (phase_of j s.requests) refl w
  step-Waits s (wake j now) w = wake_slot-Waits j now s (phase_of j s.requests) refl w
  step-Waits s (leave j) w = leave_slot-Waits j s (phase_of j s.requests) refl w
  step-Waits s (cancel j) w = cancel_slot-Waits j s (phase_of j s.requests) refl w
  step-Waits s (slow_down now length) w = record {
    held = omega (arith, w.held, le-pause s.pacer now length);
    late = w.late;
  }

  run-Waits : (s : System) (events : List Event) → Waits P id s → Waits P id (run delay s events)
  unfolding run
  run-Waits s [] w = w
  run-Waits s (e ∷ events) w = run-Waits (step delay s e) events (step-Waits s e w)

-- After a pause of `n` microseconds, `n` positive, that begins at `now`, in any state: a request that
-- has not started, among them those asleep until an earlier start and those that enter later,
-- starts at `now + n` at the earliest, whatever events follow.
pub run_after_pause :
    (delay : ℕ) (s : System) (id now n t : ℕ) (events : List Event)
    → started (phase_of id s.requests) ≡ none
    → started (phase_of id (run delay s (slow_down now (some (pos (suc n))) ∷ events)).requests)
      ≡ some t
    → now + suc n ≤ t
unfolding run step
run_after_pause delay s id now n t events idle begun =
    let w : Waits (now + suc n) id (step delay s (slow_down now (some (pos (suc n))))) = record {
      held = pause-le s.pacer now n;
      late = rw idle tt;
    } in
    rw begun at
      (run-Waits delay (now + suc n) id (step delay s (slow_down now (some (pos (suc n))))) events
        w).late
