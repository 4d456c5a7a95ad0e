-- ===== src/Kufar/Pacer/Invariant.antt =====
-- What the pacer keeps up over any sequence of events.
use rafuk.Base.{
  ℕ, ◌+◌, ◌-◌, ◌≤◌, ◌≡◌, refl, ◌⊎◌, inl, inr, Bool, true, false, Option, none, some, List, [], ◌∷◌,
  All, max, arith, ◌==◌, ltb, leb, Bool-cases,
}
use rafuk.Base.Int.{ℤ, pos, negsuc, pos_part}
use rafuk.Kufar.Pacer.{
  Pacer, System, Phase, queued, asleep, running, finished, dropped, phase_of, set_phase, Event,
  enter, acquire, wake, leave, cancel, slow_down, init, waiting_limit, hold_until, pause, start_at,
  reserve, stop_waiting, release, enter_slot, sleep_round, acquire_slot, wake_slot, leave_slot,
  cancel_slot, step, run,
}
use rafuk.Kufar.Pacer.Requests.{
  count, weight, count-set_phase, AllTimes, AllTimes-set_phase, AllTimes-map, Early, Early-mono,
  Apart, HasSlept, All-set_phase, All-phase_of, Spaced, Spaced-same, Spaced-fresh, time_of,
  AllTimes-phase_of, same_or_none,
}

-- Entered and not started.
abbrev pub is_waiting : Phase → Bool
is_waiting queued = true
is_waiting (asleep start) = true
is_waiting p = false

-- Inside the semaphore.
abbrev pub is_holding : Phase → Bool
is_holding (asleep start) = true
is_holding (running start woke) = true
is_holding p = false

pub record IsPaced (delay slots : ℕ) (s : System) : Type 0 where
  pub waits : s.pacer.waiting ≡ count is_waiting s.requests
  pub few : s.pacer.waiting ≤ waiting_limit s.pacer delay
  pub holds : s.pacer.permits + count is_holding s.requests ≡ slots
  pub early : AllTimes (Early delay s.pacer.next_start) s.requests
  pub spaced : Spaced delay s.requests
  pub woken : All (λ r. HasSlept r.1) s.requests

waiting_limit_same :
    (delay : ℕ) (p p' : Pacer)
    → p'.max_waiting ≡ p.max_waiting
    → waiting_limit p' delay ≡ waiting_limit p delay
unfolding waiting_limit
waiting_limit_same delay p p' e = rw e

module _ (delay slots : ℕ) where
  -- A request takes another phase with the start it has, or with none.
  moved :
      (id : ℕ) (q old : Phase) (p p' : Pacer) (rs : List (ℕ × Phase))
      → phase_of id rs ≡ some old
      → (time_of q ≡ time_of old) ⊎ (time_of q ≡ none)
      → p'.next_start ≡ p.next_start
      → p'.max_waiting ≡ p.max_waiting
      → p'.waiting + weight is_waiting old ≡ p.waiting + weight is_waiting q
      → weight is_waiting q ≤ weight is_waiting old
      → p'.permits + weight is_holding q ≡ p.permits + weight is_holding old
      → HasSlept q
      → IsPaced delay slots (record { pacer = p; requests = rs })
      → IsPaced delay slots (record { pacer = p'; requests = set_phase id q rs })
  moved id q old p p' rs h t next most w le g slept inv = record {
    waits = omega (arith, count-set_phase is_waiting id q old rs h);
    few = omega (arith, waiting_limit_same delay p p' most);
    holds = omega (arith, count-set_phase is_holding id q old rs h);
    early = rw next (
        AllTimes-set_phase (Early delay p.next_start) id q rs inv.early (
          same_or_none (Early delay p.next_start) (time_of old) (time_of q) tt t
            (AllTimes-phase_of (Early delay p.next_start) id old rs inv.early h)));
    spaced = Spaced-same delay id q old rs h t inv.spaced;
    woken = All-set_phase id q rs slept inv.woken;
  }

  -- A request reserves a start and goes to sleep.
  slept :
      (id now : ℕ) (old : Phase) (p p' : Pacer) (rs : List (ℕ × Phase))
      → phase_of id rs ≡ some old
      → is_waiting old ≡ true
      → p'.next_start ≡ p.next_start
      → p'.max_waiting ≡ p.max_waiting
      → p'.waiting ≡ p.waiting
      → p'.permits + 1 ≡ p.permits + weight is_holding old
      → IsPaced delay slots (record { pacer = p; requests = rs })
      → IsPaced delay slots (sleep_round delay id now p' rs)
  unfolding sleep_round reserve start_at
  slept id now old p p' rs h w next most same g inv =
      let start : ℕ = start_at p' now in
      record {
        waits = ground (arith, count-set_phase is_waiting id (asleep start) old rs h);
        few = omega (arith, waiting_limit_same delay p (reserve p' delay now) most);
        holds = omega (arith, count-set_phase is_holding id (asleep start) old rs h);
        early =
            AllTimes-set_phase (Early delay (start + delay)) id (asleep start) rs
              (AllTimes-map (Early delay p.next_start) (Early delay (start + delay)) rs
                (Early-mono delay p.next_start (start + delay) (omega arith)) inv.early)
              (omega arith);
        spaced =
            Spaced-fresh delay id start (asleep start) rs refl
              (AllTimes-map (Early delay p.next_start) (Early delay start) rs
                (Early-mono delay p.next_start start (omega arith)) inv.early)
              inv.spaced;
        woken = All-set_phase id (asleep start) rs tt inv.woken;
      }

  enter_slot-IsPaced :
      (id : ℕ) (s : System) (found : Option Phase)
      → IsPaced delay slots s
      → IsPaced delay slots (enter_slot delay id s found)
  unfolding enter_slot count
  enter_slot-IsPaced id s (some known) inv = inv
  enter_slot-IsPaced id s none inv =
      elim (Bool-cases (leb (waiting_limit s.pacer delay) s.pacer.waiting)) [
        | inl full ↦ rw full inv
        | inr free ↦ rw free record {
          waits = omega (arith, inv.waits);
          few = ground (
            arith,
            waiting_limit_same delay s.pacer (record s.pacer { waiting = s.pacer.waiting + 1 })
                refl,
            inv.few,
          );
          holds = omega (arith, inv.holds);
          early = (tt, inv.early);
          spaced = (
            AllTimes-map (Early delay s.pacer.next_start) (Apart delay none) s.requests (λ o e. tt)
                inv.early,
            inv.spaced,
          );
          woken = (tt, inv.woken);
        }
      ]

  acquire_slot-IsPaced :
      (id now : ℕ) (s : System) (found : Option Phase)
      → phase_of id s.requests ≡ found
      → IsPaced delay slots s
      → IsPaced delay slots (acquire_slot delay id now s found)
  unfolding acquire_slot
  acquire_slot-IsPaced id now s (some queued) h inv = elim (Bool-cases (s.pacer.permits == 0)) [
    | inl taken ↦ rw taken inv
    | inr free ↦ rw free (
        slept id now queued s.pacer (record s.pacer { permits = s.pacer.permits - 1 }) s.requests h
          refl refl refl refl (ground arith) inv)
  ]
  acquire_slot-IsPaced id now s other h inv = inv

  wake_slot-IsPaced :
      (id now : ℕ) (s : System) (found : Option Phase)
      → phase_of id s.requests ≡ found
      → IsPaced delay slots s
      → IsPaced delay slots (wake_slot delay id now s found)
  unfolding wake_slot stop_waiting
  wake_slot-IsPaced id now s (some (asleep t)) h inv = elim (Bool-cases (ltb now t)) [
    | inl early ↦ rw early inv
    | inr due ↦ rw due (elim (Bool-cases (leb s.pacer.paused_until t)) [
      | inl starts ↦ rw starts (
          moved id (running t now) (asleep t) s.pacer (stop_waiting s.pacer) s.requests h (inl refl)
            refl refl
            (omega
              (arith, inv.waits, count-set_phase is_waiting id dropped (asleep t) s.requests h))
            (omega arith) refl (ground (arith, due)) inv)
      | inr paused ↦
          rw paused
            (slept id now (asleep t) s.pacer s.pacer s.requests h refl refl refl refl refl inv)
    ])
  ]
  wake_slot-IsPaced id now s other h inv = inv

  leave_slot-IsPaced :
      (id : ℕ) (s : System) (found : Option Phase)
      → phase_of id s.requests ≡ found
      → IsPaced delay slots s
      → IsPaced delay slots (leave_slot delay id s found)
  unfolding leave_slot release
  leave_slot-IsPaced id s (some (running t woke)) h inv =
      moved id (finished t woke) (running t woke) s.pacer (release s.pacer) s.requests h (inl refl)
        refl refl refl (omega arith) (omega arith)
        (All-phase_of id (running t woke) s.requests h inv.woken) inv
  leave_slot-IsPaced id s other h inv = inv

  cancel_slot-IsPaced :
      (id : ℕ) (s : System) (found : Option Phase)
      → phase_of id s.requests ≡ found
      → IsPaced delay slots s
      → IsPaced delay slots (cancel_slot delay id s found)
  unfolding cancel_slot release stop_waiting
  cancel_slot-IsPaced id s (some queued) h inv =
      moved id dropped queued s.pacer (stop_waiting s.pacer) s.requests h (inl refl) refl refl
        (omega (arith, inv.waits, count-set_phase is_waiting id dropped queued s.requests h))
        (omega arith) refl tt inv
  cancel_slot-IsPaced id s (some (asleep t)) h inv =
      moved id dropped (asleep t) s.pacer (release (stop_waiting s.pacer)) s.requests h (inr refl)
        refl refl
        (omega (arith, inv.waits, count-set_phase is_waiting id dropped (asleep t) s.requests h))
        (omega arith) (omega arith) tt inv
  cancel_slot-IsPaced id s other h inv = inv

  kept :
      (s : System) (until : ℕ)
      → IsPaced delay slots s
      → IsPaced delay slots (record s { pacer = record s.pacer { paused_until = until } })
  unfolding waiting_limit
  kept s until inv = record {
    waits = inv.waits;
    few = inv.few;
    holds = inv.holds;
    early = inv.early;
    spaced = inv.spaced;
    woken = inv.woken;
  }

  pause-IsPaced :
      (now : ℕ) (length : Option ℤ) (s : System)
      → IsPaced delay slots s
      → IsPaced delay slots (record s { pacer = pause s.pacer now length })
  unfolding pause hold_until waiting_limit
  pause-IsPaced now none s inv = inv
  pause-IsPaced now (some (negsuc n)) s inv = inv
  pause-IsPaced now (some (pos n)) s inv = elim (Bool-cases (n == 0)) [
    | inl e ↦ rw e inv
    | inr e ↦ rw e (elim (Bool-cases (ltb s.pacer.paused_until (now + n))) [
      | inl l ↦ rw l (kept s _ inv)
      | inr l ↦ rw l inv
    ])
  ]

  step-IsPaced :
      (s : System) (e : Event) → IsPaced delay slots s → IsPaced delay slots (step delay s e)
  unfolding step
  step-IsPaced s (enter id) inv = enter_slot-IsPaced id s (phase_of id s.requests) inv
  step-IsPaced s (acquire id now) inv =
      acquire_slot-IsPaced id now s (phase_of id s.requests) refl inv
  step-IsPaced s (wake id now) inv = wake_slot-IsPaced id now s (phase_of id s.requests) refl inv
  step-IsPaced s (leave id) inv = leave_slot-IsPaced id s (phase_of id s.requests) refl inv
  step-IsPaced s (cancel id) inv = cancel_slot-IsPaced id s (phase_of id s.requests) refl inv
  step-IsPaced s (slow_down now length) inv = pause-IsPaced now length s inv

  run-keeps :
      (s : System) (events : List Event)
      → IsPaced delay slots s
      → IsPaced delay slots (run delay s events)
  unfolding run
  run-keeps s [] inv = inv
  run-keeps s (e ∷ events) inv = run-keeps (step delay s e) events (step-IsPaced s e inv)

-- From a new pacer and over any sequence of events of one event loop (requests that enter, get the
-- semaphore, wake, end or are cancelled, and pauses), with one delay: `waiting` counts the requests
-- that entered and have not started, and never passes `waiting_limit`; the free permits and the
-- requests inside the semaphore make up `max(1, max_in_flight)`; and of any two requests that were not
-- cancelled before their start, ended ones among them, the starts that `_wait_for_start` reserved last
-- for them are at least the delay apart, and every request that started did so at its reserved start or
-- later (how late the event loop wakes it is not bounded).
pub run-IsPaced :
    (delay : ℕ) (max_in_flight : ℤ) (max_waiting : Option ℤ) (events : List Event)
    → IsPaced delay
        (max 1 (pos_part max_in_flight))
        (run delay (record { pacer = init max_in_flight max_waiting; requests = [] }) events)
unfolding init count
run-IsPaced delay max_in_flight max_waiting events =
    run-keeps delay (max 1 (pos_part max_in_flight)) _ events record {
      waits = refl;
      few = omega arith;
      holds = omega arith;
      early = tt;
      spaced = tt;
      woken = tt;
    }
