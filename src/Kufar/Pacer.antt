-- ===== src/Kufar/Pacer.antt =====
-- `_RequestPacer` of api/services/kufar_client.py: the state of one pacer, its methods, and the
-- requests that go through `slot` on one event loop. An event runs from one suspension of a
-- coroutine to the next. Times and delays are microseconds; a delay below 0 counts as 0.
pub mod Requests
pub mod Invariant
pub mod Pauses
use rafuk.Base.{
  ℕ, ◌+◌, ◌-◌, ◌/◌, Bool, true, false, Option, none, some, List, [], ◌∷◌, min, max, ltb, leb, ◌==◌,
  if◌then◌else◌,
}
use rafuk.Base.Int.{ℤ, pos, negsuc, pos_part}
use rafuk.Base.Time.{seconds}

-- `MAX_PACER_WAITERS`, `MAX_PACER_BACKLOG_SECONDS`
abbrev pub max_pacer_waiters : ℕ
max_pacer_waiters = 64

abbrev pub max_pacer_backlog : ℕ
max_pacer_backlog = seconds 30

-- `permits` is the value of the semaphore.
pub record Pacer : Type 0 where
  pub permits : ℕ
  pub next_start : ℕ
  pub paused_until : ℕ
  pub waiting : ℕ
  pub max_waiting : Option ℤ

-- `_RequestPacer(max_in_flight, max_waiting=max_waiting)`
unfoldable pub init : ℤ → Option ℤ → Pacer
init max_in_flight max_waiting = record {
  permits = max 1 (pos_part max_in_flight);
  next_start = 0;
  paused_until = 0;
  waiting = 0;
  max_waiting = max_waiting;
}

-- `waiting_limit`
pub waiting_limit : Pacer → ℕ → ℕ
waiting_limit p delay = elim p.max_waiting [
  | some limit ↦ pos_part limit
  | none ↦
      if delay == 0
      then max_pacer_waiters
      else max 1 (min max_pacer_waiters (max_pacer_backlog / delay))
]

hold_until : Pacer → ℕ → Pacer
hold_until p until = if ltb p.paused_until until then record p { paused_until = until } else p

-- `pause(seconds)` at the time `now`: `none` is a number that is not finite
unfoldable pub pause : Pacer → ℕ → Option ℤ → Pacer
unfolding hold_until
pause p now none = p
pause p now (some (negsuc n)) = p
pause p now (some (pos n)) = if n == 0 then p else hold_until p (now + n)

-- What `_wait_for_start` does under the lock: the start and the pacer.
pub start_at : Pacer → ℕ → ℕ
start_at p now = max (max now p.next_start) p.paused_until

pub reserve : Pacer → ℕ → ℕ → Pacer
unfolding start_at
reserve p delay now = record p { next_start = start_at p now + delay }

-- Where a request stands in `slot`: before the semaphore, asleep until its start, in the body of
-- the `async with`, past it, or cancelled before it started. The first time is the start that
-- the request reserved last, the second one when it woke and started.
pub data Phase : Type 0 where
  queued : Phase
  asleep : ℕ → Phase
  running : ℕ → ℕ → Phase
  finished : ℕ → ℕ → Phase
  dropped : Phase

pub record System : Type 0 where
  pub pacer : Pacer
  pub requests : List (ℕ × Phase)

unfoldable pub phase_of : ℕ → List (ℕ × Phase) → Option Phase
phase_of id [] = none
phase_of id ((k, p) ∷ requests) = if k == id then some p else phase_of id requests

pub set_phase : ℕ → Phase → List (ℕ × Phase) → List (ℕ × Phase)
set_phase id q [] = []
set_phase id q ((k, p) ∷ requests) =
    if k == id then (k, q) ∷ requests else (k, p) ∷ set_phase id q requests

pub data Event : Type 0 where
  enter : ℕ → Event
  acquire : ℕ → ℕ → Event
  wake : ℕ → ℕ → Event
  leave : ℕ → Event
  cancel : ℕ → Event
  slow_down : ℕ → Option ℤ → Event

-- `self._waiting -= 1`
pub stop_waiting : Pacer → Pacer
stop_waiting p = record p { waiting = p.waiting - 1 }

-- The semaphore is released.
pub release : Pacer → Pacer
release p = record p { permits = p.permits + 1 }

module _ (delay : ℕ) where
  -- `slot` up to the semaphore; a request that meets `KufarBusyError` is not among the requests
  unfoldable pub enter_slot : ℕ → System → Option Phase → System
  unfolding waiting_limit
  enter_slot id s (some known) = s
  enter_slot id s none = if leb (waiting_limit s.pacer delay) s.pacer.waiting then s else record {
    pacer = record s.pacer { waiting = s.pacer.waiting + 1 };
    requests = (id, queued) ∷ s.requests;
  }

  -- A round of `_wait_for_start` up to its sleep.
  pub sleep_round : ℕ → ℕ → Pacer → List (ℕ × Phase) → System
  unfolding reserve start_at set_phase
  sleep_round id now p requests = record {
    pacer = reserve p delay now;
    requests = set_phase id (asleep (start_at p now)) requests;
  }

  -- The semaphore is free and lets the request in.
  unfoldable pub acquire_slot : ℕ → ℕ → System → Option Phase → System
  unfolding sleep_round
  acquire_slot id now s (some queued) =
      if s.pacer.permits == 0
      then s
      else sleep_round id now (record s.pacer { permits = s.pacer.permits - 1 }) s.requests
  acquire_slot id now s other = s

  -- The sleep is over: the request starts, or a pause that began meanwhile sends it on.
  unfoldable pub wake_slot : ℕ → ℕ → System → Option Phase → System
  unfolding sleep_round stop_waiting set_phase
  wake_slot id now s (some (asleep start)) =
      if ltb now start
      then s
      else if leb s.pacer.paused_until start
      then record {
        pacer = stop_waiting s.pacer;
        requests = set_phase id (running start now) s.requests;
      }
      else sleep_round id now s.pacer s.requests
  wake_slot id now s other = s

  -- The body of the `async with` is left, by a result or an exception.
  unfoldable pub leave_slot : ℕ → System → Option Phase → System
  unfolding release set_phase
  leave_slot id s (some (running start woke)) = record {
    pacer = release s.pacer;
    requests = set_phase id (finished start woke) s.requests;
  }
  leave_slot id s other = s

  -- A request is cancelled before it starts: the `finally` blocks.
  pub cancel_slot : ℕ → System → Option Phase → System
  unfolding release stop_waiting set_phase
  cancel_slot id s (some queued) = record {
    pacer = stop_waiting s.pacer;
    requests = set_phase id dropped s.requests;
  }
  cancel_slot id s (some (asleep start)) = record {
    pacer = release (stop_waiting s.pacer);
    requests = set_phase id dropped s.requests;
  }
  cancel_slot id s other = s

  unfoldable pub step : System → Event → System
  unfolding enter_slot acquire_slot wake_slot leave_slot cancel_slot phase_of pause
  step s (enter id) = enter_slot id s (phase_of id s.requests)
  step s (acquire id now) = acquire_slot id now s (phase_of id s.requests)
  step s (wake id now) = wake_slot id now s (phase_of id s.requests)
  step s (leave id) = leave_slot id s (phase_of id s.requests)
  step s (cancel id) = cancel_slot id s (phase_of id s.requests)
  step s (slow_down now length) = record s { pacer = pause s.pacer now length }

  unfoldable pub run : System → List Event → System
  unfolding step
  run s [] = s
  run s (e ∷ events) = run (step s e) events
