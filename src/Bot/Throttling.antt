-- ===== src/Bot/Throttling.antt =====
-- `ThrottlingMiddleware` of bot/middlewares.py for the events that it applies to, as events of one event
-- loop. Times are microseconds. A released slot goes to the first command that waits for one.
pub mod Window
pub mod Capacity
pub mod Runs
use rafuk.Base.{
  ℕ, zero, suc, ◌+◌, ◌-◌, ◌==◌, Bool, true, false, not, ◌&&◌, ◌||◌, Option, none, some, List, [],
  ◌∷◌, ◌++◌, leb, ltb, has, length, keep, max, if◌then◌else◌, ℕ_discrete,
}
use rafuk.Base.OrderedDict.{find, assign}
use rafuk.Base.OrderedDict.Deletion.{keys_where, without_all}

-- The object; `running` and `queue` are the commands that hold a slot of the semaphore, or wait for one.
pub record Throttling : Type 0 where
  pub rate : ℕ
  pub max_concurrent : Option ℕ
  pub max_waiting : ℕ
  pub last_call : List (ℕ × ℕ)
  pub warned : List ℕ
  pub in_flight : List ℕ
  pub waiting : ℕ
  pub running : List (Option ℕ)
  pub queue : List (Option ℕ)

unfoldable pub init : ℕ → Option ℕ → ℕ → Throttling
init rate max_concurrent max_waiting = record {
  rate = rate;
  max_concurrent = max_concurrent;
  max_waiting = max_waiting;
  last_call = [];
  warned = [];
  in_flight = [];
  waiting = 0;
  running = [];
  queue = [];
}

-- What becomes of a command: it runs, waits for a slot, is dropped without a word, or is refused with
-- one of the replies.
pub data Verdict : Type 0 where
  runs : Verdict
  waits : Verdict
  dropped : Verdict
  throttled : Verdict
  user_busy : Verdict
  busy : Verdict

-- `set.discard`
unfoldable pub discard : ℕ → List ℕ → List ℕ
discard u users = keep (λ v. not (v == u)) users

discard_all : List ℕ → List ℕ → List ℕ
unfolding discard
discard_all [] users = users
discard_all (u ∷ us) users = discard_all us (discard u users)

unfoldable pub prune : Throttling → ℕ → Throttling
unfolding discard_all keys_where without_all
prune s now =
    let expired = keys_where (λ last. leb (last + s.rate) now) s.last_call in
    record s {
      last_call = without_all ℕ_discrete expired s.last_call;
      warned = discard_all expired s.warned;
    }

unfoldable pub record_call : Throttling → ℕ → ℕ → Throttling × Bool
unfolding discard assign
record_call s user_id now = (
  record s {
    last_call = assign ℕ_discrete user_id now s.last_call;
    warned = discard user_id s.warned;
  },
  false,
)

check_window : Throttling → ℕ → ℕ → Throttling × Bool
unfolding record_call find
check_window s user_id now = elim (find ℕ_discrete user_id s.last_call) [
  | none ↦ record_call s user_id now
  | some last ↦ if ltb now (last + s.rate) then (s, true) else record_call s user_id now
]

unfoldable pub within_window : Throttling → ℕ → ℕ → Throttling × Bool
unfolding check_window prune
within_window s user_id now =
    check_window (if ltb 1024 (length s.last_call) then prune s now else s) user_id now

-- `self._in_flight.add(user_id)`
join_flight : Option ℕ → List ℕ → List ℕ
join_flight none users = users
join_flight (some u) users = u ∷ users

leave_flight : Option ℕ → List ℕ → List ℕ
unfolding discard
leave_flight none users = users
leave_flight (some u) users = discard u users

-- `semaphore is not None and semaphore.locked()`
unfoldable pub is_locked : Throttling → Bool
is_locked s = elim s.max_concurrent [
  | none ↦ false
  | some m ↦ leb m (length s.running) || ltb 0 (length s.queue)
]

start : Throttling → Option ℕ → Throttling × Verdict
unfolding join_flight
start s user =
    (record s { in_flight = join_flight user s.in_flight; running = user ∷ s.running }, runs)

enqueue : Throttling → Option ℕ → Throttling × Verdict
unfolding join_flight
enqueue s user = (
  record s {
    in_flight = join_flight user s.in_flight;
    waiting = suc s.waiting;
    queue = s.queue ++ user ∷ [];
  },
  waits,
)

pub admit : Throttling → Option ℕ → Throttling × Verdict
unfolding is_locked start enqueue
admit s user =
    if is_locked s
    then (if leb s.max_waiting s.waiting then (s, busy) else enqueue s user)
    else start s user

-- The reply is sent once per window.
warn : Throttling → ℕ → Throttling × Verdict
warn s u = if has u s.warned then (s, dropped) else (record s { warned = u ∷ s.warned }, throttled)

-- The part behind the window.
after_window : ℕ → Throttling × Bool → Throttling × Verdict
unfolding warn admit
after_window u (s, true) = warn s u
after_window u (s, false) = if has u s.in_flight then (s, user_busy) else admit s (some u)

-- `__call__` until the command runs, waits or is refused.
unfoldable pub arrive : Throttling → Option ℕ → ℕ → Throttling × Verdict
unfolding after_window within_window admit
arrive s none now = admit s none
arrive s (some u) now = after_window u (within_window s u now)

same_user : Option ℕ → Option ℕ → Bool
same_user none none = true
same_user (some u) (some v) = u == v
same_user none (some v) = false
same_user (some u) none = false

pub is_running : Option ℕ → List (Option ℕ) → Bool
unfolding same_user
is_running user [] = false
is_running user (v ∷ running) = if same_user v user then true else is_running user running

pub remove_first : Option ℕ → List (Option ℕ) → List (Option ℕ)
unfolding same_user
remove_first user [] = []
remove_first user (v ∷ running) =
    if same_user v user then running else v ∷ remove_first user running

-- `semaphore.release()`: the first command that waits goes on.
grant : Throttling → Throttling
grant s = elim s.queue [
  | [] ↦ s
  | next ∷ queue ↦ record s { waiting = s.waiting - 1; queue = queue; running = next ∷ s.running }
]

-- The end of a handler.
unfoldable pub finish : Throttling → Option ℕ → Throttling
unfolding is_running remove_first leave_flight grant
finish s user =
    if is_running user s.running
    then grant (record s {
      in_flight = leave_flight user s.in_flight;
      running = remove_first user s.running;
    })
    else s
