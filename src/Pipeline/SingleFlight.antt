-- ===== src/Pipeline/SingleFlight.antt =====
-- `DatasetCache.get_or_load` and `_load` of api/services/query_pipeline.py, as events of one event
-- loop. A task is a number; the loader (a Kufar pagination) answers through `finish`.
pub mod Invariant
mod Tests
use rafuk.Base.{
  ℕ, suc, ◌+◌, String, Bool, true, false, ite, Option, none, some, List, [], ◌∷◌, str_dec,
  ℕ_discrete,
}
use rafuk.Base.OrderedDict.{find, without, assign}
use rafuk.Pipeline.DatasetCache
use rafuk.Pipeline.DatasetCache.{DatasetCache, Response}

pub record Loads (Ad : Type 0) : Type 0 where
  pub cache : DatasetCache Ad
  -- `_inflight`
  pub inflight : List (String × ℕ)
  -- the tasks that are not done, with the key that each loads
  pub running : List (ℕ × String)
  pub next_task : ℕ

-- What a caller of `get_or_load` gets: a cached response, or a task to wait for.
pub data Answer (Ad : Type 0) : Type 0 where
  cached : Response Ad → Answer Ad
  wait_for : ℕ → Answer Ad

module _ {Ad : Type 0} where
  pub init : DatasetCache Ad → Loads Ad
  init cache = record { cache = cache; inflight = []; running = []; next_task = 0 }

  -- `task is None or task.done()`, and otherwise the task that is still loading
  pub loading : Loads Ad → String → Option ℕ
  loading s key = elim (find str_dec key s.inflight) [
    | none ↦ none
    | some task ↦ elim (find ℕ_discrete task s.running) [ none ↦ none | some _ ↦ some task ]
  ]

  start : Loads Ad → String → Loads Ad × Answer Ad
  start s key = (
    record s {
      inflight = assign str_dec key s.next_task s.inflight;
      running = (s.next_task, key) ∷ s.running;
      next_task = suc s.next_task;
    },
    wait_for s.next_task,
  )

  join : Loads Ad → String → Option ℕ → Loads Ad × Answer Ad
  unfolding start
  join s key none = start s key
  join s key (some task) = (s, wait_for task)

  answer : Loads Ad → String → DatasetCache Ad × Option (Response Ad) → Loads Ad × Answer Ad
  unfolding loading join
  answer s key (cache, some value) = (record s { cache = cache }, cached value)
  answer s key (cache, none) = join (record s { cache = cache }) key (loading s key)

  pub get_or_load : Loads Ad → ℕ → String → Loads Ad × Answer Ad
  unfolding answer
  get_or_load s now key = answer s key (DatasetCache.get s.cache now key)

  -- The `finally` of `_load`, and the end of the task.
  leave : Loads Ad → ℕ → String → Loads Ad
  leave s task key = record s {
    inflight = elim (find str_dec key s.inflight) [
      | none ↦ s.inflight
      | some current ↦ ite (ℕ_discrete current task) (without str_dec key s.inflight) s.inflight
    ];
    running = without ℕ_discrete task s.running;
  }

  -- A loader returns a response (at the readings `now` and `later` of the clock), or raises.
  pub finish : Loads Ad → ℕ → ℕ → ℕ → Option (Response Ad) → Loads Ad
  unfolding leave
  finish s task now later outcome = elim (find ℕ_discrete task s.running) [
    | none ↦ s
    | some key ↦ elim outcome [
      | none ↦ leave s task key
      | some value ↦
          leave (record s { cache = DatasetCache.put s.cache now later key value }) task key
    ]
  ]
