-- ===== src/Pipeline/SingleFlight/Invariant.antt =====
-- Concurrent loads of one key share one pagination.
use rafuk.Base.{
  ℕ, ◌<◌, ◌≤◌, ◌+◌, String, ◌≡◌, refl, Option, none, some, List, [], ◌∷◌, arith, str_dec,
  ℕ_discrete, inl, inr, Option-cases,
}
use rafuk.Base.OrderedDict.{find, find-assign, find-without}
use rafuk.Pipeline.DatasetCache
use rafuk.Pipeline.DatasetCache.{DatasetCache, Response}
use rafuk.Pipeline.SingleFlight.{
  Loads, wait_for, cached, init, loading, start, join, answer, get_or_load, leave, finish,
}

module _ {Ad : Type 0} where
  -- Every running task is the one that `_inflight` holds for its key, and task numbers are not reused.
  pub record IsValid (s : Loads Ad) : Type 0 where
    pub registered :
        (task : ℕ) (key : String)
        → find ℕ_discrete task s.running ≡ some key
        → find str_dec key s.inflight ≡ some task
    pub numbered :
        (task : ℕ) (key : String) → find ℕ_discrete task s.running ≡ some key → task < s.next_task

  start-IsValid :
      (s : Loads Ad) (key : String) → loading s key ≡ none → IsValid s → IsValid (start s key).0
  unfolding loading start find
  start-IsValid s key idle h = record {
    registered = λ task k e. ground (
      arith,
      h.registered task k,
      h.numbered task k,
      find-assign str_dec key k s.next_task s.inflight,
    );
    numbered = λ task k e. ground (arith, h.numbered task k);
  }

  join-IsValid :
      (s : Loads Ad) (key : String) (task : Option ℕ)
      → loading s key ≡ task
      → IsValid s
      → IsValid (join s key task).0
  unfolding join
  join-IsValid s key none e h = start-IsValid s key e h
  join-IsValid s key (some task) e h = h

  answer-IsValid :
      (s : Loads Ad) (key : String) (r : DatasetCache Ad × Option (Response Ad))
      → IsValid s
      → IsValid (answer s key r).0
  unfolding answer loading
  answer-IsValid s key (cache, some value) h = record {
    registered = h.registered;
    numbered = h.numbered;
  }
  answer-IsValid s key (cache, none) h =
      join-IsValid (record s { cache = cache }) key (loading s key) refl
        (record { registered = h.registered; numbered = h.numbered })

  leave-IsValid :
      (s : Loads Ad) (task : ℕ) (key : String)
      → IsValid s
      → find ℕ_discrete task s.running ≡ some key
      → IsValid (leave s task key)
  unfolding leave
  leave-IsValid s task key h mine = record {
    registered = λ t k e. ground (
      arith,
      h.registered t k,
      h.registered task key,
      find-without ℕ_discrete task t s.running,
      find-without str_dec key k s.inflight,
    );
    numbered = λ t k e. ground (arith, h.numbered t k, find-without ℕ_discrete task t s.running);
  }

  get_or_load-IsValid :
      (s : Loads Ad) (now : ℕ) (key : String) → IsValid s → IsValid (get_or_load s now key).0
  unfolding get_or_load
  get_or_load-IsValid s now key h = answer-IsValid s key (DatasetCache.get s.cache now key) h

  finish-IsValid :
      (s : Loads Ad) (task now later : ℕ) (outcome : Option (Response Ad))
      → IsValid s
      → IsValid (finish s task now later outcome)
  unfolding finish
  finish-IsValid s task now later outcome h = elim (Option-cases (find ℕ_discrete task s.running)) [
    | inl n ↦ rw (n, finish) h
    | inr (key, e) ↦ rw (e, finish) (ended key e outcome)
  ]
    where
      ended :
          (key : String)
          → find ℕ_discrete task s.running ≡ some key
          → (o : Option (Response Ad))
          → IsValid (elim o [
            | none ↦ leave s task key
            | some value ↦
                leave (record s { cache = DatasetCache.put s.cache now later key value }) task key
          ])
      ended key e none = leave-IsValid s task key h e
      ended key e (some value) =
          leave-IsValid (record s { cache = DatasetCache.put s.cache now later key value }) task key
            (record { registered = h.registered; numbered = h.numbered }) e

-- A request for a key, or the end of a task.
pub data Event (Ad : Type 0) : Type 0 where
  request : ℕ → String → Event Ad
  loaded : ℕ → ℕ → ℕ → Option (Response Ad) → Event Ad

module _ {Ad : Type 0} where
  unfoldable pub run_events : List (Event Ad) → Loads Ad → Loads Ad
  run_events [] s = s
  run_events (request now key ∷ events) s = run_events events (get_or_load s now key).0
  run_events (loaded task now later outcome ∷ events) s =
      run_events events (finish s task now later outcome)

  run_keeps : (events : List (Event Ad)) (s : Loads Ad) → IsValid s → IsValid (run_events events s)
  unfolding run_events
  run_keeps [] s h = h
  run_keeps (request now key ∷ events) s h = run_keeps events _ (get_or_load-IsValid s now key h)
  run_keeps (loaded task now later outcome ∷ events) s h =
      run_keeps events _ (finish-IsValid s task now later outcome h)

  pub run_events-IsValid :
      (events : List (Event Ad)) (cache : DatasetCache Ad)
      → IsValid (run_events events (init cache))
  unfolding init find
  run_events-IsValid events cache =
      run_keeps events (init cache)
        (record { registered = λ task key e. cc; numbered = λ task key e. cc })

  -- However requests and answers interleave, no two running tasks load the same key.
  pub single_flight :
      (events : List (Event Ad)) (cache : DatasetCache Ad) (i j : ℕ) (key : String)
      → find ℕ_discrete i (run_events events (init cache)).running ≡ some key
      → find ℕ_discrete j (run_events events (init cache)).running ≡ some key
      → i ≡ j
  single_flight events cache i j key p q =
      let valid = run_events-IsValid events cache in
      cc (valid.registered i key p, valid.registered j key q)

  -- A request for a key that is not cached and is being loaded waits for that load and starts none.
  pub get_or_load-joins :
      (events : List (Event Ad)) (cache : DatasetCache Ad) (task now : ℕ) (key : String)
      → find ℕ_discrete task (run_events events (init cache)).running ≡ some key
      → (DatasetCache.get (run_events events (init cache)).cache now key).1 ≡ none
      → ((get_or_load (run_events events (init cache)) now key).1 ≡ wait_for task)
        × ((get_or_load (run_events events (init cache)) now key).0.running
            ≡ (run_events events (init cache)).running)
  unfolding get_or_load answer loading join
  get_or_load-joins events cache task now key p miss =
      let valid = run_events-IsValid events cache in
      ground (arith, p, miss, valid.registered task key p)

  -- When a load returns a dataset that fits the cache, requests for its key are answered from the
  -- cache until the dataset's time to live has passed.
  pub get_or_load-finish :
      (s : Loads Ad) (task now later t : ℕ) (key : String) (value : Response Ad)
      → DatasetCache.Invariant.IsValid s.cache
      → find ℕ_discrete task s.running ≡ some key
      → DatasetCache.count_ads value ≤ s.cache.max_ads
      → t < later + DatasetCache.ttl_for s.cache value
      → 0 < DatasetCache.ttl_for s.cache value
      → (get_or_load (finish s task now later (some value)) t key).1 ≡ cached value
  unfolding get_or_load answer finish leave
  get_or_load-finish s task now later t key value h mine fits alive ttl =
      rw (mine, finish)
        (ground (arith, DatasetCache.Lookup.get-put s.cache now later t key value h ttl))
