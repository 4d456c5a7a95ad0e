-- ===== src/Pipeline/SingleFlight/Tests.antt =====
-- Concrete runs of concurrent loads.
use rafuk.Base.{ℕ, false, ◌≡◌, refl, none, List, [], ◌∷◌, arith, str_dec, ℕ_discrete}
use rafuk.Base.OrderedDict.{find, without, assign, move_to_end}
use rafuk.Base.OrderedDict.Deletion.{keys_where}
use rafuk.Pipeline.DatasetCache
use rafuk.Pipeline.DatasetCache.{DatasetCache, Response}
use rafuk.Pipeline.SingleFlight.{Loads, init, get_or_load, finish}
use rafuk.Pipeline.SingleFlight.Invariant.{Event, request, loaded, run_events, single_flight}

-- One line that opens the loads and what they call.
program : Unit {0}
unfolding init get_or_load DatasetCache.get DatasetCache.put DatasetCache.ttl_for
    DatasetCache.count_ads finish run_events find without assign move_to_end keys_where str_dec
    ℕ_discrete
program = tt

abbrev dataset : Response ℕ
dataset = record { ads = 1 ∷ 2 ∷ []; truncated = false }

abbrev empty : DatasetCache ℕ
empty = record {
  ttl_seconds = 100;
  truncated_ttl_seconds = 30;
  max_entries = 4;
  max_ads = 10;
  entries = [];
  total_ads = 0;
}

abbrev events : List (Event ℕ)
events = request 0 "a" ∷ request 1 "b" ∷ request 2 "a" ∷ loaded 0 3 3 none ∷ request 4 "a" ∷ []

abbrev state : Loads ℕ
state = run_events events (init empty)

running_state : state.running ≡ (2, "a") ∷ (1, "b") ∷ []
unfolding program
running_state = refl

single_flight_example : ◌≡◌ {A = ℕ} 2 2
unfolding program
single_flight_example = single_flight events empty 2 2 "a" refl refl

cache-IsValid : DatasetCache.Invariant.IsValid state.cache
unfolding program
cache-IsValid = omega arith
