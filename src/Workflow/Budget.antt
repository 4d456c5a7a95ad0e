-- ===== src/Workflow/Budget.antt =====
-- `gather_within_budget` of api/services/workflow_store.py. Times are microseconds. When a key gets the
-- semaphore (`starts`) and what its load ends in with the time it is given (`load`) are parameters;
-- `timed_out` is the `TimeoutError` of `wait_for`, which waits as long as that and the grace.
pub mod Buckets
pub mod Boards
use rafuk.Base.{
  ℕ, ◌+◌, ◌-◌, ◌++◌, Bool, true, false, not, ◌||◌, List, [], ◌∷◌, ltb, if◌then◌else◌, ℕ_discrete,
}
use rafuk.Base.Int.{ℤ, pos_part}
use rafuk.Base.OrderedDict.{assign}
use rafuk.Base.Time.{seconds}

-- `MULTI_SEARCH_BUDGET_SECONDS`, `MIN_SEARCH_BUDGET_SECONDS`
abbrev pub multi_search_budget : ℕ
multi_search_budget = seconds 45

abbrev pub min_search_budget : ℕ
min_search_budget = seconds 3

pub data Ended (A E : Type 0) : Type 0 where
  result : A → Ended A E
  error : E → Ended A E
  over_budget : Ended A E

-- `BudgetedResults`
pub record Budgeted (A E : Type 0) : Type 0 where
  pub results : List (ℕ × A)
  pub skipped : List ℕ
  pub failed : List (ℕ × E)

is_empty {ℓ} : {A : Type ℓ} → List A → Bool
is_empty [] = true
is_empty (x ∷ xs) = false

module _ {A E : Type 0} where
  -- `partial`
  unfoldable pub is_partial : Budgeted A E → Bool
  unfolding is_empty
  is_partial b = not (is_empty b.skipped) || not (is_empty b.failed)

  -- `run(key)`, from the time at which it gets the semaphore
  unfoldable pub run_key : ℕ → ℕ → ℕ → (ℕ → Ended A E) → Ended A E
  run_key deadline least now load =
      if ltb deadline (now + least) then over_budget else load (deadline - now)

  -- What `gather` returns, for the keys in their order.
  unfoldable pub run_keys : ℕ → ℕ → (ℕ → ℕ) → (ℕ → ℕ → Ended A E) → List ℕ → List (ℕ × Ended A E)
  unfolding run_key
  run_keys deadline least starts load [] = []
  run_keys deadline least starts load (k ∷ keys) =
      (k, run_key deadline least (starts k) (load k)) ∷ run_keys deadline least starts load keys

  -- The body of the last loop.
  unfoldable pub sort_result : ℕ → Ended A E → Budgeted A E → Budgeted A E
  sort_result k (result a) b = record b { results = assign ℕ_discrete k a b.results }
  sort_result k (error e) b = record b { failed = b.failed ++ (k, e) ∷ [] }
  sort_result k over_budget b = record b { skipped = b.skipped ++ k ∷ [] }

  unfoldable pub sort_results : List (ℕ × Ended A E) → Budgeted A E → Budgeted A E
  unfolding sort_result
  sort_results [] b = b
  sort_results ((k, e) ∷ ends) b = sort_results ends (sort_result k e b)

  -- `gather_within_budget(keys, load)` that begins at `now`, where the limits replace the constants
  unfoldable pub gather_within_budget :
      ℕ → ℤ → ℕ → (ℕ → ℕ) → (ℕ → ℕ → Ended A E) → List ℕ → Budgeted A E
  unfolding run_keys sort_results
  gather_within_budget now budget least starts load keys =
      sort_results (run_keys (now + pos_part budget) least starts load keys)
        (record { results = []; skipped = []; failed = [] })
