-- ===== src/Workflow/Tests.antt =====
-- Concrete leads and watched lots.
use rafuk.Base.{
  ℕ, ◌+◌, ◌-◌, ◌==◌, ◌≤◌, String, ◌≡◌, refl, false, Option, none, some, List, [], ◌∷◌, str_dec,
  keep, arith, length, if◌then◌else◌, ℕ_discrete,
}
use rafuk.Base.Int.{pos, pos_part}
use rafuk.Base.OrderedDict.{assign, find}
use rafuk.Workflow.Budget.{
  Ended, result, error, gather_within_budget, multi_search_budget, min_search_budget, is_partial,
}
use rafuk.Workflow.Budget.Buckets.{count}
use rafuk.Workflow.Budget.Boards.{
  LoadError, other, loaded, load_boards_isolated, AreOwn, boards_of, load_boards_isolated_complete,
}
use rafuk.Market.Sample.{plain_texts}
use rafuk.Workflow.Lead.{LeadItem, LeadRequest, get_lead, upsert_lead}
use rafuk.Workflow.Lead.Safety.{KeepsWork, upsert_lead-KeepsWork}
use rafuk.Workflow.Watchlist.{
  WatchlistItem, WatchRequest, get_watchlist_item, upsert_watchlist, new_item, count_user_rows,
  max_of,
}
use rafuk.Workflow.Watchlist.Quota.{IsWithinQuota, upsert_watchlist-quota}

abbrev digits : ℕ → String
digits n = "42"

-- A lead that was bought, and the alert button that asks for a review.
abbrev bought : LeadItem
bought = record {
  user_id = 7;
  ad_id = 42;
  query = "ps5";
  title = "PS5";
  link = "";
  price_byn = some 90_000;
  target_resale_byn = some 120_000;
  status = "bought";
  source = "manual";
  notes = some "box";
}

abbrev review : LeadRequest
review = record {
  user_id = 7;
  ad_id = 42;
  query = "ps5";
  title = "PS5";
  link = "";
  price_byn = some 85_000;
  target_resale_byn = some 1;
  status = some "reviewing";
  source = some "alert";
  notes = some "from the alert";
}

program : Unit {0}
unfolding get_lead upsert_watchlist get_watchlist_item count_user_rows max_of str_dec keep
program = tt

upsert_lead-KeepsWork_example :
    (after : LeadItem) × (get_lead 7 42 (upsert_lead plain_texts digits review (bought ∷ []))
      ≡ some after)
    × KeepsWork bought after
unfolding program
upsert_lead-KeepsWork_example =
    upsert_lead-KeepsWork plain_texts digits review (bought ∷ []) bought refl

abbrev watch : ℕ → Option ℕ → WatchRequest
watch ad_id max_items = record {
  user_id = 7;
  ad_id = ad_id;
  query = "ps5";
  title = "PS5";
  link = "";
  price_byn = some 90_000;
  notes = none;
  max_items = max_items;
}

abbrev watched : List WatchlistItem
watched = new_item plain_texts digits (watch 42 none) 100 ∷ []

upsert_watchlist-quota_example :
    IsWithinQuota
      (watch 43 (some 1))
      watched
      (upsert_watchlist plain_texts digits (watch 43 (some 1)) 200 watched)
upsert_watchlist-quota_example =
    upsert_watchlist-quota plain_texts digits (watch 43 (some 1)) 200 watched

-- The third key gets the semaphore too late, and the second one fails.
abbrev turns : ℕ → ℕ
turns k = if k == 3 then 43_000_000 else 0

abbrev endings : ℕ → ℕ → Ended String LoadError
endings k time = if k == 2 then error other else if k == 5 then result "ps5" else result "xbox"

abbrev two_boards : List String
two_boards = "ps5" ∷ "xbox" ∷ []

-- Two searches that load in time.
two_once : (j : ℕ) → count j (5 ∷ 6 ∷ []) ≤ 1
two_once j = ground arith

both_loaded :
    load_boards_isolated 0 (pos multi_search_budget) min_search_budget turns endings (5 ∷ 6 ∷ [])
    ≡ loaded two_boards false
unfolding load_boards_isolated gather_within_budget boards_of is_partial assign find ℕ_discrete
both_loaded = refl

load_boards_isolated_complete_example :
    (length two_boards ≡ length {A = ℕ} (5 ∷ 6 ∷ []))
    × AreOwn (λ k. 0 + pos_part (pos multi_search_budget) - turns k) endings (5 ∷ 6 ∷ []) two_boards
load_boards_isolated_complete_example =
    load_boards_isolated_complete 0 (pos multi_search_budget) min_search_budget turns endings
      (5 ∷ 6 ∷ []) two_boards two_once both_loaded
