-- ===== src/SavedSearch/Tests.antt =====
-- A user who saves a search, lists it and deletes it.
use rafuk.Base.{ℕ, true, false, ◌≡◌, ◌≤◌, refl, none, some, List, [], ◌∷◌, keep, All, arith, length}
use rafuk.Base.Int.{pos}
use rafuk.User.{max_saved_searches}
use rafuk.Market.Sample.{plain_texts}
use rafuk.Market.Insights.{PatternLib}
use rafuk.Json.{null}
use rafuk.Market.Ad.{Ad}
use rafuk.SavedSearch.Board.{Dataset, Opportunity, load_opportunities}
use rafuk.SavedSearch.Board.Matches.{Suits, load_opportunities-Suits}
use rafuk.SavedSearch.{
  SavedSearch, Payload, Caller, Db, Request, create, delete, list, active_count, get_saved_searches,
  run,
}
use rafuk.Market.Deals.Sorting.{IsOrdered}
use rafuk.SavedSearch.Spec.{Lists, Refines, run_promised}
use rafuk.SavedSearch.Spec.Refinement.{run-Refines}
use rafuk.SavedSearch.Spec.Quota.{run-active_count}

abbrev patterns : PatternLib
patterns = record { numbers = λ name s. none; title = λ s. s }

abbrev wanted : Payload
wanted = record {
  name = none;
  group_name = none;
  query = "ps5";
  strict_mode = false;
  target_discount_percent = pos 100_000;
  max_price_byn = none;
  seller_type = none;
  condition = none;
  region_name = none;
  config_keyword = none;
  exclude_duplicates = true;
}

abbrev ann : Caller
ann = record { user_id = 7; first_name = some "Ann"; username = none }

abbrev day : List Request
day = create ann wanted 1000 ∷ list 7 ∷ delete 7 1 2000 ∷ list 7 ∷ []

abbrev empty : Db
empty = record { users = []; searches = []; next_id = 1 }

abbrev no_lists : Lists
no_lists = record { of = λ u. []; next_id = 1 }

empty-Refines : Refines empty no_lists
unfolding get_saved_searches keep
empty-Refines = record { shown = λ u. refl; next = refl }

run-Refines_example :
    ((run plain_texts patterns day empty).1 ≡ (run_promised plain_texts patterns day no_lists).1)
    × Refines
        (run plain_texts patterns day empty).0
        (run_promised plain_texts patterns day no_lists).0
run-Refines_example = run-Refines plain_texts patterns day empty no_lists empty-Refines

nobody : (u : ℕ) → active_count u [] ≤ max_saved_searches
unfolding active_count keep
nobody u = omega arith

run-active_count_example :
    active_count 7 (run plain_texts patterns day empty).0.searches ≤ max_saved_searches
run-active_count_example = run-active_count plain_texts patterns day empty nobody 7

-- A saved search, and a market of one lot at a discount.
abbrev search : SavedSearch
search = record {
  id = 1;
  user_id = 7;
  name = "ps5";
  group_name = none;
  query = "ps5";
  strict_mode = false;
  target_discount_percent = 100_000;
  max_price_byn = none;
  seller_type = none;
  condition = none;
  region_name = none;
  config_keyword = none;
  exclude_duplicates = true;
  active = true;
  deleted_at = none;
}

abbrev lot : Ad
lot = record {
  ad_id = some 5;
  subject = some "PS5";
  ad_link = "";
  list_time = none;
  price_byn = some (pos 40_000);
  raw = null;
}

abbrev found : Dataset
found = record {
  ads = lot ∷ [];
  price_stats = record {
    total_price = 200_000;
    median = 100_000;
    q1 = 180_000;
    q3 = 220_000;
    min_price = 40_000;
    max_price = 60_000;
    count = 4;
    low_cutoff = 100_000;
  };
  total_results = 1;
  truncated = false;
}

load_opportunities-Suits_example :
    All
      (Suits plain_texts patterns (λ price. price) 1000 search found)
      (load_opportunities plain_texts patterns (λ price. price) 1000 search found).items
    × (length (load_opportunities plain_texts patterns (λ price. price) 1000 search found).items
        ≤ 3)
    × IsOrdered
        (λ (x y : Opportunity). y.deal_score ≤ x.deal_score)
        (load_opportunities plain_texts patterns (λ price. price) 1000 search found).items
load_opportunities-Suits_example =
    load_opportunities-Suits plain_texts patterns (λ price. price) 1000 search found
