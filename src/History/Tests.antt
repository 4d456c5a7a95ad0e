-- ===== src/History/Tests.antt =====
-- Concrete tables of listings and snapshots.
use rafuk.Base.{◌≤◌, true, false, ◌≡◌, none, some, [], ◌∷◌}
use rafuk.Base.Int.{pos}
use rafuk.Json.{null}
use rafuk.Market.Ad.{Ad}
use rafuk.History.Table.{State}
use rafuk.History.Snapshots.{Snapshot, upsert_query_snapshot}
use rafuk.History.Snapshots.Upserts.{count_at, upsert_query_snapshot-keeps}

abbrev seen : State
seen = record {
  query = "ps5";
  ad_id = 7;
  title = "PS5";
  link = "";
  last_price_byn = some 90_000;
  list_time = none;
  active = true;
  first_seen_at = 1;
  last_seen_at = 1;
}

abbrev console : Ad
console = record {
  ad_id = some 8;
  subject = some "PS5";
  ad_link = "";
  list_time = none;
  price_byn = some (pos 80_000);
  raw = null;
}

-- Two prices stand already; the sample has one.
abbrev hour : Snapshot
hour = record {
  query = "ps5";
  snapshot_at = 0;
  total_results = 2;
  analyzed_count = 2;
  price_sum = 160_000;
  median_byn = 160_000;
  min_byn = 70_000;
  max_byn = 90_000;
}

upsert_query_snapshot-keeps_example :
    (count_at "ps5" 0 (hour ∷ [])
      ≤ count_at "ps5" 0 (upsert_query_snapshot "ps5" (console ∷ []) 1 0 false true (hour ∷ [])).0)
    × (upsert_query_snapshot "ps5" (console ∷ []) 1 0 false true (hour ∷ [])
        ≡ upsert_query_snapshot "ps5" (console ∷ []) 1 0 false false (hour ∷ []))
upsert_query_snapshot-keeps_example =
    upsert_query_snapshot-keeps "ps5" (console ∷ []) 1 0 false (hour ∷ []) "ps5" 0
