-- ===== src/History/Sync.antt =====
-- `sync_query_listing_states` of api/services/history_service.py: a fetched sample against the
-- remembered listings of a query. Prices are kopecks, and the drop threshold is in kopecks and percent.
pub mod Rows
pub mod Report
pub mod Stability
mod Tests
use rafuk.Base.{
  ℕ, ◌-◌, ◌*◌, ◌<◌, String, Bool, true, false, ◌&&◌, ◌≡◌, Option, none, some, List, [], ◌∷◌, ◌++◌,
  leb, ltb, if◌then◌else◌, ◌==◌, has, map, ℕ_discrete,
}
use rafuk.Base.Text.{truncate}
use rafuk.Base.OrderedDict.{find, assign}
use rafuk.Market.Ad.{Ad, listing_ad_id, normalize_price_byn}
use rafuk.History.Table.{State, Table, insert, update, deactivate}
use rafuk.History.Lookup.{load_listing_states}

-- `min_drop_byn`, `min_drop_percent`
pub record Threshold : Type 0 where
  pub min_drop_byn : ℕ
  pub min_drop_percent : ℕ

-- `PRICE_DROP_MIN_BYN`, `PRICE_DROP_MIN_PERCENT`
abbrev pub default_threshold : Threshold
default_threshold = record { min_drop_byn = 100; min_drop_percent = 1 }

-- `delta <= 0 or delta < min_drop_byn` is false, and
-- `previous_price <= 0 or delta / previous_price * 100 >= min_drop_percent`
unfoldable pub is_significant_price_drop : Threshold → ℕ → ℕ → Bool
is_significant_price_drop th previous current =
    let delta = previous - current in
    if leb delta 0
    then false
    else if ltb delta th.min_drop_byn
    then false
    else if previous == 0
    then true
    else leb (th.min_drop_percent * previous) (delta * 100)

-- `listing_candidates`
pub listing_candidates : List Ad → List Ad
listing_candidates [] = []
listing_candidates (ad ∷ ads) =
    if ltb 0 (listing_ad_id ad) then ad ∷ listing_candidates ads else listing_candidates ads

-- `str(ad.get("subject") or "")[:255]` and its like
title_of : Ad → String
title_of ad = truncate 255 (elim ad.subject [ none ↦ "" | some s ↦ s ])

list_time_of : Ad → Option String
list_time_of ad = elim ad.list_time [ none ↦ none | some s ↦ some (truncate 64 s) ]

-- The state of a listing that is seen for the first time.
pub new_state : String → ℕ → Ad → State
unfolding title_of list_time_of
new_state query observed_at ad = record {
  query = query;
  ad_id = listing_ad_id ad;
  title = title_of ad;
  link = truncate 512 ad.ad_link;
  last_price_byn = normalize_price_byn ad.price_byn;
  list_time = list_time_of ad;
  active = true;
  first_seen_at = observed_at;
  last_seen_at = observed_at;
}

-- The assignments to a state that is remembered.
pub refreshed : ℕ → Ad → State → State
unfolding title_of list_time_of
refreshed observed_at ad s = record s {
  title = title_of ad;
  link = truncate 512 ad.ad_link;
  list_time = list_time_of ad;
  last_price_byn = normalize_price_byn ad.price_byn;
  last_seen_at = observed_at;
  active = true;
}

drop_between : Threshold → Option ℕ → Option ℕ → Option ℕ
drop_between th none current = none
drop_between th (some previous) none = none
drop_between th (some previous) (some current) =
    if is_significant_price_drop th previous current then some (previous - current) else none

-- How much the price of a remembered listing fell, if that is worth a report.
unfoldable pub price_drop : Threshold → State → Ad → Option ℕ
unfolding drop_between
price_drop th s ad = drop_between th s.last_price_byn (normalize_price_byn ad.price_byn)

-- The variables of the loop.
pub record Progress : Type 0 where
  pub table : Table
  pub existing_by_id : List (ℕ × State)
  pub seen_ids : List ℕ
  pub new_listings : List State
  pub price_drops : List (State × ℕ)

pub report_drop : State → Option ℕ → List (State × ℕ) → List (State × ℕ)
report_drop s none drops = drops
report_drop s (some delta) drops = drops ++ (s, delta) ∷ []

-- `existing is None`: the listing is added to the session and reported as new.
pub add_new : String → ℕ → Ad → Progress → Progress
unfolding new_state
add_new query observed_at ad p =
    let s = new_state query observed_at ad in
    record p {
      table = insert s p.table;
      existing_by_id = assign ℕ_discrete (listing_ad_id ad) s p.existing_by_id;
      seen_ids = listing_ad_id ad ∷ p.seen_ids;
      new_listings = p.new_listings ++ s ∷ [];
    }

-- The listing is remembered. The reported state is the object itself, so it shows the new values.
pub refresh : Threshold → ℕ → Ad → State → Progress → Progress
unfolding refreshed report_drop
refresh th observed_at ad existing p =
    let s = refreshed observed_at ad existing in
    record p {
      table = update s p.table;
      seen_ids = listing_ad_id ad ∷ p.seen_ids;
      price_drops = report_drop s (price_drop th existing ad) p.price_drops;
    }

pub sync_ad : Threshold → String → ℕ → Ad → Progress → Progress
unfolding add_new refresh
sync_ad th query observed_at ad p =
    if has (listing_ad_id ad) p.seen_ids
    then p
    else elim (find ℕ_discrete (listing_ad_id ad) p.existing_by_id) [
      | none ↦ add_new query observed_at ad p
      | some existing ↦ refresh th observed_at ad existing p
    ]

-- `for ad in candidates`
pub sync_ads : Threshold → String → ℕ → List Ad → Progress → Progress
unfolding sync_ad
sync_ads th query observed_at [] p = p
sync_ads th query observed_at (ad ∷ ads) p =
    sync_ads th query observed_at ads (sync_ad th query observed_at ad p)

pub record SyncResult : Type 0 where
  pub new_listings : List State
  pub price_drops : List (State × ℕ)

-- The state before the loop: the remembered listings of the sample.
pub begin : Table → String → List Ad → Progress
begin t query candidates = record {
  table = t;
  existing_by_id = load_listing_states t query (map listing_ad_id candidates);
  seen_ids = [];
  new_listings = [];
  price_drops = [];
}

-- The table after the sync, and the report.
unfoldable pub sync : Threshold → String → List Ad → ℕ → Table → Table × SyncResult
unfolding sync_ads begin listing_candidates
sync th query ads observed_at t =
    let candidates = listing_candidates ads in
    let p = sync_ads th query observed_at candidates (begin t query candidates) in
    (
      map (deactivate query observed_at) p.table,
      record { new_listings = p.new_listings; price_drops = p.price_drops },
    )
