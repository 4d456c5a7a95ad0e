-- ===== src/History/Snapshots.antt =====
-- Hourly price snapshots: `snapshot_bucket`, `upsert_query_snapshot` with its two ways to write a row, and
-- `load_query_snapshots` of api/services/history_service.py, and `cleanup_old_snapshots` of
-- scheduler/collector.py. Times are microseconds; prices are as in Market/Prices.
pub mod Upserts
use rafuk.Base.{
  ℕ, ◌+◌, ◌-◌, ◌*◌, ◌/◌, ◌==◌, String, Bool, true, false, not, ◌&&◌, ◌||◌, ite, Option, none, some,
  List, [], ◌∷◌, ◌++◌, keep, leb, ltb, max, str_dec, if◌then◌else◌,
}
use rafuk.Base.Time.{days, minutes}
use rafuk.Market.Ad.{Ad}
use rafuk.Market.Prices.{PriceStats, extract_prices, compute_price_stats}

-- A row of `query_snapshots`; the mean is `price_sum / analyzed_count`.
pub record Snapshot : Type 0 where
  pub query : String
  pub snapshot_at : ℕ
  pub total_results : ℕ
  pub analyzed_count : ℕ
  pub price_sum : ℕ
  pub median_byn : ℕ
  pub min_byn : ℕ
  pub max_byn : ℕ

-- `snapshot_bucket`
unfoldable pub snapshot_bucket : ℕ → ℕ
snapshot_bucket now = now / minutes 60 * minutes 60

-- The row of a query and an hour.
unfoldable pub is_snapshot : String → ℕ → Snapshot → Bool
is_snapshot query at s = ite (str_dec s.query query) (s.snapshot_at == at) false

unfoldable pub snapshot_row : String → ℕ → List Snapshot → Option Snapshot
unfolding is_snapshot
snapshot_row query at [] = none
snapshot_row query at (s ∷ t) = if is_snapshot query at s then some s else snapshot_row query at t

-- `INSERT ... ON CONFLICT`, where the second clause says if a row that is there is replaced; the flag is
-- that `RETURNING` yields a row.
unfoldable pub insert_on_conflict :
    (Snapshot → Bool) → Snapshot → List Snapshot → List Snapshot × Bool
unfolding is_snapshot
insert_on_conflict replaces values [] = (values ∷ [], true)
insert_on_conflict replaces values (s ∷ t) =
    let rest = insert_on_conflict replaces values t in
    if is_snapshot values.query values.snapshot_at s
    then if replaces s then (values ∷ t, true) else (s ∷ t, false)
    else (s ∷ rest.0, rest.1)

-- `on_conflict_do_nothing`, `on_conflict_do_update`
unfoldable pub upsert_atomic : Bool → Snapshot → List Snapshot → List Snapshot × Bool
unfolding insert_on_conflict
upsert_atomic only_if_missing values t =
    insert_on_conflict
      (λ s. if only_if_missing then false else leb s.analyzed_count values.analyzed_count) values t

-- The flush of the assignments to a row.
unfoldable pub replace_row : Snapshot → List Snapshot → List Snapshot
unfolding is_snapshot
replace_row values [] = []
replace_row values (s ∷ t) =
    if is_snapshot values.query values.snapshot_at s then values ∷ t else s ∷ replace_row values t

write_fallback : Option Snapshot → Bool → Snapshot → List Snapshot → List Snapshot × Bool
unfolding replace_row
write_fallback none only_if_missing values t = (t ++ values ∷ [], true)
write_fallback (some existing) only_if_missing values t =
    if only_if_missing || ltb values.analyzed_count existing.analyzed_count
    then (t, false)
    else (replace_row values t, true)

-- `_upsert_query_snapshot_fallback`
unfoldable pub upsert_fallback : Bool → Snapshot → List Snapshot → List Snapshot × Bool
unfolding write_fallback
upsert_fallback only_if_missing values t =
    write_fallback (snapshot_row values.query values.snapshot_at t) only_if_missing values t

values_of : String → ℕ → ℕ → PriceStats → Snapshot
values_of query total_results bucket_at stats = record {
  query = query;
  snapshot_at = bucket_at;
  total_results = max total_results stats.count;
  analyzed_count = stats.count;
  price_sum = stats.total_price;
  median_byn = stats.median;
  min_byn = stats.min_price;
  max_byn = stats.max_price;
}

-- `if stats.count == 0: return False`; statistics always exist
unfoldable pub write_snapshot :
    Option PriceStats → String → ℕ → ℕ → Bool → Bool → List Snapshot → List Snapshot × Bool
unfolding upsert_atomic upsert_fallback values_of
write_snapshot none query total_results bucket_at only_if_missing atomic t = (t, false)
write_snapshot (some stats) query total_results bucket_at only_if_missing atomic t =
    let values = values_of query total_results bucket_at stats in
    if stats.count == 0
    then (t, false)
    else if atomic
    then upsert_atomic only_if_missing values t
    else upsert_fallback only_if_missing values t

-- `upsert_query_snapshot`; `atomic` says that the dialect has INSERT ... ON CONFLICT
unfoldable pub upsert_query_snapshot :
    String → List Ad → ℕ → ℕ → Bool → Bool → List Snapshot → List Snapshot × Bool
unfolding write_snapshot
upsert_query_snapshot query ads total_results bucket_at only_if_missing atomic t =
    write_snapshot (compute_price_stats (extract_prices ads)) query total_results bucket_at
      only_if_missing atomic t

-- `cleanup_old_snapshots`, which keeps the rest
unfoldable pub cleanup_old_snapshots : ℕ → ℕ → List Snapshot → List Snapshot
cleanup_old_snapshots limit now t = keep (λ s. not (ltb (s.snapshot_at + days limit) now)) t
