-- ===== src/Workflow/Watchlist.antt =====
-- `upsert_watchlist` of api/services/workflow_store.py. Prices are kopecks, times microseconds.
pub mod Quota
use rafuk.Base.{
  ℕ, zero, suc, ◌==◌, ◌&&◌, String, Bool, true, false, Option, none, some, List, [], ◌∷◌, ◌++◌, leb,
  length, keep, if◌then◌else◌,
}
use rafuk.Market.TextLib.{TextLib}
use rafuk.User.{max_watchlist_items}
use rafuk.Workflow.{resolve_link, fill_notes}

-- The columns of `WatchlistItem` that the code sets.
pub record WatchlistItem : Type 0 where
  pub user_id : ℕ
  pub ad_id : ℕ
  pub query : String
  pub title : String
  pub link : String
  pub initial_price_byn : Option ℕ
  pub current_price_byn : Option ℕ
  pub notes : Option String
  pub last_seen_at : Option ℕ

-- The arguments of `upsert_watchlist`.
pub record WatchRequest : Type 0 where
  pub user_id : ℕ
  pub ad_id : ℕ
  pub query : String
  pub title : String
  pub link : String
  pub price_byn : Option ℕ
  pub notes : Option String
  pub max_items : Option ℕ

-- `_get_watchlist_item`; a user watches an ad at most once (`uq_watchlist_items_user_ad`)
unfoldable pub get_watchlist_item : ℕ → ℕ → List WatchlistItem → Option WatchlistItem
get_watchlist_item user_id ad_id [] = none
get_watchlist_item user_id ad_id (w ∷ items) =
    if w.user_id == user_id && w.ad_id == ad_id
    then some w
    else get_watchlist_item user_id ad_id items

-- `count_user_rows`
unfoldable pub count_user_rows : ℕ → List WatchlistItem → ℕ
count_user_rows user_id items = length (keep (λ w. w.user_id == user_id) items)

unfoldable pub max_of : Option ℕ → ℕ
max_of none = max_watchlist_items
max_of (some limit) = limit

-- `if existing.initial_price_byn is None`
unfoldable pub first_price : Option ℕ → Option ℕ → Option ℕ
first_price none price = price
first_price (some initial) price = some initial

module _ (lib : TextLib) (format : ℕ → String) where
  unfoldable pub new_item : WatchRequest → ℕ → WatchlistItem
  unfolding resolve_link
  new_item r now = record {
    user_id = r.user_id;
    ad_id = r.ad_id;
    query = r.query;
    title = r.title;
    link = resolve_link lib format r.link r.ad_id "";
    initial_price_byn = r.price_byn;
    current_price_byn = r.price_byn;
    notes = r.notes;
    last_seen_at = some now;
  }

  unfoldable pub refresh_item : WatchRequest → ℕ → WatchlistItem → WatchlistItem
  unfolding resolve_link fill_notes first_price
  refresh_item r now w = record w {
    query = r.query;
    title = r.title;
    link = resolve_link lib format r.link r.ad_id w.link;
    current_price_byn = r.price_byn;
    last_seen_at = some now;
    notes = fill_notes r.notes w.notes;
    initial_price_byn = first_price w.initial_price_byn r.price_byn;
  }

  -- The update of the row.
  unfoldable pub update_item : WatchRequest → ℕ → List WatchlistItem → List WatchlistItem
  unfolding refresh_item
  update_item r now [] = []
  update_item r now (w ∷ items) =
      if w.user_id == r.user_id && w.ad_id == r.ad_id
      then refresh_item r now w ∷ items
      else w ∷ update_item r now items

  -- The items afterwards; `none` is UserQuotaExceededError. A concurrent request that inserts the row
  -- between the first look and the insertion ends in the update.
  unfoldable pub upsert_watchlist :
      WatchRequest → ℕ → List WatchlistItem → Option (List WatchlistItem)
  unfolding get_watchlist_item count_user_rows max_of new_item update_item
  upsert_watchlist r now items = elim (get_watchlist_item r.user_id r.ad_id items) [
    | some w ↦ some (update_item r now items)
    | none ↦
        if leb (max_of r.max_items) (count_user_rows r.user_id items)
        then none
        else some (items ++ new_item r now ∷ [])
  ]
