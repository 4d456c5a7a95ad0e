-- ===== src/Tracker/Service.antt =====
-- The operations of api/services/tracker_service.py on the table of trackers, whose rows stand in the
-- order of their creation.
use rafuk.Base.{
  ℕ, suc, ◌==◌, String, Bool, true, ◌&&◌, ite, Option, none, some, List, [], ◌∷◌, ◌++◌, str_dec,
  leb, length, keep, if◌then◌else◌,
}
use Prim.Native.String.{count}
use mathlib.Core.List.{reverse}
use rafuk.Market.TextLib.{TextLib}
use rafuk.Market.Query.{normalize_search_text}
use rafuk.User.{User, ensure_user, max_active_trackers}
use rafuk.Tracker.{
  Filters, Tracker, Identity, Identity-discrete, tracker_identity, identity_of, clean_text,
}
use rafuk.Tracker.Interval.{effective_interval_min}

-- `MAX_DB_ID`
abbrev pub max_db_id : ℕ
max_db_id = 2_147_483_647

-- `MAX_QUERY_LENGTH` of api/validators.py
abbrev pub max_query_length : ℕ
max_query_length = 255

-- `Tracker.user_id == user_id, Tracker.active.is_(True)`
unfoldable pub is_active_of : ℕ → Tracker → Bool
is_active_of user_id t = t.user_id == user_id && t.active

-- `list_active_trackers`: the newest first
unfoldable pub list_active_trackers : ℕ → List Tracker → List Tracker
unfolding is_active_of
list_active_trackers user_id trackers = reverse (keep (is_active_of user_id) trackers)

-- The tables that a transaction changes, and the next primary key.
pub record Db : Type 0 where
  pub users : List User
  pub trackers : List Tracker
  pub next_id : ℕ

-- What a creation returns or raises.
pub data Outcome : Type 0 where
  created : Tracker → Outcome
  validation_error : Outcome
  duplicate : Tracker → Outcome
  quota_exceeded : ℕ → Outcome

-- The first active tracker with an identity.
unfoldable pub find_same : TextLib → Identity → List Tracker → Option Tracker
find_same lib i [] = none
find_same lib i (t ∷ trackers) =
    ite (Identity-discrete (tracker_identity lib t) i) (some t) (find_same lib i trackers)

-- `normalize_tracker_query`, where `none` is a validation error
unfoldable pub normalize_tracker_query : TextLib → Option String → Option String
normalize_tracker_query lib raw_query =
    let query = lib.strip (elim raw_query [ none ↦ "" | some q ↦ q ]) in
    ite (str_dec query "") none (
      ite (str_dec (normalize_search_text lib query) "") none
        (if leb (count query) max_query_length then some query else none))

-- The arguments of `create_tracker`; `max_active` replaces the quota.
pub record Request : Type 0 where
  pub user_id : ℕ
  pub filters : Filters
  pub open filters use *
  pub interval_min : Option ℕ
  pub first_name : Option String
  pub username : Option String
  pub max_active : Option ℕ

unfoldable pub limit_of : Option ℕ → ℕ
limit_of none = max_active_trackers
limit_of (some n) = n

module _ (lib : TextLib) where
  -- The dictionary `values`, of a normalized query.
  unfoldable pub cleaned : String → Filters → Filters
  cleaned query f = record f {
    query = query;
    seller_type = clean_text lib f.seller_type;
    condition = clean_text lib f.condition;
    region_name = clean_text lib f.region_name;
    config_keyword = clean_text lib f.config_keyword;
  }

  unfoldable pub new_tracker : ℕ → ℕ → Filters → ℕ → Tracker
  new_tracker id user_id filters interval_min = record {
    id = id;
    user_id = user_id;
    filters = filters;
    interval_min = interval_min;
    last_seen_ad_id = none;
    last_seen_price_byn = none;
    last_checked_at = none;
    active = true;
    deleted_at = none;
  }

  unfoldable pub insert_tracker : Db → Request → Filters → ℕ → Db × Outcome
  unfolding new_tracker
  insert_tracker db r values check =
      let t =
        new_tracker db.next_id r.user_id values (effective_interval_min r.interval_min check) in
      (record db { trackers = db.trackers ++ t ∷ []; next_id = suc db.next_id }, created t)

  -- The checks behind the lock, and the insertion.
  unfoldable pub insert_checked : Db → Request → Filters → ℕ → Db × Outcome
  unfolding insert_tracker limit_of
  insert_checked db r values check =
      let active_trackers = list_active_trackers r.user_id db.trackers in
      elim (find_same lib (identity_of lib values) active_trackers) [
        | some t ↦ (db, duplicate t)
        | none ↦
            if leb (limit_of r.max_active) (length active_trackers)
            then (db, quota_exceeded (limit_of r.max_active))
            else insert_tracker db r values check
      ]

  -- `check` is the setting `alert_check_interval`.
  unfoldable pub create_tracker : Db → Request → ℕ → ℕ → Db × Outcome
  unfolding cleaned insert_checked
  create_tracker db r check now = elim (normalize_tracker_query lib (some r.query)) [
    | none ↦ (db, validation_error)
    | some query ↦
        let users = ensure_user lib r.user_id r.first_name r.username now db.users in
        insert_checked (record db { users = users }) r (cleaned query r.filters) check
  ]
