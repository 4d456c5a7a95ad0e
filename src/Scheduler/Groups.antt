-- ===== src/Scheduler/Groups.antt =====
-- The groups of trackers that share a query key: `TrackerGroup` and `_load_tracker_groups` of
-- scheduler/collector.py.
pub mod Members
use rafuk.Base.{
  ℕ, zero, suc, ◌+◌, ◌≤◌, ◌==◌, ◌&&◌, String, Bool, true, false, ◌≡◌, refl, sym, ◌∙◌, ap, ite,
  Option, none, some, List, [], ◌∷◌, ◌++◌, map, keep, any, max, str_dec, if◌then◌else◌, arith,
  Option-cases, Bool-cases, inl, inr, leb,
}
use rafuk.Base.OrderedDict.{find, assign, find-assign, Distinct}
use rafuk.Market.TextLib.{TextLib}
use rafuk.Market.Query.{build_query_key, normalize_search_text}
use rafuk.Tracker.{Filters, Tracker}
use rafuk.Scheduler.Due.{tracker_is_due}

pub record TrackerGroup : Type 0 where
  pub key : String
  pub query : String
  pub strict_mode : Bool
  pub tracker_ids : List ℕ
  -- `(interval_min, last_checked_at)` of every tracker in the group
  pub schedules : List (Option ℕ × Option ℕ)

any_due : ℕ → ℕ → List (Option ℕ × Option ℕ) → Bool
any_due check now [] = false
any_due check now ((interval, last) ∷ schedules) =
    if tracker_is_due interval last check now then true else any_due check now schedules

unfoldable pub is_due : TrackerGroup → ℕ → ℕ → Bool
unfolding any_due
is_due group check now = elim group.schedules [
  | [] ↦ true
  | s ∷ schedules ↦ any_due check now (s ∷ schedules)
]

latest : List (Option ℕ × Option ℕ) → Option ℕ
latest [] = none
latest ((interval, none) ∷ schedules) = latest schedules
latest ((interval, some checked) ∷ schedules) = elim (latest schedules) [
  | none ↦ some checked
  | some later ↦ some (max checked later)
]

-- The property `last_checked_at`.
unfoldable pub group_last_checked_at : TrackerGroup → Option ℕ
unfolding latest
group_last_checked_at group = latest group.schedules

-- The two `append` calls.
unfoldable pub join_group : Tracker → TrackerGroup → TrackerGroup
join_group t g = record g {
  tracker_ids = g.tracker_ids ++ t.id ∷ [];
  schedules = g.schedules ++ (some t.interval_min, t.last_checked_at) ∷ [];
}

values : List (String × TrackerGroup) → List TrackerGroup
values [] = []
values ((key, group) ∷ groups) = group ∷ values groups

abbrev pub ids_of : List Tracker → List ℕ
ids_of trackers = map (λ t. t.id) trackers

abbrev pub schedules_of : List Tracker → List (Option ℕ × Option ℕ)
schedules_of trackers = map (λ t. (some t.interval_min, t.last_checked_at)) trackers

module _ (lib : TextLib) where
  unfoldable pub key_of : Tracker → String
  key_of t = build_query_key lib t.query t.strict_mode

  -- An active tracker whose query is not empty after normalization.
  unfoldable pub has_query : Tracker → Bool
  has_query t = ite (str_dec (lib.strip (normalize_search_text lib t.query)) "") false t.active

  -- `TrackerGroup(key=key, query=query, strict_mode=bool(strict_mode))`
  new_group : Tracker → TrackerGroup
  unfolding key_of
  new_group t = record {
    key = key_of t;
    query = t.query;
    strict_mode = t.strict_mode;
    tracker_ids = [];
    schedules = [];
  }

  -- `groups.get(key)`, or a new group
  group_for : Tracker → Option TrackerGroup → TrackerGroup
  unfolding new_group
  group_for t none = new_group t
  group_for t (some g) = g

  unfoldable pub group_trackers :
      List Tracker → List (String × TrackerGroup) → List (String × TrackerGroup)
  unfolding has_query key_of join_group group_for find assign
  group_trackers [] groups = groups
  group_trackers (t ∷ trackers) groups =
      let joined =
        assign str_dec (key_of t) (join_group t (group_for t (find str_dec (key_of t) groups)))
          groups in
      group_trackers trackers (if has_query t then joined else groups)

  unfoldable pub load_tracker_groups : List Tracker → List TrackerGroup
  unfolding group_trackers values
  load_tracker_groups trackers = values (group_trackers trackers [])
