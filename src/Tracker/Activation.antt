-- ===== src/Tracker/Activation.antt =====
-- The operations that stop and resume trackers: `deactivate_tracker` and `resume_paused_trackers` of
-- api/services/tracker_service.py, `deactivate_user_trackers` of scheduler/collector.py.
use rafuk.Base.{
  ℕ, zero, suc, ◌-◌, ◌==◌, Bool, true, false, not, ◌&&◌, ite, Option, none, some, List, [], ◌∷◌,
  leb, length, keep, map, if◌then◌else◌,
}
use rafuk.Market.TextLib.{TextLib}
use rafuk.Tracker.{Tracker, Identity, Identity-discrete, tracker_identity}
use rafuk.Tracker.Interval.{effective_interval_min}
use rafuk.Tracker.Service.{max_db_id, is_active_of, list_active_trackers, limit_of}

-- The row of a primary key.
unfoldable pub tracker_row : ℕ → List Tracker → Option Tracker
tracker_row id [] = none
tracker_row id (t ∷ trackers) = if t.id == id then some t else tracker_row id trackers

-- The flush of an object that was changed.
unfoldable pub save : Tracker → List Tracker → List Tracker
save t [] = []
save t (r ∷ trackers) = if r.id == t.id then t ∷ save t trackers else r ∷ save t trackers

unfoldable pub deleted : ℕ → Tracker → Tracker
deleted now t = record t { active = false; deleted_at = some now }

-- A row that is not the user's, or not active, is not found.
unfoldable pub delete_found : ℕ → ℕ → Option Tracker → List Tracker → List Tracker × Option Tracker
unfolding is_active_of deleted save
delete_found user_id now none trackers = (trackers, none)
delete_found user_id now (some t) trackers =
    if is_active_of user_id t
    then (save (deleted now t) trackers, some (deleted now t))
    else (trackers, none)

unfoldable pub deactivate_tracker : ℕ → ℕ → ℕ → List Tracker → List Tracker × Option Tracker
unfolding tracker_row delete_found
deactivate_tracker user_id tracker_id now trackers =
    if leb 1 tracker_id && leb tracker_id max_db_id
    then delete_found user_id now (tracker_row tracker_id trackers) trackers
    else (trackers, none)

-- `deactivate_user_trackers`, of a user who blocked the bot: `deleted_at` stays empty
unfoldable pub pause : ℕ → Tracker → Tracker
unfolding is_active_of
pause user_id t = if is_active_of user_id t then record t { active = false } else t

unfoldable pub deactivate_user_trackers : ℕ → List Tracker → List Tracker
unfolding pause
deactivate_user_trackers user_id trackers = map (pause user_id) trackers

unfoldable pub is_none : Option ℕ → Bool
is_none none = true
is_none (some n) = false

-- `Tracker.user_id == user_id, Tracker.active.is_(False), Tracker.deleted_at.is_(None)`
unfoldable pub is_paused_of : ℕ → Tracker → Bool
unfolding is_none
is_paused_of user_id t = t.user_id == user_id && (not t.active && is_none t.deleted_at)

-- `i in identities`
unfoldable pub has_identity : Identity → List Identity → Bool
has_identity i [] = false
has_identity i (j ∷ identities) = ite (Identity-discrete j i) true (has_identity i identities)

-- `check` is the setting `alert_check_interval`.
unfoldable pub resumed : ℕ → Tracker → Tracker
resumed check t = record t {
  active = true;
  last_checked_at = none;
  interval_min = effective_interval_min (some t.interval_min) check;
}

module _ (lib : TextLib) (check : ℕ) where
  -- The loop over the paused trackers, with the number that is still available.
  unfoldable pub resume_loop :
      ℕ → List Identity → List Tracker → List Tracker → List Tracker × List Tracker
  unfolding has_identity resumed save
  resume_loop zero identities paused trackers = (trackers, [])
  resume_loop (suc available) identities [] trackers = (trackers, [])
  resume_loop (suc available) identities (p ∷ paused) trackers =
      let same = resume_loop (suc available) identities paused trackers in
      let next =
        resume_loop available (tracker_identity lib p ∷ identities) paused
          (save (resumed check p) trackers) in
      if has_identity (tracker_identity lib p) identities
      then same
      else (next.0, resumed check p ∷ next.1)

  unfoldable pub resume_paused_trackers : ℕ → Option ℕ → List Tracker → List Tracker × List Tracker
  unfolding resume_loop is_paused_of limit_of
  resume_paused_trackers user_id max_active trackers =
      let active_trackers = list_active_trackers user_id trackers in
      resume_loop (limit_of max_active - length active_trackers)
        (map (tracker_identity lib) active_trackers) (keep (is_paused_of user_id) trackers) trackers
