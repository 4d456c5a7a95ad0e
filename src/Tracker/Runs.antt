-- ===== src/Tracker/Runs.antt =====
-- Any sequence of operations on the trackers.
use rafuk.Base.{ℕ, refl, none, List, [], ◌∷◌, arith, length, ◌≤◌}
use rafuk.Market.TextLib.{TextLib}
use rafuk.User.{max_active_trackers}
use rafuk.Tracker.{Identity}
use rafuk.Tracker.Service.{Db, Request, create_tracker, list_active_trackers}
use rafuk.Tracker.Activation.{deactivate_tracker, deactivate_user_trackers, resume_paused_trackers}
use rafuk.Tracker.Rows.{how_many, IsKeyed}
use rafuk.Tracker.Resume.{is_same}
use rafuk.Tracker.Invariant.{IsValid, length-list_active}
use rafuk.Tracker.Operations.{create_tracker-IsValid}
use rafuk.Tracker.Stops.{block-IsValid, deactivate_tracker-IsValid}
use rafuk.Tracker.Restart.{resume-IsValid}

-- The transactions: the Mini App and the bot create and delete with the quota of the settings, the
-- scheduler pauses the trackers of a user who blocked the bot, and /start resumes them.
pub data Command : Type 0 where
  create : Request → ℕ → Command
  delete : ℕ → ℕ → ℕ → Command
  block : ℕ → Command
  resume : ℕ → Command

unfoldable pub empty : Db
empty = record { users = []; trackers = []; next_id = 1 }

module _ (lib : TextLib) (check : ℕ) where
  unfoldable pub apply : Command → Db → Db
  apply (create r now) db = (create_tracker lib db (record r { max_active = none }) check now).0
  apply (delete user_id id now) db = record db {
    trackers = (deactivate_tracker user_id id now db.trackers).0;
  }
  apply (block user_id) db = record db { trackers = deactivate_user_trackers user_id db.trackers }
  apply (resume user_id) db = record db {
    trackers = (resume_paused_trackers lib check user_id none db.trackers).0;
  }

  unfoldable pub run : List Command → Db → Db
  unfolding apply
  run [] db = db
  run (c ∷ commands) db = run commands (apply c db)

  apply-IsValid : (c : Command) (db : Db) → IsValid lib db → IsValid lib (apply c db)
  unfolding apply
  apply-IsValid (create r now) db h =
      create_tracker-IsValid lib check db (record r { max_active = none }) now refl h
  apply-IsValid (delete user_id id now) db h = deactivate_tracker-IsValid lib user_id id now db h
  apply-IsValid (block user_id) db h = block-IsValid lib user_id db h
  apply-IsValid (resume user_id) db h = resume-IsValid lib check user_id db h

  run-keeps_IsValid :
      (commands : List Command) (db : Db) → IsValid lib db → IsValid lib (run commands db)
  unfolding run
  run-keeps_IsValid [] db h = h
  run-keeps_IsValid (c ∷ commands) db h =
      run-keeps_IsValid commands (apply c db) (apply-IsValid c db h)

  -- Whatever users, the bot and the scheduler do to the trackers, in any order from an empty database,
  -- primary keys stay distinct, no user has two active trackers with the same identity, and no user
  -- has more active trackers than the quota.
  pub run-quota :
      (commands : List Command) (user_id : ℕ)
      → IsKeyed (run commands empty).trackers
        × ((i : Identity) → how_many (is_same lib user_id i) (run commands empty).trackers ≤ 1)
        × (length (list_active_trackers user_id (run commands empty).trackers)
            ≤ max_active_trackers)
  unfolding empty
  run-quota commands user_id =
      let valid = run-keeps_IsValid commands empty (record {
        keyed = tt;
        fresh = tt;
        distinct = λ v i. omega arith;
        within_quota = λ v. omega arith;
      }) in
      let count = length-list_active user_id (run commands empty).trackers in
      (valid.keyed, valid.distinct user_id, omega (arith, count, valid.within_quota user_id))
