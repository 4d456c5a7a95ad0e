-- ===== src/Scheduler/Run.antt =====
-- A run of the scheduler, and many of them: `check_trackers` of scheduler/collector.py. What the outside
-- does during a run is an argument. Times are microseconds.
pub mod Once
use rafuk.Base.{
  ℕ, zero, suc, String, Bool, true, false, Option, none, some, List, [], ◌∷◌, ◌++◌, if◌then◌else◌,
}
use rafuk.Market.TextLib.{TextLib}
use rafuk.Tracker.{Tracker}
use rafuk.Scheduler.Groups.{TrackerGroup, is_due, load_tracker_groups}
use rafuk.Scheduler.Fetch.{Page}
use rafuk.Scheduler.Process.{Store, OutgoingAlert, process_group}
use rafuk.Scheduler.Alerts.{Attempt, Sender, send}

-- What happens around a run: when it starts, the check interval, what Kufar answers for a query key and
-- when, and what Telegram answers to an alert for a user.
pub record Surroundings : Type 0 where
  pub started_at : ℕ
  pub check_interval : ℕ
  pub kufar : String → ℕ → Option String → Option Page
  pub observed_at : String → ℕ
  pub telegram : String → ℕ → ℕ → Attempt

-- The alerts of every group that was checked, with its query key.
abbrev pub Log : Type 0
Log = List (String × List OutgoingAlert)

-- `for alert in alerts: await sender.send(alert)`; a blocked user's trackers change in the table
unfoldable pub send_alerts : (ℕ → ℕ → Attempt) → List OutgoingAlert → Sender → Sender
send_alerts telegram [] sender = sender
send_alerts telegram (alert ∷ alerts) sender =
    send_alerts telegram alerts (send (telegram alert.user_id) alert.user_id sender).sender

module _ (lib : TextLib) (crc32 : String → ℕ) (s : Surroundings) where
  -- The check of a group that is due, and its alerts.
  unfoldable pub check_group : TrackerGroup → Store × Sender → (Store × Sender) × List OutgoingAlert
  unfolding send_alerts
  check_group group (db, sender) =
      let done =
        process_group lib crc32 group (s.kufar group.key) s.started_at (s.observed_at group.key)
          db in
      let sent =
        send_alerts (s.telegram group.key) done.1 (record sender { trackers = done.0.trackers }) in
      ((record done.0 { trackers = sent.trackers }, sent), done.1)

  -- `for group in groups`
  unfoldable pub check_groups : List TrackerGroup → Store × Sender → (Store × Sender) × Log
  unfolding check_group
  check_groups [] state = (state, [])
  check_groups (group ∷ groups) state =
      let checked = check_group group state in
      let rest = check_groups groups checked.0 in
      let skipped = check_groups groups state in
      if is_due group s.check_interval s.started_at
      then (rest.0, (group.key, checked.1) ∷ rest.1)
      else skipped

  -- `check_trackers`, with a new `AlertSender`
  unfoldable pub check_trackers : Store → Store × Log
  unfolding check_groups
  check_trackers db =
      let sender : Sender = record {
        last_sent_at = none;
        blocked_users = [];
        transient_failures = 0;
        trackers = db.trackers;
      } in
      let run = check_groups (load_tracker_groups lib db.trackers) (db, sender) in (run.0.0, run.1)

-- One run after another. Before each, users have changed the trackers in whatever way.
unfoldable pub check_all :
    TextLib → (String → ℕ) → List (Surroundings × List Tracker) → Store → Store × Log
unfolding check_trackers
check_all lib crc32 [] db = (db, [])
check_all lib crc32 ((s, trackers) ∷ runs) db =
    let one = check_trackers lib crc32 s (record db { trackers = trackers }) in
    let rest = check_all lib crc32 runs one.0 in (rest.0, one.1 ++ rest.1)
