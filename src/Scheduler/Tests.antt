-- ===== src/Scheduler/Tests.antt =====
-- Concrete runs of the scheduler.
use rafuk.Base.{
  ℕ, zero, suc, ◌<◌, ◌≡◌, ◌*◌, ◌+◌, refl, false, true, none, some, List, [], ◌∷◌, arith, length,
  leb, keep, String, Option, any, All,
}
use rafuk.Base.Time.{minutes}
use rafuk.Base.Int.{pos}
use rafuk.Json.{null}
use rafuk.Market.Ad.{Ad}
use rafuk.Market.Sample.{plain_texts}
use rafuk.Tracker.{Filters, Tracker}
use rafuk.Tracker.Interval.{rounded_interval_min}
use rafuk.Tracker.Service.{list_active_trackers, new_tracker}
use rafuk.History.Table.{State, row, has_listing_states}
use rafuk.Scheduler.Due.{tracker_is_due, deep_scan_is_due, timestamp, tracker_is_due_iff, window}
use rafuk.Scheduler.Fetch.{Page, fetch_group_sample}
use rafuk.Scheduler.Fetch.Window.{IsSample, fetch_group_sample-IsSample}
use rafuk.Scheduler.Process.{Store, process_group}
use rafuk.Scheduler.Run.{Surroundings, check_all}
use rafuk.Scheduler.Run.Once.{IsOnce, check_all-IsOnce}
use rafuk.Scheduler.Process.Recipients.{is_recipient_of, process_group-recipients}
use rafuk.Scheduler.Groups.{TrackerGroup, load_tracker_groups, ids_of, schedules_of}
use rafuk.Scheduler.Groups.Members.{
  is_member, the_group, members, plan, load_tracker_groups-members,
}
use rafuk.Scheduler.Alerts.{Attempt, Sender, delivered, forbidden, transient_error, send, send_all}
use rafuk.Scheduler.Alerts.Bounds.{IsRetried, calls_to, send_all-forbidden}
use rafuk.Scheduler.Alerts.Spacing.{IsSpaced, all_calls, send_all-IsSpaced}

-- Every 50 minutes at a check interval of 30: the next run but one, also 10 minutes late.
tracker_is_due_iff_example :
    (m : ℕ) × (rounded_interval_min 50 30 ≡ m * 30)
    × (tracker_is_due (some 50) (some (1_000 + minutes 5)) 30 (1_000 + 2 * minutes 30 + minutes 10)
        ≡ leb m 2)
tracker_is_due_iff_example =
    tracker_is_due_iff 50 30 1_000 (minutes 10) (minutes 5) 2 (omega arith) (omega arith)
      (omega arith) (omega arith)

program : Unit {0}
unfolding deep_scan_is_due window timestamp
program = tt

abbrev filters : Filters
filters = record {
  query = "ps5";
  strict_mode = false;
  min_discount_percent = none;
  max_price_byn = none;
  seller_type = none;
  condition = none;
  region_name = none;
  config_keyword = none;
  exclude_duplicates = false;
}

abbrev pair : List Tracker
pair = new_tracker plain_texts 1 7 filters 15 ∷ new_tracker plain_texts 2 8 filters 30 ∷ []

load_tracker_groups-members_example :
    (members (the_group "broad::ps5" (load_tracker_groups plain_texts pair))
      ≡ ids_of (keep (is_member plain_texts "broad::ps5") pair))
    × (plan (the_group "broad::ps5" (load_tracker_groups plain_texts pair))
        ≡ schedules_of (keep (is_member plain_texts "broad::ps5") pair))
load_tracker_groups-members_example = load_tracker_groups-members plain_texts "broad::ps5" pair

abbrev fresh : Sender
fresh = record { last_sent_at = none; blocked_users = []; transient_failures = 0; trackers = pair }

-- Telegram is down at the first try.
abbrev flaky : ℕ → Attempt
flaky zero = record { now = 100; late = 0; reply = transient_error }
flaky (suc n) = record { now = 2_100_000; late = 3; reply = delivered }

-- Telegram is down at the first try, and then the user has blocked the bot.
abbrev refusing : ℕ → Attempt
refusing zero = record { now = 100; late = 0; reply = transient_error }
refusing (suc n) = record { now = 2_100_000; late = 0; reply = forbidden true }

refusing-IsRetried : (m : ℕ) → m < 1 → IsRetried (refusing m).reply
refusing-IsRetried zero h = tt
refusing-IsRetried (suc m) h = absurd (omega arith)

send_all-forbidden_example :
    (calls_to 7 (send_all ((7, flaky) ∷ (8, flaky) ∷ []) (send refusing 7 fresh).sender).1 ≡ 0)
    × (length (
          list_active_trackers 7
            (send_all ((7, flaky) ∷ (8, flaky) ∷ []) (send refusing 7 fresh).sender).0.trackers)
        ≡ 0)
send_all-forbidden_example =
    send_all-forbidden 7 1 refusing ((7, flaky) ∷ (8, flaky) ∷ []) fresh refl (omega arith)
      refusing-IsRetried refl

send_all-IsSpaced_example :
    IsSpaced none
      (all_calls (send_all ((7, flaky) ∷ (8, refusing) ∷ []) fresh).1)
      (send_all ((7, flaky) ∷ (8, refusing) ∷ []) fresh).0.last_sent_at
send_all-IsSpaced_example = send_all-IsSpaced ((7, flaky) ∷ (8, refusing) ∷ []) fresh

-- A listing that was last seen a hundred days ago, of a key that is not tracked.
abbrev old : State
old = record {
  query = "xbox";
  ad_id = 9;
  title = "Xbox";
  link = "";
  last_price_byn = none;
  list_time = none;
  active = true;
  first_seen_at = 0;
  last_seen_at = 0;
}

-- A group of one tracker that was checked before, and its query key.
abbrev watcher : Tracker
watcher = record (new_tracker plain_texts 1 7 filters 15) { last_checked_at = some 100 }

abbrev watched : TrackerGroup
watched = record {
  key = "broad::ps5";
  query = "ps5";
  strict_mode = false;
  tracker_ids = 1 ∷ [];
  schedules = (some 15, some 100) ∷ [];
}

abbrev console : Ad
console = record {
  ad_id = some 8;
  subject = some "PS5";
  ad_link = "https://kufar.by/8";
  list_time = none;
  price_byn = some (pos 80_000);
  raw = null;
}

-- Kufar answers with one page.
abbrev one_page : ℕ → Option String → Option Page
one_page n cursor = some record { payload = null; raw_ads = console ∷ [] }

-- Another listing of the query is known.
abbrev remembered : Store
remembered = record {
  states = record old { query = "broad::ps5" } ∷ [];
  trackers = watcher ∷ [];
  events = [];
}

fetch_group_sample-IsSample_example :
    IsSample 8 3 false
      (fetch_group_sample plain_texts (λ ids. []) (some 100) watched false one_page)
fetch_group_sample-IsSample_example =
    fetch_group_sample-IsSample plain_texts (λ ids. []) (some 100) watched false one_page 8

process_group-recipients_example :
    All
      (λ a. any (is_recipient_of watched a) remembered.trackers ≡ true)
      (process_group plain_texts (λ key. 0) watched one_page 200 300 remembered).1
    × (has_listing_states remembered.states watched.key ≡ false
        → (process_group plain_texts (λ key. 0) watched one_page 200 300 remembered).1 ≡ [])
process_group-recipients_example =
    process_group-recipients plain_texts watched (λ key. 0) one_page 200 300 remembered

-- Half an hour passes between two runs, in which Kufar shows the same page.
abbrev run_at : ℕ → Surroundings
run_at start = record {
  started_at = start;
  check_interval = 30;
  kufar = λ key. one_page;
  observed_at = λ key. start + 100;
  telegram = λ key user_id. flaky;
}

abbrev two_runs : List (Surroundings × List Tracker)
two_runs = (run_at 200, watcher ∷ []) ∷ (run_at 1_800_000_200, watcher ∷ []) ∷ []

check_all-IsOnce_example : IsOnce (check_all plain_texts (λ key. 0) two_runs remembered).1
unfolding row
check_all-IsOnce_example = check_all-IsOnce plain_texts (λ key. 0) two_runs remembered (refl, tt)
