-- ===== src/Scheduler/Process.antt =====
-- One group of a run: `_process_group`, `persist_tracker_events`, `_filter_sync_result_for_tracker` and
-- `_primary_event` of scheduler/collector.py. Times are microseconds, prices kopecks.
pub mod Reports
pub mod Recipients
use rafuk.Base.{
  ℕ, ◌*◌, String, Bool, true, false, not, ◌&&◌, ite, Option, none, some, List, [], ◌∷◌, ◌++◌, map,
  keep, take, has, str_dec, ℕ_discrete, if◌then◌else◌,
}
use rafuk.Base.Text.{truncate}
use rafuk.Base.OrderedDict.{find, assign}
use rafuk.Market.TextLib.{TextLib}
use rafuk.Market.Ad.{Ad, listing_ad_id, normalize_price_byn}
use rafuk.Market.Prices.{PriceStats, extract_prices, compute_price_stats}
use rafuk.Market.Duplicates.{duplicate_counts}
use rafuk.Market.Filters.{matches_tracker_filters}
use rafuk.History.Table.{State, Table, has_listing_states}
use rafuk.History.Known.{load_known_ad_ids, mark_query_baseline}
use rafuk.History.Sync.{SyncResult, default_threshold, sync}
use rafuk.Tracker.{Tracker}
use rafuk.Scheduler.Due.{deep_scan_is_due}
use rafuk.Scheduler.Groups.{TrackerGroup, group_last_checked_at}
use rafuk.Scheduler.Fetch.{Page, FetchedSample, fetch_group_sample}

-- The two values of `event_type`.
pub data EventType : Type 0 where
  new_listing : EventType
  price_drop : EventType

-- A `TrackerEvent`, before the database gives it an id.
pub record Event : Type 0 where
  pub tracker_id : ℕ
  pub user_id : ℕ
  pub ad_id : ℕ
  pub query : String
  pub strict_mode : Bool
  pub event_type : EventType
  pub title : String
  pub link : String
  pub price_byn : Option ℕ
  pub delta_byn : Option ℕ

-- The tables that a group changes.
pub record Store : Type 0 where
  pub states : Table
  pub trackers : List Tracker
  pub events : List Event

-- An alert, by what its text and its buttons are made of.
pub record OutgoingAlert : Type 0 where
  pub tracker_id : ℕ
  pub user_id : ℕ
  pub report : SyncResult
  pub primary_event : Option Event

event_of : Tracker → EventType → State → Option ℕ → Event
event_of tracker event_type s delta = record {
  tracker_id = tracker.id;
  user_id = tracker.user_id;
  ad_id = s.ad_id;
  query = tracker.query;
  strict_mode = tracker.strict_mode;
  event_type = event_type;
  title = s.title;
  link = s.link;
  price_byn = s.last_price_byn;
  delta_byn = delta;
}

-- `persist_tracker_events`, the events it adds
unfoldable pub persist_tracker_events : Tracker → SyncResult → List Event
unfolding event_of
persist_tracker_events tracker result =
    map (λ s. event_of tracker new_listing s none) (take 10 result.new_listings)
    ++ map (λ d. event_of tracker price_drop d.0 (some d.1)) (take 10 result.price_drops)

-- `event.link.startswith(("https://", "http://"))`
has_url : Event → Bool
has_url event =
    ite (str_dec (truncate 8 event.link) "https://") true
      (ite (str_dec (truncate 7 event.link) "http://") true false)

-- `_primary_event`
unfoldable pub primary_event : List Event → Option Event
unfolding has_url
primary_event [] = none
primary_event (event ∷ events) = if has_url event then some event else primary_event events

-- `{listing_ad_id(ad): ad for ad in ads}`
unfoldable pub ads_by_id : List Ad → List (ℕ × Ad) → List (ℕ × Ad)
ads_by_id [] found = found
ads_by_id (ad ∷ ads) found = ads_by_id ads (assign ℕ_discrete (listing_ad_id ad) ad found)

-- `tracker.active` and its id is one of the group's.
unfoldable pub is_selected : TrackerGroup → Tracker → Bool
is_selected group tracker = tracker.active && has tracker.id group.tracker_ids

-- `if tracker_sync_result.new_listings or tracker_sync_result.price_drops`
unfoldable pub is_empty : SyncResult → Bool
is_empty result = elim result.new_listings [
  | s ∷ states ↦ false
  | [] ↦ elim result.price_drops [ d ∷ drops ↦ false | [] ↦ true ]
]

-- The report without the silent listings.
unfoldable pub drop_silent : List ℕ → SyncResult → SyncResult
drop_silent silent_ad_ids result = record result {
  new_listings = keep (λ s. not (has s.ad_id silent_ad_ids)) result.new_listings;
}

-- The assignments at the end of the loop over the trackers.
unfoldable pub checked : Option Ad → ℕ → Tracker → Tracker
checked newest checked_at tracker = record tracker {
  last_seen_ad_id = elim newest [ none ↦ none | some ad ↦ some (listing_ad_id ad) ];
  last_seen_price_byn = elim newest [ none ↦ none | some ad ↦ normalize_price_byn ad.price_byn ];
  last_checked_at = some checked_at;
}

unfoldable pub newest_of : List Ad → Option Ad
newest_of [] = none
newest_of (ad ∷ ads) = some ad

-- `tracker.last_checked_at is not None`, and a report that says something
unfoldable pub report_for : Option ℕ → SyncResult → Option SyncResult
unfolding is_empty
report_for none report = none
report_for (some time) report = if is_empty report then none else some report

module _ (lib : TextLib) (stats : PriceStats) (index : List (ℕ × ℕ)) (found : List (ℕ × Ad)) where
  duplicates_of : ℕ → ℕ
  duplicates_of id = elim (find ℕ_discrete id index) [ none ↦ 0 | some n ↦ n ]

  -- `_matches_tracker`, of the ad with an id
  unfoldable pub matches_tracker : Tracker → ℕ → Bool
  unfolding duplicates_of
  matches_tracker tracker ad_id = elim (find ℕ_discrete ad_id found) [
    | none ↦ false
    | some ad ↦
        matches_tracker_filters lib tracker.filters stats (duplicates_of (listing_ad_id ad)) ad
  ]

  -- `_filter_sync_result_for_tracker`
  unfoldable pub filter_sync_result_for_tracker : SyncResult → Tracker → SyncResult
  unfolding matches_tracker
  filter_sync_result_for_tracker result tracker = record {
    new_listings = keep (λ s. matches_tracker tracker s.ad_id) result.new_listings;
    price_drops = keep (λ d. matches_tracker tracker d.0.ad_id) result.price_drops;
  }

  -- The report of a tracker that is due an alert: not on its first check, nor on that of the key.
  unfoldable pub draft_of : Bool → SyncResult → Tracker → Option SyncResult
  unfolding filter_sync_result_for_tracker report_for
  draft_of baseline result tracker =
      if baseline
      then none
      else report_for tracker.last_checked_at (filter_sync_result_for_tracker result tracker)

  alert_of : Tracker → SyncResult → OutgoingAlert
  unfolding persist_tracker_events primary_event
  alert_of tracker report = record {
    tracker_id = tracker.id;
    user_id = tracker.user_id;
    report = report;
    primary_event = primary_event (persist_tracker_events tracker report);
  }

  -- `drafts.append`, and what becomes of the draft
  unfoldable pub add_draft :
      Tracker
      → Option SyncResult
      → List Event × List OutgoingAlert
      → List Event × List OutgoingAlert
  unfolding persist_tracker_events alert_of
  add_draft tracker none rest = rest
  add_draft tracker (some report) rest =
      (persist_tracker_events tracker report ++ rest.0, alert_of tracker report ∷ rest.1)

  -- The events of the trackers, and their alerts.
  unfoldable pub draft_all : Bool → SyncResult → List Tracker → List Event × List OutgoingAlert
  unfolding draft_of add_draft
  draft_all baseline result [] = ([], [])
  draft_all baseline result (tracker ∷ trackers) =
      let rest = draft_all baseline result trackers in
      add_draft tracker (draft_of baseline result tracker) rest

-- `if baseline and not sample.ads`
unfoldable pub marked_if : List Ad → Bool → Table → Table → Table
marked_if [] true marked t = marked
marked_if [] false marked t = t
marked_if (ad ∷ ads) baseline marked t = t

-- What the session that writes does first: `sync_query_listing_states`, `mark_query_baseline`.
unfoldable pub remember : String → Bool → FetchedSample → ℕ → Table → Table × SyncResult
unfolding marked_if
remember key baseline sample observed_at t =
    let synced = sync default_threshold key sample.ads observed_at t in
    let marked = mark_query_baseline key observed_at synced.0 in
    (marked_if sample.ads baseline marked synced.0, drop_silent sample.silent_ad_ids synced.1)

module _ (lib : TextLib) where
  -- The body of the session that writes, for the trackers of the group.
  unfoldable pub write_group :
      TrackerGroup → Bool → FetchedSample → ℕ → ℕ → PriceStats → Store → Store × List OutgoingAlert
  unfolding remember draft_all ads_by_id newest_of checked is_selected
  write_group group baseline sample checked_at observed_at stats db =
      let remembered = remember group.key baseline sample observed_at db.states in
      let index = duplicate_counts lib sample.ads in
      let found = ads_by_id sample.ads [] in
      let selected = keep (is_selected group) db.trackers in
      let drafts = draft_all lib stats index found baseline remembered.1 selected in
      (
        record {
          states = remembered.0;
          trackers =
              map
                (λ t.
                  if is_selected group t then checked (newest_of sample.ads) checked_at t else t)
                db.trackers;
          events = db.events ++ drafts.0;
        },
        drafts.1,
      )

  -- `if not trackers: return []`
  unfoldable pub unless_empty :
      List Tracker → Store → Store × List OutgoingAlert → Store × List OutgoingAlert
  unless_empty [] db written = (db, [])
  unless_empty (t ∷ trackers) db written = written

  -- What follows the statistics, which always exist.
  unfoldable pub write_stats :
      TrackerGroup
      → Bool
      → FetchedSample
      → ℕ
      → ℕ
      → Option PriceStats
      → Store
      → Store × List OutgoingAlert
  unfolding unless_empty write_group
  write_stats group baseline sample checked_at observed_at none db = (db, [])
  write_stats group baseline sample checked_at observed_at (some stats) db =
      unless_empty (keep (is_selected group) db.trackers) db
        (write_group group baseline sample checked_at observed_at stats db)

  -- An exception of the fetch leaves the function: nothing is written.
  unfoldable pub finish_group :
      TrackerGroup → Bool → Option FetchedSample → ℕ → ℕ → Store → Store × List OutgoingAlert
  unfolding write_stats
  finish_group group baseline none checked_at observed_at db = (db, [])
  finish_group group baseline (some sample) checked_at observed_at db =
      write_stats group baseline sample checked_at observed_at
        (compute_price_stats (extract_prices sample.ads)) db

  -- `_process_group`, with what the client answers, and the time of the answer
  unfoldable pub process_group :
      (String → ℕ)
      → TrackerGroup
      → (ℕ → Option String → Option Page)
      → ℕ
      → ℕ
      → Store
      → Store × List OutgoingAlert
  unfolding finish_group
  process_group crc32 group client checked_at observed_at db =
      let since = group_last_checked_at group in
      let baseline = not (has_listing_states db.states group.key) in
      let lookup_known = λ (ad_ids : List ℕ).
        if baseline then [] else load_known_ad_ids db.states group.key ad_ids in
      let deep = not baseline && deep_scan_is_due crc32 group.key since checked_at (6 * 3_600) in
      let sample = fetch_group_sample lib lookup_known since group deep client in
      finish_group group baseline sample checked_at observed_at db
