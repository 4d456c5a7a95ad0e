-- ===== src/Scheduler/Process/Reports.antt =====
-- What the alerts of a group report, of scheduler/collector.py.
use rafuk.Base.{
  ℕ, String, Bool, true, false, not, ◌≡◌, refl, Option, none, some, List, [], ◌∷◌, keep, has, All,
  if◌then◌else◌, arith,
}
use rafuk.Market.TextLib.{TextLib}
use rafuk.Market.Ad.{Ad}
use rafuk.Market.Prices.{PriceStats, extract_prices, compute_price_stats}
use rafuk.History.Table.{State, Table, has_listing_states}
use rafuk.History.Lookup.{IsUnique}
use rafuk.History.Known.{is_known, mark_query_baseline, mark-known, mark-IsUnique}
use rafuk.History.Sync.{SyncResult, default_threshold, sync}
use rafuk.History.Sync.Rows.{row-sync}
use rafuk.History.Sync.Stability.{sync-IsUnique}
use rafuk.History.Sync.Report.{ids, new-sync}
use rafuk.Scheduler.Groups.{TrackerGroup}
use rafuk.Scheduler.Fetch.{Page, FetchedSample}
use rafuk.Scheduler.Process.{
  is_selected, Event, Store, OutgoingAlert, is_empty, report_for, add_draft, draft_of, draft_all,
  drop_silent, filter_sync_result_for_tracker, marked_if, remember, write_group, unless_empty,
  write_stats, finish_group, process_group,
}
use rafuk.Tracker.{Tracker}

-- The listings that an alert calls new.
abbrev pub news : OutgoingAlert → List ℕ
news alert = ids alert.report.new_listings

has-ids-keep :
    (p : State → Bool) (j : ℕ) (xs : List State)
    → has j (ids (keep p xs)) ≡ true
    → has j (ids xs) ≡ true
unfolding keep
has-ids-keep p j [] h = h
has-ids-keep p j (s ∷ xs) h = ground (arith, has-ids-keep p j xs)

-- A report with only listings that another one calls new.
abbrev IsPart : SyncResult → Option SyncResult → Type 0
IsPart result none = Unit
IsPart result (some report) =
    (j : ℕ) → has j (ids report.new_listings) ≡ true → has j (ids result.new_listings) ≡ true

unless-IsPart :
    (result : SyncResult) (b : Bool) (o : Option SyncResult)
    → IsPart result o
    → IsPart result (if b then none else o)
unless-IsPart result true o h = tt
unless-IsPart result false o h = h

report_for-IsPart :
    (result report : SyncResult) (last : Option ℕ)
    → IsPart result (some report)
    → IsPart result (report_for last report)
unfolding report_for
report_for-IsPart result report none h = tt
report_for-IsPart result report (some time) h =
    unless-IsPart result (is_empty report) (some report) h

abbrev HasPart : SyncResult → List OutgoingAlert → Type 0
HasPart result alerts =
    All (λ a. (j : ℕ) → has j (news a) ≡ true → has j (ids result.new_listings) ≡ true) alerts

module _ (lib : TextLib) (stats : PriceStats) (index : List (ℕ × ℕ)) (found : List (ℕ × Ad)) where
  draft_of-IsPart :
      (baseline : Bool) (result : SyncResult) (t : Tracker)
      → IsPart result (draft_of lib stats index found baseline result t)
  unfolding draft_of filter_sync_result_for_tracker
  draft_of-IsPart baseline result t = unless-IsPart result baseline _ (
      report_for-IsPart result (filter_sync_result_for_tracker lib stats index found result t)
        t.last_checked_at (λ j. has-ids-keep _ j result.new_listings))

  add_draft-HasPart :
      (result : SyncResult) (t : Tracker) (o : Option SyncResult)
      (rest : List Event × List OutgoingAlert)
      → IsPart result o
      → HasPart result rest.1
      → HasPart result (add_draft lib stats index found t o rest).1
  unfolding add_draft
  add_draft-HasPart result t none rest h k = k
  add_draft-HasPart result t (some report) rest h k = (h, k)

  draft_all-HasPart :
      (baseline : Bool) (result : SyncResult) (trackers : List Tracker)
      → HasPart result (draft_all lib stats index found baseline result trackers).1
  unfolding draft_all
  draft_all-HasPart baseline result [] = tt
  draft_all-HasPart baseline result (t ∷ trackers) =
      add_draft-HasPart result t _ _ (draft_of-IsPart baseline result t)
        (draft_all-HasPart baseline result trackers)

  pub draft_all-baseline :
      (result : SyncResult) (trackers : List Tracker)
      → (draft_all lib stats index found true result trackers).1 ≡ []
  unfolding draft_all draft_of add_draft
  draft_all-baseline result [] = refl
  draft_all-baseline result (t ∷ trackers) = draft_all-baseline result trackers

-- What a sync calls new was unknown, and is known from then on.
sync-news :
    (key : String) (now : ℕ) (ads : List Ad) (t : Table) (j : ℕ)
    → IsUnique t
    → has j (ids (sync default_threshold key ads now t).1.new_listings) ≡ true
    → (is_known t key j ≡ false) × (is_known (sync default_threshold key ads now t).0 key j ≡ true)
sync-news key now ads t j u h =
    let new = new-sync default_threshold key now ads t j u in
    let after = row-sync default_threshold key now ads t j u in ground (arith, new, after)

module _ (lib : TextLib) (group : TrackerGroup) where
  -- Every listing that an alert calls new was unknown before, and is known after.
  abbrev pub AreNew : Store → Store × List OutgoingAlert → Type 0
  AreNew db done =
      All
        (λ a.
          (j : ℕ)
          → has j (news a) ≡ true
          → (is_known db.states group.key j ≡ false) × (is_known done.0.states group.key j ≡ true))
        done.1

  -- The property of the loops over the alerts, for more that one knows of each listing.
  All-news :
      {P Q : ℕ → Type 0} (alerts : List OutgoingAlert)
      → ((j : ℕ) → P j → Q j)
      → All (λ a. (j : ℕ) → has j (news a) ≡ true → P j) alerts
      → All (λ a. (j : ℕ) → has j (news a) ≡ true → Q j) alerts
  All-news [] f h = tt
  All-news (a ∷ alerts) f h = (λ j e. f j (h.0 j e), All-news alerts f h.1)

  marked_if-known :
      (ads : List Ad) (baseline : Bool) (now : ℕ) (t : Table) (j : ℕ)
      → is_known t group.key j ≡ true
      → is_known (marked_if ads baseline (mark_query_baseline group.key now t) t) group.key j ≡ true
  unfolding marked_if
  marked_if-known [] true now t j h = mark-known group.key now t group.key j h
  marked_if-known [] false now t j h = h
  marked_if-known (ad ∷ ads) baseline now t j h = h

  marked_if-IsUnique :
      (ads : List Ad) (baseline : Bool) (now : ℕ) (t : Table)
      → IsUnique t
      → IsUnique (marked_if ads baseline (mark_query_baseline group.key now t) t)
  unfolding marked_if
  marked_if-IsUnique [] true now t u = mark-IsUnique group.key now t u
  marked_if-IsUnique [] false now t u = u
  marked_if-IsUnique (ad ∷ ads) baseline now t u = u

  write_group-AreNew :
      (baseline : Bool) (sample : FetchedSample) (checked_at observed_at : ℕ) (stats : PriceStats)
      (db : Store)
      → IsUnique db.states
      → AreNew db (write_group lib group baseline sample checked_at observed_at stats db)
  unfolding write_group remember drop_silent
  write_group-AreNew baseline sample checked_at observed_at stats db u =
      let synced = sync default_threshold group.key sample.ads observed_at db.states in
      All-news _
        (λ j e.
          let (before, after) =
            sync-news group.key observed_at sample.ads db.states j u
              (has-ids-keep _ j synced.1.new_listings e) in
          (before, marked_if-known sample.ads baseline observed_at synced.0 j after))
        (draft_all-HasPart lib stats _ _ baseline _ _)

  -- Either nothing is written, or the group is.
  pub finish_group-cases :
      (Q : Store × List OutgoingAlert → Type 0) (baseline : Bool) (sample : Option FetchedSample)
      (checked_at observed_at : ℕ) (db : Store)
      → Q (db, [])
      → ((fetched : FetchedSample) (stats : PriceStats)
          → Q (write_group lib group baseline fetched checked_at observed_at stats db))
      → Q (finish_group lib group baseline sample checked_at observed_at db)
  unfolding finish_group write_stats unless_empty
  finish_group-cases Q baseline none checked_at observed_at db q w = q
  finish_group-cases Q baseline (some sample) checked_at observed_at db q w =
      counted (compute_price_stats (extract_prices sample.ads))
    where
      skipped :
          (stats : PriceStats) (trackers : List Tracker)
          → Q (
              unless_empty lib trackers db
                (write_group lib group baseline sample checked_at observed_at stats db))
      skipped stats [] = q
      skipped stats (t ∷ trackers) = w sample stats

      counted :
          (stats : Option PriceStats)
          → Q (write_stats lib group baseline sample checked_at observed_at stats db)
      counted none = q
      counted (some stats) = skipped stats (keep (is_selected group) db.trackers)

  pub process_group-AreNew :
      (crc32 : String → ℕ) (client : ℕ → Option String → Option Page) (checked_at observed_at : ℕ)
      (db : Store)
      → IsUnique db.states
      → AreNew db (process_group lib crc32 group client checked_at observed_at db)
  unfolding process_group
  process_group-AreNew crc32 client checked_at observed_at db u =
      finish_group-cases (AreNew db) (not (has_listing_states db.states group.key)) _ checked_at
        observed_at db tt
        (λ sample stats. write_group-AreNew _ sample checked_at observed_at stats db u)

  write_group-IsUnique :
      (baseline : Bool) (sample : FetchedSample) (checked_at observed_at : ℕ) (stats : PriceStats)
      (db : Store)
      → IsUnique db.states
      → IsUnique (write_group lib group baseline sample checked_at observed_at stats db).0.states
  unfolding write_group remember
  write_group-IsUnique baseline sample checked_at observed_at stats db u =
      let t = (sync default_threshold group.key sample.ads observed_at db.states).0 in
      let unique = sync-IsUnique default_threshold group.key observed_at sample.ads db.states u in
      marked_if-IsUnique sample.ads baseline observed_at t unique

  pub process_group-IsUnique :
      (crc32 : String → ℕ) (client : ℕ → Option String → Option Page) (checked_at observed_at : ℕ)
      (db : Store)
      → IsUnique db.states
      → IsUnique (process_group lib crc32 group client checked_at observed_at db).0.states
  unfolding process_group
  process_group-IsUnique crc32 client checked_at observed_at db u =
      finish_group-cases (λ done. IsUnique done.0.states)
        (not (has_listing_states db.states group.key)) _ checked_at observed_at db u
        (λ sample stats. write_group-IsUnique _ sample checked_at observed_at stats db u)
