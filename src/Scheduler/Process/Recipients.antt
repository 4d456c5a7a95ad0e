-- ===== src/Scheduler/Process/Recipients.antt =====
-- Who gets the alerts of a group, of scheduler/collector.py.
use rafuk.Base.{
  ℕ, ◌==◌, String, Bool, true, false, not, ◌&&◌, ◌≡◌, refl, ap, false≢true, Option, none, some,
  List, [], ◌∷◌, keep, any, All, has, if◌then◌else◌, arith,
}
use rafuk.Market.TextLib.{TextLib}
use rafuk.Market.Ad.{Ad}
use rafuk.Market.Prices.{PriceStats}
use rafuk.Market.Duplicates.{duplicate_counts}
use rafuk.History.Table.{has_listing_states}
use rafuk.History.Known.{is_some}
use rafuk.History.Sync.{SyncResult}
use rafuk.Tracker.{Tracker}
use rafuk.Scheduler.Groups.{TrackerGroup}
use rafuk.Scheduler.Fetch.{Page, FetchedSample}
use rafuk.Scheduler.Process.{
  Event, Store, OutgoingAlert, is_empty, is_selected, report_for, draft_of, add_draft, draft_all,
  filter_sync_result_for_tracker, ads_by_id, remember, write_group, process_group,
}
use rafuk.Scheduler.Process.Reports.{finish_group-cases, draft_all-baseline}

-- The tracker of an alert, of the user that the alert goes to, and checked before.
abbrev is_recipient : OutgoingAlert → Tracker → Bool
is_recipient a t = t.id == a.tracker_id && (t.user_id == a.user_id && is_some t.last_checked_at)

-- And it is one that the group checks: active, and among its trackers.
abbrev pub is_recipient_of : TrackerGroup → OutgoingAlert → Tracker → Bool
is_recipient_of group a t = (t.active && has t.id group.tracker_ids) && is_recipient a t

any-keep :
    (p q : Tracker → Bool) (ts : List Tracker)
    → any q (keep p ts) ≡ true
    → any (λ t. p t && q t) ts ≡ true
unfolding any keep
any-keep p q [] h = h
any-keep p q (t ∷ ts) h = ground (arith, any-keep p q ts)

All-later :
    (t : Tracker) (ts : List Tracker) (alerts : List OutgoingAlert)
    → All (λ a. any (is_recipient a) ts ≡ true) alerts
    → All (λ a. any (is_recipient a) (t ∷ ts) ≡ true) alerts
unfolding any
All-later t ts [] h = tt
All-later t ts (a ∷ alerts) h = (ground (arith, h.0), All-later t ts alerts h.1)

All-keep :
    (group : TrackerGroup) (ts : List Tracker) (alerts : List OutgoingAlert)
    → All (λ a. any (is_recipient a) (keep (is_selected group) ts) ≡ true) alerts
    → All (λ a. any (is_recipient_of group a) ts ≡ true) alerts
unfolding is_selected
All-keep group ts [] h = tt
All-keep group ts (a ∷ alerts) h =
    (any-keep (is_selected group) (is_recipient a) ts h.0, All-keep group ts alerts h.1)

same_id : (n : ℕ) → n == n ≡ true
same_id n = ground arith

module _ (lib : TextLib) (stats : PriceStats) (index : List (ℕ × ℕ)) (found : List (ℕ × Ad)) where
  -- Only a tracker that was checked before has a draft.
  add_draft-recipient :
      (t : Tracker) (ts : List Tracker) (last : Option ℕ) (b : Bool) (report : SyncResult)
      (rest : List Event × List OutgoingAlert)
      → t.last_checked_at ≡ last
      → All (λ a. any (is_recipient a) (t ∷ ts) ≡ true) rest.1
      → All
          (λ a. any (is_recipient a) (t ∷ ts) ≡ true)
          (add_draft lib stats index found t (if b then none else report_for last report) rest).1
  unfolding add_draft report_for any
  add_draft-recipient t ts last true report rest e h = h
  add_draft-recipient t ts none false report rest e h = h
  add_draft-recipient t ts (some time) false report rest e h = drafted (is_empty report)
    where
      drafted :
          (empty : Bool)
          → All
              (λ a. any (is_recipient a) (t ∷ ts) ≡ true)
              (add_draft lib stats index found t (if empty then none else some report) rest).1
      drafted true = h
      drafted false = (rw (same_id t.id, same_id t.user_id, e) refl, h)

  draft_all-recipient :
      (baseline : Bool) (result : SyncResult) (ts : List Tracker)
      → All
          (λ a. any (is_recipient a) ts ≡ true)
          (draft_all lib stats index found baseline result ts).1
  unfolding draft_all draft_of
  draft_all-recipient baseline result [] = tt
  draft_all-recipient baseline result (t ∷ ts) =
      add_draft-recipient t ts t.last_checked_at baseline
        (filter_sync_result_for_tracker lib stats index found result t) _ refl
        (All-later t ts _ (draft_all-recipient baseline result ts))

module _ (lib : TextLib) (group : TrackerGroup) where
  write_group-recipient :
      (baseline : Bool) (sample : FetchedSample) (checked_at observed_at : ℕ) (stats : PriceStats)
      (db : Store)
      → All
          (λ a. any (is_recipient_of group a) db.trackers ≡ true)
          (write_group lib group baseline sample checked_at observed_at stats db).1
  unfolding write_group
  write_group-recipient baseline sample checked_at observed_at stats db =
      All-keep group db.trackers _
        (draft_all-recipient lib stats _ _ baseline _ (keep (is_selected group) db.trackers))

  write_group-baseline :
      (baseline : Bool) (sample : FetchedSample) (checked_at observed_at : ℕ) (stats : PriceStats)
      (db : Store)
      → baseline ≡ true
      → (write_group lib group baseline sample checked_at observed_at stats db).1 ≡ []
  unfolding write_group
  write_group-baseline false sample checked_at observed_at stats db e = absurd (false≢true e)
  write_group-baseline true sample checked_at observed_at stats db e =
      draft_all-baseline lib stats (duplicate_counts lib sample.ads) (ads_by_id sample.ads [])
        (remember group.key true sample observed_at db.states).1
        (keep (is_selected group) db.trackers)

  -- Every alert of a group names a tracker that is active, among the group's, and checked before, and
  -- goes to the user of this tracker; the first check of a query key, of which no listing is remembered, sends
  -- none.
  pub process_group-recipients :
      (crc32 : String → ℕ) (client : ℕ → Option String → Option Page) (checked_at observed_at : ℕ)
      (db : Store)
      → All
          (λ a. any (is_recipient_of group a) db.trackers ≡ true)
          (process_group lib crc32 group client checked_at observed_at db).1
        × (has_listing_states db.states group.key ≡ false
            → (process_group lib crc32 group client checked_at observed_at db).1 ≡ [])
  unfolding process_group
  process_group-recipients crc32 client checked_at observed_at db = (
    finish_group-cases lib group
        (λ done. All (λ a. any (is_recipient_of group a) db.trackers ≡ true) done.1) _ _ checked_at
        observed_at db tt
        (λ sample stats. write_group-recipient _ sample checked_at observed_at stats db),
    λ unknown.
        finish_group-cases lib group (λ done. done.1 ≡ []) _ _ checked_at observed_at db refl
          (λ sample stats.
            write_group-baseline _ sample checked_at observed_at stats db (ap not unknown)),
  )
