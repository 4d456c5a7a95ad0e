-- ===== src/Scheduler/Cleanup.antt =====
-- The daily cleanup of remembered listings: `cleanup_stale_listing_states` of scheduler/collector.py.
use rafuk.Base.{
  ℕ, ◌+◌, ◌≡◌, refl, ap, String, Bool, true, not, none, some, List, [], ◌∷◌, ltb, keep, map,
  if◌then◌else◌, arith, Option-cases, inl, inr,
}
use rafuk.Base.Time.{days}
use rafuk.Market.TextLib.{TextLib}
use rafuk.Market.Query.{build_query_key, contains}
use rafuk.Tracker.{Tracker}
use rafuk.History.Table.{State, Table, row, is_state, row-is_state}
use rafuk.History.Lookup.{IsUnique}

-- `UNTRACKED_LISTING_STATE_RETENTION_DAYS`, `TRACKED_LISTING_STATE_RETENTION_DAYS`
abbrev pub untracked_retention : ℕ
untracked_retention = 90

abbrev pub tracked_retention : ℕ
tracked_retention = 365

-- The query keys of the active trackers.
unfoldable pub tracked_keys : TextLib → List Tracker → List String
tracked_keys lib trackers =
    map (λ t. build_query_key lib t.query t.strict_mode) (keep (λ t. t.active) trackers)

-- `last_seen_at < now - timedelta(days=limit)`
unfoldable pub is_older : ℕ → ℕ → State → Bool
is_older limit now s = ltb (s.last_seen_at + days limit) now

-- The two deletions: of the keys that are not tracked, and of those that are.
unfoldable pub cleanup_stale_listing_states : TextLib → List Tracker → ℕ → Table → Table
unfolding tracked_keys is_older
cleanup_stale_listing_states lib trackers now t =
    let keys = tracked_keys lib trackers in
    let kept =
      keep (λ s. if contains keys s.query then true else not (is_older untracked_retention now s))
        t in
    keep (λ s. if contains keys s.query then not (is_older tracked_retention now s) else true) kept

module _ (q : String) (a : ℕ) (p : State → Bool) where
  row-keep_absent : (t : Table) → row q a t ≡ none → row q a (keep p t) ≡ none
  unfolding row keep
  row-keep_absent [] h = refl
  row-keep_absent (s ∷ t) h = ground (arith, row-keep_absent t)

  unique-none :
      (s : State) (t : Table)
      → is_state q a s ≡ true
      → row s.query s.ad_id t ≡ none
      → row q a t ≡ none
  unfolding row is_state
  unique-none s [] i h = refl
  unique-none s (r ∷ t) i h = ground (arith, unique-none s t)

  row-keep :
      (t : Table)
      → IsUnique t
      → row q a (keep p t)
        ≡ elim (row q a t) [ none ↦ none | some s ↦ if p s then some s else none ]
  unfolding row keep
  row-keep [] h = refl
  row-keep (s ∷ t) h = ground (arith, row-keep t, row-keep_absent t, unique-none s t)

keep-IsUnique : (p : State → Bool) (t : Table) → IsUnique t → IsUnique (keep p t)
unfolding keep
keep-IsUnique p [] h = tt
keep-IsUnique p (s ∷ t) h = ground (arith, keep-IsUnique p t, row-keep_absent s.query s.ad_id p t)

-- In a table without two rows of a query and an ad, the cleanup forgets a listing exactly if it was not
-- seen for a year, or for 90 days when no active tracker has its query key, and keeps the rest as is.
pub row-cleanup :
    (lib : TextLib) (trackers : List Tracker) (now : ℕ) (q : String) (a : ℕ) (t : Table)
    → IsUnique t
    → row q a (cleanup_stale_listing_states lib trackers now t) ≡ elim (row q a t) [
      | none ↦ none
      | some s ↦
          let limit =
            if contains (tracked_keys lib trackers) q
            then tracked_retention
            else untracked_retention in
          if is_older limit now s then none else some s
    ]
unfolding cleanup_stale_listing_states
row-cleanup lib trackers now q a t h =
    let keys = tracked_keys lib trackers in
    let first = λ (s : State).
      if contains keys s.query then true else not (is_older untracked_retention now s) in
    let second = λ (s : State).
      if contains keys s.query then not (is_older tracked_retention now s) else true in
    let one = row-keep q a first t h in
    let two = row-keep q a second (keep first t) (keep-IsUnique first t h) in
    elim (Option-cases (row q a t)) [
      | inl n ↦ ground (arith, one, two, n)
      | inr (s, e) ↦
          let same : contains keys s.query ≡ contains keys q =
            ap (contains keys) (row-is_state q a s t e).0 in
          ground (arith, one, two, e, same)
    ]
