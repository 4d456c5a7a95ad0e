-- ===== src/Tracker/Operations.antt =====
-- Each operation on the trackers keeps the invariant.
use rafuk.Base.{
  ℕ, ◌≤◌, ◌<◌, ◌≡◌, refl, none, some, List, [], ◌∷◌, ◌++◌, arith, length, Option-cases, Bool-cases,
  inl, inr, leb,
}
use rafuk.Market.TextLib.{TextLib}
use rafuk.User.{max_active_trackers, ensure_user}
use rafuk.Tracker.Interval.{effective_interval_min}
use rafuk.Tracker.{Filters, Tracker, tracker_identity, identity_of}
use rafuk.Tracker.Service.{
  Db, Request, is_active_of, list_active_trackers, find_same, limit_of, insert_tracker,
  insert_checked, create_tracker, normalize_tracker_query, cleaned, new_tracker,
}
use rafuk.Tracker.Rows.{how_many, how_many-append, append-IsKeyed, row-fresh, append-AreBelow}
use rafuk.Tracker.Resume.{is_same, AreDistinct}
use rafuk.Tracker.Invariant.{IsValid, length-list_active, listed_same, find_same_absent}

module _ (lib : TextLib) (check : ℕ) where
  appended_distinct :
      (t : Tracker) (trackers : List Tracker)
      → find_same lib (tracker_identity lib t) (list_active_trackers t.user_id trackers) ≡ none
      → AreDistinct lib trackers
      → AreDistinct lib (trackers ++ t ∷ [])
  unfolding is_same is_active_of
  appended_distinct t trackers n d v i = ground (
    arith,
    d v i,
    how_many-append (is_same lib v i) t trackers,
    find_same_absent lib (tracker_identity lib t) (list_active_trackers t.user_id trackers),
    listed_same lib (tracker_identity lib t) t.user_id trackers,
  )

  appended_quota :
      (t : Tracker) (trackers : List Tracker)
      → length (list_active_trackers t.user_id trackers) < max_active_trackers
      → ((u : ℕ) → how_many (is_active_of u) trackers ≤ max_active_trackers)
      → (u : ℕ) → how_many (is_active_of u) (trackers ++ t ∷ []) ≤ max_active_trackers
  unfolding is_active_of
  appended_quota t trackers l q u = ground (
    arith,
    q u,
    how_many-append (is_active_of u) t trackers,
    length-list_active t.user_id trackers,
  )

  inserted-IsValid :
      (db : Db) (r : Request) (values : Filters)
      → find_same lib (identity_of lib values) (list_active_trackers r.user_id db.trackers) ≡ none
      → length (list_active_trackers r.user_id db.trackers) < max_active_trackers
      → IsValid lib db
      → IsValid lib (insert_tracker lib db r values check).0
  unfolding insert_tracker new_tracker
  inserted-IsValid db r values n l h =
      let t =
        new_tracker lib db.next_id r.user_id values (effective_interval_min r.interval_min check) in
      record {
        keyed = append-IsKeyed t db.trackers (row-fresh db.next_id db.trackers h.fresh) h.keyed;
        fresh = append-AreBelow db.next_id t db.trackers refl h.fresh;
        distinct = appended_distinct t db.trackers n h.distinct;
        within_quota = appended_quota t db.trackers l h.within_quota;
      }

  insert_checked-IsValid :
      (db : Db) (r : Request) (values : Filters)
      → r.max_active ≡ none
      → IsValid lib db
      → IsValid lib (insert_checked lib db r values check).0
  unfolding insert_checked limit_of
  insert_checked-IsValid db r values m h =
      elim (Option-cases
        (find_same lib (identity_of lib values) (list_active_trackers r.user_id db.trackers))) [
          | inr (t, e) ↦ rw (e, insert_checked) h
          | inl n ↦
              elim (Bool-cases
                (leb max_active_trackers (length (list_active_trackers r.user_id db.trackers)))) [
                  | inl full ↦ rw (n, insert_checked, m, full) h
                  | inr free ↦
                      rw (n, insert_checked, m, free)
                        (inserted-IsValid db r values n (ground arith) h)
                ]
        ]

  pub create_tracker-IsValid :
      (db : Db) (r : Request) (now : ℕ)
      → r.max_active ≡ none
      → IsValid lib db
      → IsValid lib (create_tracker lib db r check now).0
  unfolding create_tracker
  create_tracker-IsValid db r now m h =
      elim (Option-cases (normalize_tracker_query lib (some r.query))) [
        | inl e ↦ rw (e, create_tracker) h
        | inr (query, e) ↦
            rw (e, create_tracker)
              (insert_checked-IsValid
                (record db {
                  users = ensure_user lib r.user_id r.first_name r.username now db.users;
                })
                r (cleaned lib query r.filters) m
                (record {
                  keyed = h.keyed;
                  fresh = h.fresh;
                  distinct = h.distinct;
                  within_quota = h.within_quota;
                }))
      ]
