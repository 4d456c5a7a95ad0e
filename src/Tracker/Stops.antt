-- ===== src/Tracker/Stops.antt =====
-- Stopping and resuming trackers keep the invariant, and what a deletion is worth.
use rafuk.Base.{
  ℕ, ◌≤◌, ◌&&◌, Bool, false, ◌≡◌, refl, Option, none, some, List, [], ◌∷◌, arith, map, Bool-cases,
  inl, inr, leb,
}
use rafuk.Market.TextLib.{TextLib}
use rafuk.Tracker.{Tracker, Identity}
use rafuk.Tracker.Service.{Db, is_active_of, max_db_id}
use rafuk.Tracker.Activation.{
  tracker_row, save, deleted, deactivate_tracker, pause, deactivate_user_trackers, delete_found,
}
use rafuk.Tracker.Rows.{
  IsKeyed, how_many, save-IsKeyed, how_many-save, AreBelow, save-AreBelow, tracker_row-id,
}
use rafuk.Tracker.Resume.{is_same}
use rafuk.Tracker.Invariant.{IsValid}

fewer-deleted :
    (p : Tracker → Bool) (now : ℕ) (t : Tracker) (trackers : List Tracker)
    → p (deleted now t) ≡ false
    → IsKeyed trackers
    → tracker_row t.id trackers ≡ some t
    → how_many p (save (deleted now t) trackers) ≤ how_many p trackers
unfolding deleted
fewer-deleted p now t trackers n k f = ground (arith, how_many-save p (deleted now t) t trackers)

pub fewer-paused :
    (p : Tracker → Bool) (u : ℕ) (trackers : List Tracker)
    → ((t : Tracker) → t.active ≡ false → p t ≡ false)
    → how_many p (map (pause u) trackers) ≤ how_many p trackers
unfolding pause
fewer-paused p u [] n = omega arith
fewer-paused p u (t ∷ trackers) n =
    ground (arith, fewer-paused p u trackers n, n (record t { active = false }))

tracker_row-pause :
    (u id : ℕ) (trackers : List Tracker)
    → tracker_row id (map (pause u) trackers)
      ≡ elim (tracker_row id trackers) [ none ↦ none | some t ↦ some (pause u t) ]
unfolding tracker_row pause
tracker_row-pause u id [] = refl
tracker_row-pause u id (t ∷ trackers) = ground (arith, tracker_row-pause u id trackers)

paused-IsKeyed :
    (u : ℕ) (trackers : List Tracker) → IsKeyed trackers → IsKeyed (map (pause u) trackers)
unfolding pause
paused-IsKeyed u [] k = tt
paused-IsKeyed u (t ∷ trackers) k =
    ground (arith, paused-IsKeyed u trackers, tracker_row-pause u t.id trackers)

paused-AreBelow :
    (n u : ℕ) (trackers : List Tracker) → AreBelow n trackers → AreBelow n (map (pause u) trackers)
unfolding pause
paused-AreBelow n u [] b = tt
paused-AreBelow n u (t ∷ trackers) b = ground (arith, paused-AreBelow n u trackers)

module _ (lib : TextLib) where
  inactive-same :
      (v : ℕ) (i : Identity) (t : Tracker) → t.active ≡ false → is_same lib v i t ≡ false
  unfolding is_same is_active_of
  inactive-same v i t h = ground arith

  pub inactive-active : (v : ℕ) (t : Tracker) → t.active ≡ false → is_active_of v t ≡ false
  unfolding is_active_of
  inactive-active v t h = ground arith

  pub block-IsValid :
      (u : ℕ) (db : Db)
      → IsValid lib db
      → IsValid lib (record db { trackers = deactivate_user_trackers u db.trackers })
  unfolding deactivate_user_trackers
  block-IsValid u db h = record {
    keyed = paused-IsKeyed u db.trackers h.keyed;
    fresh = paused-AreBelow db.next_id u db.trackers h.fresh;
    distinct = λ v i.
        let fewer = fewer-paused (is_same lib v i) u db.trackers (inactive-same v i) in
        omega (arith, h.distinct v i, fewer);
    within_quota = λ v.
        let fewer = fewer-paused (is_active_of v) u db.trackers (inactive-active v) in
        omega (arith, h.within_quota v, fewer);
  }

  saved-IsValid :
      (now : ℕ) (t : Tracker) (db : Db)
      → tracker_row t.id db.trackers ≡ some t
      → IsValid lib db
      → IsValid lib (record db { trackers = save (deleted now t) db.trackers })
  unfolding deleted
  saved-IsValid now t db f h = record {
    keyed = save-IsKeyed (deleted now t) db.trackers h.keyed;
    fresh = save-AreBelow db.next_id (deleted now t) db.trackers h.fresh;
    distinct = λ v i.
        let fewer =
          fewer-deleted (is_same lib v i) now t db.trackers (inactive-same v i (deleted now t) refl)
            h.keyed f in
        omega (arith, h.distinct v i, fewer);
    within_quota = λ v.
        let fewer =
          fewer-deleted (is_active_of v) now t db.trackers (inactive-active v (deleted now t) refl)
            h.keyed f in
        omega (arith, h.within_quota v, fewer);
  }

  found-IsValid :
      (u now : ℕ) (found : Option Tracker) (id : ℕ) (db : Db)
      → tracker_row id db.trackers ≡ found
      → IsValid lib db
      → IsValid lib (record db { trackers = (delete_found u now found db.trackers).0 })
  unfolding delete_found
  found-IsValid u now none id db f h = record {
    keyed = h.keyed;
    fresh = h.fresh;
    distinct = h.distinct;
    within_quota = h.within_quota;
  }
  found-IsValid u now (some t) id db f h =
      let same = tracker_row-id id t db.trackers f in
      let row : tracker_row t.id db.trackers ≡ some t = cc in
      let saved = saved-IsValid now t db row h in
      elim (Bool-cases (is_active_of u t)) [
        | inl mine ↦ rw mine saved
        | inr other ↦ rw other (record {
          keyed = h.keyed;
          fresh = h.fresh;
          distinct = h.distinct;
          within_quota = h.within_quota;
        })
      ]

  pub deactivate_tracker-IsValid :
      (u id now : ℕ) (db : Db)
      → IsValid lib db
      → IsValid lib (record db { trackers = (deactivate_tracker u id now db.trackers).0 })
  unfolding deactivate_tracker
  deactivate_tracker-IsValid u id now db h = elim (Bool-cases (leb 1 id && leb id max_db_id)) [
    | inl inside ↦
        rw (inside, deactivate_tracker)
          (found-IsValid u now (tracker_row id db.trackers) id db refl h)
    | inr outside ↦
        rw (outside, deactivate_tracker)
          (record {
            keyed = h.keyed;
            fresh = h.fresh;
            distinct = h.distinct;
            within_quota = h.within_quota;
          })
  ]
