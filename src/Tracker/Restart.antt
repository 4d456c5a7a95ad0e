-- ===== src/Tracker/Restart.antt =====
-- What resuming does: the invariant, the quota, and the trackers that stay as they are.
use rafuk.Base.{
  ℕ, ◌+◌, ◌-◌, ◌==◌, ◌≤◌, Bool, true, false, ◌≡◌, ◌≢◌, ◌⊎◌, inl, inr, refl, sym, ◌∙◌, Option, none,
  some, List, [], ◌∷◌, arith, length, keep, map, if◌then◌else◌, max,
}
use rafuk.Market.TextLib.{TextLib}
use rafuk.User.{max_active_trackers}
use rafuk.Tracker.{Tracker, tracker_identity}
use rafuk.Tracker.Service.{Db, is_active_of, list_active_trackers, limit_of}
use rafuk.Tracker.Activation.{tracker_row, is_paused_of, resume_loop, resume_paused_trackers}
use rafuk.Tracker.Rows.{IsKeyed, how_many, keep-IsKeyed, tracker_row-keep_absent}
use rafuk.Tracker.Resume.{
  AreCovered, keep-ArePaused, resume_loop-active, resume_loop-AreDistinct, resume_loop-IsKeyed,
  tracker_row-resume_loop,
}
use rafuk.Tracker.Invariant.{IsValid, length-list_active, listed_same, has_identity_absent}

keep-absent :
    (p : Tracker → Bool) (id : ℕ) (t : Tracker) (trackers : List Tracker)
    → IsKeyed trackers
    → tracker_row id trackers ≡ some t
    → p t ≡ false
    → tracker_row id (keep p trackers) ≡ none
unfolding tracker_row keep
keep-absent p id t [] k f n = refl
keep-absent p id t (r ∷ trackers) k f n =
    ground (arith, keep-absent p id t trackers, tracker_row-keep_absent p id trackers)

-- A tracker of another user, an active one or a deleted one is not paused.
other-paused :
    (u : ℕ) (t : Tracker)
    → (t.user_id ≢ u) ⊎ ((t.active ≡ true) ⊎ (t.deleted_at ≢ none))
    → is_paused_of u t ≡ false
unfolding is_paused_of
other-paused u t (inl other) = ground arith
other-paused u t (inr (inl running)) = ground arith
other-paused u t (inr (inr gone)) = ground arith

-- With distinct primary keys, resuming leaves every tracker of another user, every active one and every
-- deleted one as it is: what a user deleted does not come back.
pub resume-keeps :
    (lib : TextLib) (check u : ℕ) (max_active : Option ℕ) (id : ℕ) (t : Tracker)
    (trackers : List Tracker)
    → IsKeyed trackers
    → tracker_row id trackers ≡ some t
    → (t.user_id ≢ u) ⊎ ((t.active ≡ true) ⊎ (t.deleted_at ≢ none))
    → tracker_row id (resume_paused_trackers lib check u max_active trackers).0 ≡ some t
unfolding resume_paused_trackers
resume-keeps lib check u max_active id t trackers k f n =
    tracker_row-resume_loop lib check u id
      (limit_of max_active - length (list_active_trackers u trackers))
      (map (tracker_identity lib) (list_active_trackers u trackers))
      (keep (is_paused_of u) trackers) trackers
      (keep-absent (is_paused_of u) id t trackers k f (other-paused u t n))
    ∙ f

-- With distinct primary keys, the user has as many active trackers more as were resumed, and never
-- more than the limit, unless there were more already; other users have as many as before.
pub resume-quota :
    (lib : TextLib) (check u v : ℕ) (max_active : Option ℕ) (trackers : List Tracker)
    → IsKeyed trackers
    → (length (list_active_trackers v (resume_paused_trackers lib check u max_active trackers).0)
        ≡ length (list_active_trackers v trackers)
          + (if v == u
              then length (resume_paused_trackers lib check u max_active trackers).1
              else 0))
      × (length (list_active_trackers u trackers)
            + length (resume_paused_trackers lib check u max_active trackers).1
          ≤ max (limit_of max_active) (length (list_active_trackers u trackers)))
unfolding resume_paused_trackers
resume-quota lib check u v max_active trackers k =
    let active = list_active_trackers u trackers in
    let (count, bound) =
      resume_loop-active lib check u v (limit_of max_active - length active)
        (map (tracker_identity lib) active) (keep (is_paused_of u) trackers) trackers k
        (keep-IsKeyed (is_paused_of u) trackers k) (keep-ArePaused u trackers k) in
    let after =
      length-list_active v
        (resume_loop lib check (limit_of max_active - length active)
          (map (tracker_identity lib) active) (keep (is_paused_of u) trackers) trackers).0 in
    (ground (arith, count, after, length-list_active v trackers), omega (arith, bound))

module _ (lib : TextLib) (check u : ℕ) where
  covered :
      (trackers : List Tracker)
      → AreCovered lib check u
          (map (tracker_identity lib) (list_active_trackers u trackers))
          trackers
  covered trackers i n =
      sym (listed_same lib i u trackers)
      ∙ has_identity_absent lib i (list_active_trackers u trackers) n

  resumed-quota :
      (v : ℕ) (trackers : List Tracker)
      → IsKeyed trackers
      → ((w : ℕ) → how_many (is_active_of w) trackers ≤ max_active_trackers)
      → how_many (is_active_of v) (resume_paused_trackers lib check u none trackers).0
        ≤ max_active_trackers
  unfolding limit_of
  resumed-quota v trackers k q =
      let (count, bound) = resume-quota lib check u v none trackers k in
      let after = length-list_active v (resume_paused_trackers lib check u none trackers).0 in
      ground (
        arith,
        count,
        bound,
        after,
        q u,
        q v,
        length-list_active v trackers,
        length-list_active u trackers,
      )

  pub resume-IsValid :
      (db : Db)
      → IsValid lib db
      → IsValid lib
          (record db { trackers = (resume_paused_trackers lib check u none db.trackers).0 })
  unfolding resume_paused_trackers
  resume-IsValid db h =
      let available = limit_of none - length (list_active_trackers u db.trackers) in
      let ids = map (tracker_identity lib) (list_active_trackers u db.trackers) in
      let paused = keep (is_paused_of u) db.trackers in
      let (k, b) =
        resume_loop-IsKeyed lib check u db.next_id available ids paused db.trackers h.keyed
          h.fresh in
      record {
        keyed = k;
        fresh = b;
        distinct =
            resume_loop-AreDistinct lib check u available ids paused db.trackers h.keyed
              (keep-IsKeyed (is_paused_of u) db.trackers h.keyed)
              (keep-ArePaused u db.trackers h.keyed) (covered db.trackers) h.distinct;
        within_quota = λ v. resumed-quota v db.trackers h.keyed h.within_quota;
      }
