-- ===== src/Tracker/Resume.antt =====
-- Resuming the paused trackers of a user.
use rafuk.Base.{
  ℕ, zero, suc, ◌+◌, ◌==◌, ◌≤◌, ◌&&◌, Bool, true, false, ◌≡◌, refl, ite, none, some, List, [], ◌∷◌,
  arith, length, keep, if◌then◌else◌, Bool-cases, inl, inr,
}
use rafuk.Market.TextLib.{TextLib}
use rafuk.Tracker.{Tracker, Identity, Identity-discrete, tracker_identity}
use rafuk.Tracker.Service.{is_active_of}
use rafuk.Tracker.Activation.{tracker_row, save, is_paused_of, has_identity, resumed, resume_loop}
use rafuk.Tracker.Rows.{
  IsKeyed, how_many, one_if, tracker_row-save, save-IsKeyed, how_many-save, AreBelow, save-AreBelow,
}

-- An active tracker of a user with an identity.
unfoldable pub is_same : TextLib → ℕ → Identity → Tracker → Bool
unfolding is_active_of
is_same lib user_id i t =
    is_active_of user_id t && ite (Identity-discrete (tracker_identity lib t) i) true false

-- No two active trackers of a user do the same.
abbrev pub AreDistinct : TextLib → List Tracker → Type 0
AreDistinct lib trackers =
    (user_id : ℕ) (i : Identity) → how_many (is_same lib user_id i) trackers ≤ 1

-- Rows of the table that are paused.
abbrev pub ArePaused : ℕ → List Tracker → List Tracker → Type 0
ArePaused user_id trackers [] = Unit
ArePaused user_id trackers (p ∷ paused) =
    (tracker_row p.id trackers ≡ some p)
    × (is_paused_of user_id p ≡ true)
    × ArePaused user_id trackers paused

weaken-ArePaused :
    (u : ℕ) (r : Tracker) (trackers paused : List Tracker)
    → tracker_row r.id trackers ≡ none
    → ArePaused u trackers paused
    → ArePaused u (r ∷ trackers) paused
unfolding tracker_row
weaken-ArePaused u r trackers [] n h = tt
weaken-ArePaused u r trackers (p ∷ paused) n h =
    ground (arith, weaken-ArePaused u r trackers paused)

pub keep-ArePaused :
    (u : ℕ) (trackers : List Tracker)
    → IsKeyed trackers
    → ArePaused u trackers (keep (is_paused_of u) trackers)
unfolding keep tracker_row
keep-ArePaused u [] k = tt
keep-ArePaused u (t ∷ trackers) k =
    let rest =
      weaken-ArePaused u t trackers (keep (is_paused_of u) trackers) k.0
        (keep-ArePaused u trackers k.1) in
    ground (arith, rest)

save-ArePaused :
    (u : ℕ) (r : Tracker) (trackers paused : List Tracker)
    → tracker_row r.id paused ≡ none
    → ArePaused u trackers paused
    → ArePaused u (save r trackers) paused
unfolding tracker_row
save-ArePaused u r trackers [] n h = tt
save-ArePaused u r trackers (p ∷ paused) n h =
    ground (arith, save-ArePaused u r trackers paused, tracker_row-save p.id r trackers)

module _ (lib : TextLib) (check u : ℕ) (p : Tracker) (trackers : List Tracker) where
  resumed-active :
      (v : ℕ)
      → IsKeyed trackers
      → tracker_row p.id trackers ≡ some p
      → is_paused_of u p ≡ true
      → how_many (is_active_of v) (save (resumed check p) trackers)
        ≡ how_many (is_active_of v) trackers + one_if (v == u)
  unfolding is_paused_of is_active_of resumed
  resumed-active v k f h =
      ground (arith, how_many-save (is_active_of v) (resumed check p) p trackers)

  resumed-same :
      (v : ℕ) (i : Identity)
      → IsKeyed trackers
      → tracker_row p.id trackers ≡ some p
      → is_paused_of u p ≡ true
      → how_many (is_same lib v i) (save (resumed check p) trackers)
        ≡ how_many (is_same lib v i) trackers
          + one_if (v == u && ite (Identity-discrete (tracker_identity lib p) i) true false)
  unfolding is_paused_of is_active_of is_same resumed
  resumed-same v i k f h =
      ground (arith, how_many-save (is_same lib v i) (resumed check p) p trackers)

module _ (lib : TextLib) (check u : ℕ) where
  -- The loop resumes at most as many as are available, and nothing else becomes active.
  pub resume_loop-active :
      (v available : ℕ) (ids : List Identity) (paused trackers : List Tracker)
      → IsKeyed trackers
      → IsKeyed paused
      → ArePaused u trackers paused
      → (how_many (is_active_of v) (resume_loop lib check available ids paused trackers).0
          ≡ how_many (is_active_of v) trackers
            + (if v == u
                then length (resume_loop lib check available ids paused trackers).1
                else 0))
        × (length (resume_loop lib check available ids paused trackers).1 ≤ available)
  unfolding resume_loop
  resume_loop-active v zero ids paused trackers k d h = ground arith
  resume_loop-active v (suc available) ids [] trackers k d h = ground arith
  resume_loop-active v (suc available) ids (p ∷ paused) trackers k d h =
      let same = resume_loop-active v (suc available) ids paused trackers k d.1 h.2 in
      let next =
        resume_loop-active v available (tracker_identity lib p ∷ ids) paused
          (save (resumed check p) trackers) (save-IsKeyed (resumed check p) trackers k) d.1
          (save-ArePaused u (resumed check p) trackers paused d.0 h.2) in
      ground (arith, same, next, resumed-active lib check u p trackers v k h.0 h.1)

  -- The set holds the identity of every active tracker of the user.
  abbrev pub AreCovered : List Identity → List Tracker → Type 0
  AreCovered ids trackers =
      (i : Identity) → has_identity i ids ≡ false → how_many (is_same lib u i) trackers ≡ 0

  covers_next :
      (ids : List Identity) (p : Tracker) (trackers : List Tracker)
      → IsKeyed trackers
      → tracker_row p.id trackers ≡ some p
      → is_paused_of u p ≡ true
      → AreCovered ids trackers
      → AreCovered (tracker_identity lib p ∷ ids) (save (resumed check p) trackers)
  unfolding has_identity
  covers_next ids p trackers k f h c i n =
      ground (arith, c i, resumed-same lib check u p trackers u i k f h)

  distinct_next :
      (ids : List Identity) (p : Tracker) (trackers : List Tracker)
      → IsKeyed trackers
      → tracker_row p.id trackers ≡ some p
      → is_paused_of u p ≡ true
      → AreCovered ids trackers
      → has_identity (tracker_identity lib p) ids ≡ false
      → AreDistinct lib trackers
      → AreDistinct lib (save (resumed check p) trackers)
  distinct_next ids p trackers k f h c n a v i =
      ground
        (arith, a v i, c (tracker_identity lib p) n, resumed-same lib check u p trackers v i k f h)

  pub resume_loop-AreDistinct :
      (available : ℕ) (ids : List Identity) (paused trackers : List Tracker)
      → IsKeyed trackers
      → IsKeyed paused
      → ArePaused u trackers paused
      → AreCovered ids trackers
      → AreDistinct lib trackers
      → AreDistinct lib (resume_loop lib check available ids paused trackers).0
  unfolding resume_loop
  resume_loop-AreDistinct zero ids paused trackers k d h c a = a
  resume_loop-AreDistinct (suc available) ids [] trackers k d h c a = a
  resume_loop-AreDistinct (suc available) ids (p ∷ paused) trackers k d h c a =
      elim (Bool-cases (has_identity (tracker_identity lib p) ids)) [
        | inl there ↦
            rw there (resume_loop-AreDistinct (suc available) ids paused trackers k d.1 h.2 c a)
        | inr fresh ↦ rw fresh (
            resume_loop-AreDistinct available (tracker_identity lib p ∷ ids) paused
              (save (resumed check p) trackers) (save-IsKeyed (resumed check p) trackers k) d.1
              (save-ArePaused u (resumed check p) trackers paused d.0 h.2)
              (covers_next ids p trackers k h.0 h.1 c)
              (distinct_next ids p trackers k h.0 h.1 c fresh a))
      ]

  pub resume_loop-IsKeyed :
      (n available : ℕ) (ids : List Identity) (paused trackers : List Tracker)
      → IsKeyed trackers
      → AreBelow n trackers
      → IsKeyed (resume_loop lib check available ids paused trackers).0
        × AreBelow n (resume_loop lib check available ids paused trackers).0
  unfolding resume_loop
  resume_loop-IsKeyed n zero ids paused trackers k b = (k, b)
  resume_loop-IsKeyed n (suc available) ids [] trackers k b = (k, b)
  resume_loop-IsKeyed n (suc available) ids (p ∷ paused) trackers k b =
      elim (Bool-cases (has_identity (tracker_identity lib p) ids)) [
        | inl there ↦ rw there (resume_loop-IsKeyed n (suc available) ids paused trackers k b)
        | inr fresh ↦ rw fresh (
            resume_loop-IsKeyed n available (tracker_identity lib p ∷ ids) paused
              (save (resumed check p) trackers) (save-IsKeyed (resumed check p) trackers k)
              (save-AreBelow n (resumed check p) trackers b))
      ]

  -- A row that is not in the list stays as it is.
  pub tracker_row-resume_loop :
      (id available : ℕ) (ids : List Identity) (paused trackers : List Tracker)
      → tracker_row id paused ≡ none
      → tracker_row id (resume_loop lib check available ids paused trackers).0
        ≡ tracker_row id trackers
  unfolding resume_loop tracker_row
  tracker_row-resume_loop id zero ids paused trackers n = refl
  tracker_row-resume_loop id (suc available) ids [] trackers n = refl
  tracker_row-resume_loop id (suc available) ids (p ∷ paused) trackers n =
      let same = tracker_row-resume_loop id (suc available) ids paused trackers in
      let next =
        tracker_row-resume_loop id available (tracker_identity lib p ∷ ids) paused
          (save (resumed check p) trackers) in
      ground (arith, same, next, tracker_row-save id (resumed check p) trackers)
