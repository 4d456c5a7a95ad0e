-- ===== src/Tracker/Invariant.antt =====
-- The operations in any order: primary keys, one tracker per identity, and the quota.
use rafuk.Base.{
  ℕ, ◌≤◌, Bool, true, false, ◌≡◌, refl, ite, none, List, [], ◌∷◌, arith, length, keep, map,
}
use mathlib.Core.List.{reverse, reverse-cons}
use rafuk.Market.TextLib.{TextLib}
use rafuk.User.{max_active_trackers}
use rafuk.Tracker.{Tracker, Identity, Identity-discrete, tracker_identity}
use rafuk.Tracker.Service.{Db, is_active_of, list_active_trackers, find_same}
use rafuk.Tracker.Activation.{has_identity}
use rafuk.Tracker.Rows.{IsKeyed, how_many, length-keep, how_many-append, AreBelow}
use rafuk.Tracker.Resume.{is_same, AreDistinct}

how_many-reverse :
    (p : Tracker → Bool) (trackers : List Tracker)
    → how_many p (reverse trackers) ≡ how_many p trackers
how_many-reverse p [] = refl
how_many-reverse p (t ∷ trackers) =
    rw (reverse-cons t trackers)
      (ground (arith, how_many-append p t (reverse trackers), how_many-reverse p trackers))

length-how_many : (trackers : List Tracker) → length trackers ≡ how_many (λ t. true) trackers
length-how_many [] = refl
length-how_many (t ∷ trackers) = ground (arith, length-how_many trackers)

-- The trackers that are listed are the active ones.
pub length-list_active :
    (u : ℕ) (trackers : List Tracker)
    → length (list_active_trackers u trackers) ≡ how_many (is_active_of u) trackers
unfolding list_active_trackers
length-list_active u trackers = ground (
  arith,
  length-how_many (reverse (keep (is_active_of u) trackers)),
  how_many-reverse (λ t. true) (keep (is_active_of u) trackers),
  length-how_many (keep (is_active_of u) trackers),
  length-keep (is_active_of u) trackers,
)

module _ (lib : TextLib) (i : Identity) where
  pub does_same : Tracker → Bool
  does_same t = ite (Identity-discrete (tracker_identity lib t) i) true false

  how_many-keep :
      (u : ℕ) (trackers : List Tracker)
      → how_many does_same (keep (is_active_of u) trackers) ≡ how_many (is_same lib u i) trackers
  unfolding keep is_same does_same
  how_many-keep u [] = refl
  how_many-keep u (t ∷ trackers) = ground (arith, how_many-keep u trackers)

  pub listed_same :
      (u : ℕ) (trackers : List Tracker)
      → how_many does_same (list_active_trackers u trackers) ≡ how_many (is_same lib u i) trackers
  unfolding list_active_trackers
  listed_same u trackers =
      rw (how_many-reverse does_same (keep (is_active_of u) trackers)) (how_many-keep u trackers)

  pub find_same_absent :
      (trackers : List Tracker) → find_same lib i trackers ≡ none → how_many does_same trackers ≡ 0
  unfolding find_same does_same
  find_same_absent [] h = refl
  find_same_absent (t ∷ trackers) h = ground (arith, find_same_absent trackers)

  pub has_identity_absent :
      (trackers : List Tracker)
      → has_identity i (map (tracker_identity lib) trackers) ≡ false
      → how_many does_same trackers ≡ 0
  unfolding has_identity does_same
  has_identity_absent [] h = refl
  has_identity_absent (t ∷ trackers) h = ground (arith, has_identity_absent trackers)

-- What the operations keep.
pub record IsValid (lib : TextLib) (db : Db) : Type 0 where
  pub keyed : IsKeyed db.trackers
  pub fresh : AreBelow db.next_id db.trackers
  pub distinct : AreDistinct lib db.trackers
  pub within_quota : (u : ℕ) → how_many (is_active_of u) db.trackers ≤ max_active_trackers
