-- ===== src/Tracker/Rows.antt =====
-- The table of trackers by primary key, and how many of its rows have a property.
use rafuk.Base.{
  ℕ, suc, ◌+◌, ◌==◌, ◌<◌, Bool, true, false, ◌≡◌, refl, none, some, List, [], ◌∷◌, ◌++◌, arith,
  length, keep, if◌then◌else◌,
}
use rafuk.Tracker.{Tracker}
use rafuk.Tracker.Activation.{tracker_row, save}

-- The primary keys are distinct.
abbrev pub IsKeyed : List Tracker → Type 0
IsKeyed [] = Unit
IsKeyed (t ∷ trackers) = (tracker_row t.id trackers ≡ none) × IsKeyed trackers

-- How many rows have a property.
abbrev pub how_many : (Tracker → Bool) → List Tracker → ℕ
how_many p [] = 0
how_many p (t ∷ trackers) = if p t then suc (how_many p trackers) else how_many p trackers

abbrev pub one_if : Bool → ℕ
one_if true = 1
one_if false = 0

pub length-keep :
    (p : Tracker → Bool) (trackers : List Tracker) → length (keep p trackers) ≡ how_many p trackers
unfolding keep
length-keep p [] = refl
length-keep p (t ∷ trackers) = ground (arith, length-keep p trackers)

pub how_many-append :
    (p : Tracker → Bool) (t : Tracker) (trackers : List Tracker)
    → how_many p (trackers ++ t ∷ []) ≡ how_many p trackers + one_if (p t)
how_many-append p t [] = ground arith
how_many-append p t (r ∷ trackers) = ground (arith, how_many-append p t trackers)

pub tracker_row-append :
    (id : ℕ) (t : Tracker) (trackers : List Tracker)
    → tracker_row id (trackers ++ t ∷ []) ≡ elim (tracker_row id trackers) [
      | some r ↦ some r
      | none ↦ if t.id == id then some t else none
    ]
unfolding tracker_row
tracker_row-append id t [] = refl
tracker_row-append id t (r ∷ trackers) = ground (arith, tracker_row-append id t trackers)

pub append-IsKeyed :
    (t : Tracker) (trackers : List Tracker)
    → tracker_row t.id trackers ≡ none
    → IsKeyed trackers
    → IsKeyed (trackers ++ t ∷ [])
unfolding tracker_row
append-IsKeyed t [] n h = (refl, tt)
append-IsKeyed t (r ∷ trackers) n h =
    ground (arith, append-IsKeyed t trackers, tracker_row-append r.id t trackers)

pub tracker_row-save :
    (id : ℕ) (t : Tracker) (trackers : List Tracker)
    → tracker_row id (save t trackers) ≡ elim (tracker_row id trackers) [
      | none ↦ none
      | some r ↦ if t.id == id then some t else some r
    ]
unfolding tracker_row save
tracker_row-save id t [] = refl
tracker_row-save id t (r ∷ trackers) = ground (arith, tracker_row-save id t trackers)

pub save-IsKeyed :
    (t : Tracker) (trackers : List Tracker) → IsKeyed trackers → IsKeyed (save t trackers)
unfolding save
save-IsKeyed t [] h = tt
save-IsKeyed t (r ∷ trackers) h = ground (
  arith,
  save-IsKeyed t trackers,
  tracker_row-save r.id t trackers,
  tracker_row-save t.id t trackers,
)

pub save_absent :
    (t : Tracker) (trackers : List Tracker)
    → tracker_row t.id trackers ≡ none
    → save t trackers ≡ trackers
unfolding tracker_row save
save_absent t [] h = refl
save_absent t (r ∷ trackers) h = ground (arith, save_absent t trackers)

pub how_many-save :
    (p : Tracker → Bool) (t r : Tracker) (trackers : List Tracker)
    → IsKeyed trackers
    → tracker_row t.id trackers ≡ some r
    → how_many p (save t trackers) + one_if (p r) ≡ how_many p trackers + one_if (p t)
unfolding tracker_row save
how_many-save p t r [] k h = absurd cc
how_many-save p t r (s ∷ trackers) k h =
    ground (arith, how_many-save p t r trackers, save_absent t trackers)

pub tracker_row-id :
    (id : ℕ) (t : Tracker) (trackers : List Tracker) → tracker_row id trackers ≡ some t → t.id ≡ id
unfolding tracker_row
tracker_row-id id t [] h = absurd cc
tracker_row-id id t (r ∷ trackers) h = ground (arith, tracker_row-id id t trackers)

-- The identifiers below the next one.
abbrev pub AreBelow : ℕ → List Tracker → Type 0
AreBelow n [] = Unit
AreBelow n (t ∷ trackers) = (t.id < n) × AreBelow n trackers

pub row-fresh :
    (n : ℕ) (trackers : List Tracker) → AreBelow n trackers → tracker_row n trackers ≡ none
unfolding tracker_row
row-fresh n [] h = refl
row-fresh n (t ∷ trackers) h = ground (arith, row-fresh n trackers)

pub append-AreBelow :
    (n : ℕ) (t : Tracker) (trackers : List Tracker)
    → t.id ≡ n
    → AreBelow n trackers
    → AreBelow (suc n) (trackers ++ t ∷ [])
append-AreBelow n t [] e h = (omega arith, tt)
append-AreBelow n t (r ∷ trackers) e h = (omega arith, append-AreBelow n t trackers e h.1)

pub save-AreBelow :
    (n : ℕ) (t : Tracker) (trackers : List Tracker)
    → AreBelow n trackers
    → AreBelow n (save t trackers)
unfolding save
save-AreBelow n t [] h = tt
save-AreBelow n t (r ∷ trackers) h = ground (arith, save-AreBelow n t trackers)

-- The rows that a query keeps are rows of the table.
pub tracker_row-keep_absent :
    (p : Tracker → Bool) (id : ℕ) (trackers : List Tracker)
    → tracker_row id trackers ≡ none
    → tracker_row id (keep p trackers) ≡ none
unfolding tracker_row keep
tracker_row-keep_absent p id [] h = refl
tracker_row-keep_absent p id (t ∷ trackers) h =
    ground (arith, tracker_row-keep_absent p id trackers)

pub keep-IsKeyed :
    (p : Tracker → Bool) (trackers : List Tracker) → IsKeyed trackers → IsKeyed (keep p trackers)
unfolding keep
keep-IsKeyed p [] h = tt
keep-IsKeyed p (t ∷ trackers) h =
    ground (arith, keep-IsKeyed p trackers, tracker_row-keep_absent p t.id trackers)
