-- ===== src/Kufar/Pacer/Requests.antt =====
-- The requests of one pacer: how many are in some phase, and when they may start.
use rafuk.Base.{
  ℕ, ◌+◌, ◌≤◌, ◌≡◌, ◌⊎◌, inl, inr, Bool, Option, none, some, List, [], ◌∷◌, All, arith, ◌==◌,
  if◌then◌else◌, Bool-cases,
}
use rafuk.Kufar.Pacer.{Phase, queued, asleep, running, finished, dropped, phase_of, set_phase}

-- The start that a request was given.
abbrev pub time_of : Phase → Option ℕ
time_of queued = none
time_of (asleep start) = some start
time_of (running start woke) = some start
time_of (finished start woke) = some start
time_of dropped = none

abbrev pub weight : (Phase → Bool) → Phase → ℕ
weight test p = if test p then 1 else 0

unfoldable pub count : (Phase → Bool) → List (ℕ × Phase) → ℕ
count test [] = 0
count test ((k, p) ∷ requests) = weight test p + count test requests

pub phase_of-set_phase :
    (id j : ℕ) (q p : Phase) (rs : List (ℕ × Phase))
    → phase_of id rs ≡ some p
    → phase_of j (set_phase id q rs) ≡ (if id == j then some q else phase_of j rs)
unfolding phase_of set_phase
phase_of-set_phase id j q p [] h = ground arith
phase_of-set_phase id j q p ((k, r) ∷ rs) h = ground (arith, phase_of-set_phase id j q p rs)

pub count-set_phase :
    (test : Phase → Bool) (id : ℕ) (q p : Phase) (rs : List (ℕ × Phase))
    → phase_of id rs ≡ some p
    → count test (set_phase id q rs) + weight test p ≡ count test rs + weight test q
unfolding phase_of set_phase count
count-set_phase test id q p [] h = ground arith
count-set_phase test id q p ((k, r) ∷ rs) h = elim (Bool-cases (k == id)) [
  | inl e ↦ ground arith
  | inr n ↦ rw n (ground (arith, count-set_phase test id q p rs))
]

-- A property of every start.
abbrev pub AllTimes : (Option ℕ → Type 0) → List (ℕ × Phase) → Type 0
AllTimes P [] = Unit
AllTimes P ((k, p) ∷ requests) = P (time_of p) × AllTimes P requests

module _ (P : Option ℕ → Type 0) where
  pub AllTimes-set_phase :
      (id : ℕ) (q : Phase) (rs : List (ℕ × Phase))
      → AllTimes P rs
      → P (time_of q)
      → AllTimes P (set_phase id q rs)
  unfolding set_phase
  AllTimes-set_phase id q [] all h = tt
  AllTimes-set_phase id q ((k, p) ∷ rs) (here, all) h = elim (Bool-cases (k == id)) [
    | inl e ↦ rw e (h, all)
    | inr n ↦ rw n (here, AllTimes-set_phase id q rs all h)
  ]

  pub AllTimes-phase_of :
      (id : ℕ) (p : Phase) (rs : List (ℕ × Phase))
      → AllTimes P rs
      → phase_of id rs ≡ some p
      → P (time_of p)
  unfolding phase_of
  AllTimes-phase_of id p [] all h = cc
  AllTimes-phase_of id p ((k, r) ∷ rs) (here, all) h = elim (Bool-cases (k == id)) [
    | inl e ↦ ground (arith, rw e at h)
    | inr n ↦ AllTimes-phase_of id p rs all (rw n at h)
  ]

pub AllTimes-map :
    (P Q : Option ℕ → Type 0) (rs : List (ℕ × Phase))
    → ((o : Option ℕ) → P o → Q o)
    → AllTimes P rs
    → AllTimes Q rs
AllTimes-map P Q [] f all = tt
AllTimes-map P Q ((k, p) ∷ rs) f (here, all) = (f (time_of p) here, AllTimes-map P Q rs f all)

-- Two starts are at least a delay apart, if both requests have one.
abbrev pub Apart : ℕ → Option ℕ → Option ℕ → Type 0
Apart d none b = Unit
Apart d (some a) none = Unit
Apart d (some a) (some b) = (a + d ≤ b) ⊎ (b + d ≤ a)

-- A start is a delay before a time.
abbrev pub Early : ℕ → ℕ → Option ℕ → Type 0
Early d n none = Unit
Early d n (some a) = a + d ≤ n

abbrev pub Spaced : ℕ → List (ℕ × Phase) → Type 0
Spaced d [] = Unit
Spaced d ((k, p) ∷ requests) = AllTimes (Apart d (time_of p)) requests × Spaced d requests

pub Early-mono : (d n m : ℕ) → n ≤ m → (o : Option ℕ) → Early d n o → Early d m o
Early-mono d n m h none e = tt
Early-mono d n m h (some a) e = omega arith

Apart-none : (d : ℕ) (o : Option ℕ) → Apart d o none
Apart-none d none = tt
Apart-none d (some a) = tt

Apart-late : (d m : ℕ) (o : Option ℕ) → Early d m o → Apart d (some m) o
Apart-late d m none e = tt
Apart-late d m (some a) e = inr e

Apart-Early : (d m : ℕ) (o : Option ℕ) → Early d m o → Apart d o (some m)
Apart-Early d m none e = tt
Apart-Early d m (some a) e = inl e

AllTimes-same :
    (d : ℕ) (o o' : Option ℕ) (rs : List (ℕ × Phase))
    → (o' ≡ o) ⊎ (o' ≡ none)
    → AllTimes (Apart d o) rs
    → AllTimes (Apart d o') rs
AllTimes-same d o o' rs (inl e) all = rw e all
AllTimes-same d o o' rs (inr e) all =
    rw e (AllTimes-map (Apart d o) (Apart d none) rs (λ x a. tt) all)

-- What holds of the old start, and of no start.
pub same_or_none :
    (P : Option ℕ → Type 0) (o o' : Option ℕ) → P none → (o' ≡ o) ⊎ (o' ≡ none) → P o → P o'
same_or_none P o o' h (inl e) p = rw e p
same_or_none P o o' h (inr e) p = rw e h

-- A request that keeps its start, or loses it.
pub Spaced-same :
    (d id : ℕ) (q p : Phase) (rs : List (ℕ × Phase))
    → phase_of id rs ≡ some p
    → (time_of q ≡ time_of p) ⊎ (time_of q ≡ none)
    → Spaced d rs
    → Spaced d (set_phase id q rs)
unfolding phase_of set_phase
Spaced-same d id q p [] h t s = s
Spaced-same d id q p ((k, r) ∷ rs) h t (here, s) = elim (Bool-cases (k == id)) [
  | inl same ↦
      let e : r ≡ p = ground arith in
      rw same (AllTimes-same d (time_of p) (time_of q) rs t (rw (← e) here), s)
  | inr other ↦
      let h' : phase_of id rs ≡ some p = ground arith in
      let apart : Apart d (time_of r) (time_of p) =
        AllTimes-phase_of (Apart d (time_of r)) id p rs here h' in
      rw other (
        AllTimes-set_phase (Apart d (time_of r)) id q rs here (
            same_or_none (Apart d (time_of r)) (time_of p) (time_of q) (Apart-none d (time_of r)) t
              apart),
        Spaced-same d id q p rs h' t s,
      )
]

-- A request that gets a start after all others.
pub Spaced-fresh :
    (d id m : ℕ) (q : Phase) (rs : List (ℕ × Phase))
    → time_of q ≡ some m
    → AllTimes (Early d m) rs
    → Spaced d rs
    → Spaced d (set_phase id q rs)
unfolding set_phase
Spaced-fresh d id m q [] e early s = s
Spaced-fresh d id m q ((k, r) ∷ rs) e (first, early) (here, s) = elim (Bool-cases (k == id)) [
  | inl same ↦
      rw (same, e) (AllTimes-map (Early d m) (Apart d (some m)) rs (Apart-late d m) early, s)
  | inr other ↦ rw other (
    AllTimes-set_phase (Apart d (time_of r)) id q rs here
        (rw e (Apart-Early d m (time_of r) first)),
    Spaced-fresh d id m q rs e early s,
  )
]

-- A request that started did so at the start reserved for it or later.
abbrev pub HasSlept : Phase → Type 0
HasSlept (running start woke) = start ≤ woke
HasSlept (finished start woke) = start ≤ woke
HasSlept p = Unit

pub All-set_phase :
    (id : ℕ) (q : Phase) (rs : List (ℕ × Phase))
    → HasSlept q
    → All (λ r. HasSlept r.1) rs
    → All (λ r. HasSlept r.1) (set_phase id q rs)
unfolding set_phase
All-set_phase id q [] h all = tt
All-set_phase id q ((k, p) ∷ rs) h (here, all) = elim (Bool-cases (k == id)) [
  | inl e ↦ rw (e, set_phase) (h, all)
  | inr e ↦ rw (e, set_phase) (here, All-set_phase id q rs h all)
]

pub All-phase_of :
    (id : ℕ) (p : Phase) (rs : List (ℕ × Phase))
    → phase_of id rs ≡ some p
    → All (λ r. HasSlept r.1) rs
    → HasSlept p
unfolding phase_of
All-phase_of id p [] h all = absurd cc
All-phase_of id p ((k, q) ∷ rs) h (here, all) = elim (Bool-cases (k == id)) [
  | inl e ↦ let same : q ≡ p = ground (arith, e, h) in rw (← same) here
  | inr e ↦ All-phase_of id p rs (rw e at h) all
]
