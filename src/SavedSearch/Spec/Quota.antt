-- ===== src/SavedSearch/Spec/Quota.antt =====
-- The quota of saved searches, by their specification.
use rafuk.Base.{
  ℕ, ◌≤◌, ◌≡◌, refl, not, List, [], ◌∷◌, arith, leb, length, length-keep-le, ite, str_dec, any,
  ◌&&◌, ◌==◌, Bool-cases, inl, inr,
}
use rafuk.Market.TextLib.{TextLib}
use rafuk.Market.Insights.{PatternLib}
use rafuk.User.{max_saved_searches}
use rafuk.Tracker.Service.{max_db_id}
use rafuk.SavedSearch.{
  SavedSearch, Db, Answer, unprocessable, Request, create, delete, list, get_saved_searches,
  active_count, row_of, run,
}
use rafuk.SavedSearch.Spec.{Lists, has_id, add_row, add, remove, promised, run_promised}
use rafuk.SavedSearch.Spec.Refinement.{counted, run-Refines}

-- Nobody's list is longer than the quota.
abbrev AreShort : Lists → Type 0
AreShort l = (u : ℕ) → length (l.of u) ≤ max_saved_searches

ite-AreShort :
    {P : Type 0} (d : Dec P) (a b : Lists × Answer)
    → AreShort a.0
    → AreShort b.0
    → AreShort (ite d a b).0
ite-AreShort (yes p) a b h k = h
ite-AreShort (no n) a b h k = k

add_row-AreShort : (row : SavedSearch) (l : Lists) → AreShort l → AreShort (add_row row l).0
unfolding add_row
add_row-AreShort row l h u =
    elim (Bool-cases (leb max_saved_searches (length (l.of row.user_id)))) [
      | inl full ↦ rw full (h u)
      | inr free ↦ rw free (elim (Bool-cases (row.user_id == u)) [
        | inl e ↦
            let same : row.user_id ≡ u = ground arith in rw e (ground (arith, rw same at free))
        | inr e ↦ rw e (h u)
      ])
    ]

remove-AreShort : (v id : ℕ) (l : Lists) → AreShort l → AreShort (remove v id l).0
unfolding remove
remove-AreShort v id l h u = elim (Bool-cases (leb 1 id && leb id max_db_id)) [
  | inr e ↦ rw e (h u)
  | inl e ↦ rw e (elim (Bool-cases (any (has_id id) (l.of v))) [
    | inr n ↦ rw n (h u)
    | inl y ↦ rw y (elim (Bool-cases (v == u)) [
      | inr o ↦ rw o (h u)
      | inl s ↦ rw s (omega (arith, h u, length-keep-le (λ s. not (has_id id s)) (l.of u)))
    ])
  ])
]

module _ (lib : TextLib) (patterns : PatternLib) where
  promised-AreShort :
      (r : Request) (l : Lists) → AreShort l → AreShort (promised lib patterns r l).0
  unfolding promised add
  promised-AreShort (create caller p now) l h =
      let row : SavedSearch = row_of lib patterns l.next_id caller.user_id (lib.strip p.query) p in
      ite-AreShort (str_dec (lib.strip p.query) "") (l, unprocessable) (add_row row l) h
        (add_row-AreShort row l h)
  promised-AreShort (delete v id now) l h = remove-AreShort v id l h
  promised-AreShort (list v) l h = h

  run-AreShort :
      (requests : List Request) (l : Lists)
      → AreShort l
      → AreShort (run_promised lib patterns requests l).0
  unfolding run_promised
  run-AreShort [] l h = h
  run-AreShort (r ∷ requests) l h =
      run-AreShort requests (promised lib patterns r l).0 (promised-AreShort r l h)

  -- Requests of any users in any order leave nobody with more active saved searches than the quota, if
  -- nobody had more before.
  pub run-active_count :
      (requests : List Request) (db : Db)
      → ((u : ℕ) → active_count u db.searches ≤ max_saved_searches)
      → (u : ℕ) → active_count u (run lib patterns requests db).0.searches ≤ max_saved_searches
  run-active_count requests db h u =
      let l : Lists = record { of = λ v. get_saved_searches v db.searches; next_id = db.next_id } in
      let (same, after) =
        run-Refines lib patterns requests db l (record { shown = λ v. refl; next = refl }) in
      let short = run-AreShort requests l (λ v. rw (← counted v db.searches) (h v)) in
      rw (counted u (run lib patterns requests db).0.searches, after.shown u) (short u)
