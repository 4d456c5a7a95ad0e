-- ===== src/Workflow/Budget/Boards.antt =====
-- `_load_boards_isolated` of api/routers/saved_searches.py, on the ids of the saved searches. A board is
-- what the load of a saved search returns, of any type.
use rafuk.Base.{
  ℕ, suc, ◌+◌, ◌-◌, ◌≤◌, ◌≡◌, refl, sym, ap, Bool, true, false, Option, none, some, List, [], ◌∷◌,
  ℕ_discrete, length, arith,
}
use rafuk.Base.Int.{ℤ, pos_part}
use rafuk.Base.OrderedDict.{find, find-assign}
use rafuk.Kufar.Retry.{KufarError}
use rafuk.Workflow.Budget.{
  Ended, result, error, over_budget, Budgeted, is_partial, is_empty, run_key, run_keys, sort_result,
  sort_results, gather_within_budget,
}
use rafuk.Workflow.Budget.Buckets.{count, keys_of, places, gather_within_budget-places}

-- An exception of a load: a `KufarAPIError`, or another one.
pub data LoadError : Type 0 where
  kufar : KufarError → LoadError
  other : LoadError

-- What the call ends in: the boards and `partial`, or a `KufarAPIError`, the first one or a new one.
pub data Outcome (B : Type 0) : Type 0 where
  loaded : List B → Bool → Outcome B
  raised : LoadError → Outcome B

none_skipped : (k : ℕ) (xs : List ℕ) → is_empty xs ≡ true → count k xs ≡ 0
unfolding is_empty
none_skipped k [] h = refl
none_skipped k (x ∷ xs) h = cc

none_failed : (k : ℕ) (xs : List (ℕ × LoadError)) → is_empty xs ≡ true → count k (keys_of xs) ≡ 0
unfolding is_empty
none_failed k [] h = refl
none_failed k ((j, e) ∷ xs) h = cc

module _ {B : Type 0} where
  -- For every id, in this order, the board that its own load ends in with the time it is given.
  abbrev pub AreOwn : (ℕ → ℕ) → (ℕ → ℕ → Ended B LoadError) → List ℕ → List B → Type 0
  AreOwn given load [] [] = Unit
  AreOwn given load (k ∷ ids) (b ∷ boards) =
      (load k (given k) ≡ result b) × AreOwn given load ids boards
  AreOwn given load [] (b ∷ boards) = ⊥
  AreOwn given load (k ∷ ids) [] = ⊥

  with_board : Option B → List B → List B
  with_board none boards = boards
  with_board (some b) boards = b ∷ boards

  -- `[outcome.results[key] for key in ids if key in outcome.results]`
  unfoldable pub boards_of : List ℕ → List (ℕ × B) → List B
  unfolding with_board
  boards_of [] results = []
  boards_of (k ∷ ids) results = with_board (find ℕ_discrete k results) (boards_of ids results)

  finish : List ℕ → Budgeted B LoadError → List (ℕ × B) → List (ℕ × LoadError) → Outcome B
  unfolding boards_of
  finish (k ∷ ids) b [] ((j, e) ∷ failed) = raised e
  finish ids b results failed = loaded (boards_of ids b.results) (is_partial b)

  -- `_load_boards_isolated` that begins at `now`
  unfoldable pub load_boards_isolated :
      ℕ → ℤ → ℕ → (ℕ → ℕ) → (ℕ → ℕ → Ended B LoadError) → List ℕ → Outcome B
  unfolding finish
  load_boards_isolated now budget least starts load ids =
      let b = gather_within_budget now budget least starts load ids in
      finish ids b b.results b.failed

  find-count :
      (k : ℕ) (results : List (ℕ × B))
      → 1 ≤ count k (keys_of results)
      → (b : B) × (find ℕ_discrete k results ≡ some b)
  unfolding find
  find-count k [] h = absurd (omega arith)
  find-count k ((j, v) ∷ results) h = elim (ℕ_discrete j k) [
    | yes e ↦ (v, ground arith)
    | no n ↦ let (b, found) = find-count k results (ground arith) in (b, ground arith)
  ]

  length-AreOwn :
      (given : ℕ → ℕ) (load : ℕ → ℕ → Ended B LoadError) (ids : List ℕ) (boards : List B)
      → AreOwn given load ids boards
      → length boards ≡ length ids
  length-AreOwn given load [] [] h = refl
  length-AreOwn given load (k ∷ ids) (b ∷ boards) (own, h) =
      ap suc (length-AreOwn given load ids boards h)
  length-AreOwn given load [] (b ∷ boards) h = absurd h
  length-AreOwn given load (k ∷ ids) [] h = absurd h

  -- What is stored for a key is the result of its load.
  abbrev StoresOwn : (ℕ → ℕ) → (ℕ → ℕ → Ended B LoadError) → List (ℕ × B) → Type 0
  StoresOwn given load results =
      (k : ℕ) (b : B) → find ℕ_discrete k results ≡ some b → load k (given k) ≡ result b

  module _ (deadline least : ℕ) (starts : ℕ → ℕ) (load : ℕ → ℕ → Ended B LoadError) where
    abbrev given : ℕ → ℕ
    given k = deadline - starts k

    sort_result-StoresOwn :
        (j : ℕ) (e : Ended B LoadError) (b : Budgeted B LoadError)
        → run_key deadline least (starts j) (load j) ≡ e
        → StoresOwn given load b.results
        → StoresOwn given load (sort_result j e b).results
    unfolding sort_result run_key
    sort_result-StoresOwn j (result a) b e h k v found =
        ground (arith, find-assign ℕ_discrete j k a b.results, h k v, found, e)
    sort_result-StoresOwn j (error x) b e h k v found = h k v found
    sort_result-StoresOwn j over_budget b e h k v found = h k v found

    sort_results-StoresOwn :
        (keys : List ℕ) (b : Budgeted B LoadError)
        → StoresOwn given load b.results
        → StoresOwn given load (sort_results (run_keys deadline least starts load keys) b).results
    unfolding sort_results run_keys
    sort_results-StoresOwn [] b h = h
    sort_results-StoresOwn (k ∷ keys) b h =
        let e = run_key deadline least (starts k) (load k) in
        sort_results-StoresOwn keys (sort_result k e b) (sort_result-StoresOwn k e b refl h)

  boards_of-AreOwn :
      (given : ℕ → ℕ) (load : ℕ → ℕ → Ended B LoadError) (ids : List ℕ) (results : List (ℕ × B))
      → StoresOwn given load results
      → ((k : ℕ) → count k ids ≤ count k (keys_of results))
      → AreOwn given load ids (boards_of ids results)
  unfolding boards_of with_board
  boards_of-AreOwn given load [] results own h = tt
  boards_of-AreOwn given load (k ∷ ids) results own h =
      let (b, e) = find-count k results (ground (arith, h k)) in
      rw e (own k b e, boards_of-AreOwn given load ids results own (λ j. omega (arith, h j)))

  none_missing :
      (k : ℕ) (b : Budgeted B LoadError)
      → is_partial b ≡ false
      → places k b ≡ count k (keys_of b.results)
  unfolding is_partial places
  none_missing k b h = ground (arith, none_skipped k b.skipped, none_failed k b.failed)

  finish-loaded :
      (ids : List ℕ) (b : Budgeted B LoadError) (results : List (ℕ × B))
      (failed : List (ℕ × LoadError)) {boards : List B} {p : Bool}
      → finish ids b results failed ≡ loaded boards p
      → (boards ≡ boards_of ids b.results) × (p ≡ is_partial b)
  unfolding finish
  finish-loaded [] b [] [] h = ground arith
  finish-loaded ids b results failed h = ground arith

  -- A board that is not called partial has every saved search: of a list of ids without repetitions,
  -- whenever their loads begin, it is one board for each id, in the order of the ids, and each is what the
  -- load of its own id ends in with the time from its start to the deadline.
  pub load_boards_isolated_complete :
      (now : ℕ) (budget : ℤ) (least : ℕ) (starts : ℕ → ℕ) (load : ℕ → ℕ → Ended B LoadError)
      (ids : List ℕ) (boards : List B)
      → ((j : ℕ) → count j ids ≤ 1)
      → load_boards_isolated now budget least starts load ids ≡ loaded boards false
      → (length boards ≡ length ids)
        × AreOwn (λ k. now + pos_part budget - starts k) load ids boards
  unfolding load_boards_isolated gather_within_budget find
  load_boards_isolated_complete now budget least starts load ids boards once h =
      let b = gather_within_budget now budget least starts load ids in
      let (same, p) = finish-loaded ids b b.results b.failed h in
      let deadline : ℕ = now + pos_part budget in
      let blank : Budgeted B LoadError = record { results = []; skipped = []; failed = [] } in
      let own : AreOwn (λ k. deadline - starts k) load ids boards = rw same (
        boards_of-AreOwn (λ k. deadline - starts k) load ids b.results
          (sort_results-StoresOwn deadline least starts load ids blank (λ k v e. absurd cc))
          (λ k. omega (
            arith,
            none_missing k b (sym p),
            gather_within_budget-places now budget least starts load ids k once,
          ))) in
      (length-AreOwn (λ k. deadline - starts k) load ids boards own, own)
