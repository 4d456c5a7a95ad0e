-- ===== src/Workflow/Budget/Buckets.antt =====
-- Every key ends in one bucket.
use rafuk.Base.{
  ℕ, ◌+◌, ◌≤◌, ◌≡◌, refl, ap, ◌++◌, ◌==◌, Bool, true, false, List, [], ◌∷◌, ℕ_discrete, arith,
}
use rafuk.Base.Int.{ℤ, pos_part}
use rafuk.Base.OrderedDict.{assign}
use rafuk.Workflow.Budget.{
  Ended, result, error, over_budget, Budgeted, run_keys, sort_result, sort_results,
  gather_within_budget,
}

abbrev pub one_if : Bool → ℕ
one_if true = 1
one_if false = 0

-- How often a key stands in a list.
abbrev pub count : ℕ → List ℕ → ℕ
count k [] = 0
count k (j ∷ keys) = one_if (j == k) + count k keys

abbrev pub keys_of {ℓ} : {V : Type ℓ} → List (ℕ × V) → List ℕ
keys_of [] = []
keys_of ((k, v) ∷ items) = k ∷ keys_of items

count-append : (k : ℕ) (xs ys : List ℕ) → count k (xs ++ ys) ≡ count k xs + count k ys
count-append k [] ys = omega arith
count-append k (x ∷ xs) ys = omega (arith, count-append k xs ys)

keys_of-append {ℓ} :
    {V : Type ℓ} (xs ys : List (ℕ × V)) → keys_of (xs ++ ys) ≡ keys_of xs ++ keys_of ys
keys_of-append [] ys = refl
keys_of-append ((k, v) ∷ xs) ys = rw (keys_of-append xs ys) refl

count-added {ℓ} :
    {V : Type ℓ} (j k : ℕ) (v : V) (xs : List (ℕ × V))
    → count j (keys_of (xs ++ (k, v) ∷ [])) ≡ count j (keys_of xs) + one_if (k == j)
count-added j k v xs =
    rw (keys_of-append xs ((k, v) ∷ []), count-append j (keys_of xs) (k ∷ [])) (ground arith)

count-assign :
    {V : Type 0} (j k : ℕ) (v : V) (d : List (ℕ × V))
    → count k (keys_of d) ≡ 0
    → count j (keys_of (assign ℕ_discrete k v d)) ≡ count j (keys_of d) + one_if (k == j)
unfolding assign
count-assign j k v [] h = ground arith
count-assign j k v ((i, w) ∷ d) h = ground (arith, count-assign j k v d)

module _ {A E : Type 0} where
  -- In how many places of the buckets a key stands.
  unfoldable pub places : ℕ → Budgeted A E → ℕ
  places k b = count k (keys_of b.results) + (count k b.skipped + count k (keys_of b.failed))

  places-sort_result :
      (j k : ℕ) (e : Ended A E) (b : Budgeted A E)
      → places k b ≡ 0
      → places j (sort_result k e b) ≡ places j b + one_if (k == j)
  unfolding places sort_result
  places-sort_result j k (result a) b h = omega (arith, count-assign j k a b.results (omega arith))
  places-sort_result j k (error e) b h = omega (arith, count-added j k e b.failed)
  places-sort_result j k over_budget b h = ground (arith, count-append j b.skipped (k ∷ []))

  places-sort_results :
      (j : ℕ) (ends : List (ℕ × Ended A E)) (b : Budgeted A E)
      → ((k : ℕ) → places k b + count k (keys_of ends) ≤ 1)
      → places j (sort_results ends b) ≡ places j b + count j (keys_of ends)
  unfolding sort_results
  places-sort_results j [] b once = omega arith
  places-sort_results j ((k, e) ∷ ends) b once =
      let new : places k b ≡ 0 = ground (arith, once k) in
      omega (
        arith,
        places-sort_result j k e b new,
        places-sort_results j ends (sort_result k e b)
            (λ i. ground (arith, once i, places-sort_result i k e b new)),
      )

  keys_of-run_keys :
      (deadline least : ℕ) (starts : ℕ → ℕ) (load : ℕ → ℕ → Ended A E) (keys : List ℕ)
      → keys_of (run_keys deadline least starts load keys) ≡ keys
  unfolding run_keys
  keys_of-run_keys deadline least starts load [] = refl
  keys_of-run_keys deadline least starts load (k ∷ keys) =
      rw (keys_of-run_keys deadline least starts load keys) refl

  -- Whenever the keys get the semaphore and whatever their loads end in, every key of a list without
  -- repetitions stands in exactly one of the buckets, once, and no other key stands in any.
  pub gather_within_budget-places :
      (now : ℕ) (budget : ℤ) (least : ℕ) (starts : ℕ → ℕ) (load : ℕ → ℕ → Ended A E) (keys : List ℕ)
      (k : ℕ)
      → ((j : ℕ) → count j keys ≤ 1)
      → places k (gather_within_budget now budget least starts load keys) ≡ count k keys
  unfolding gather_within_budget places
  gather_within_budget-places now budget least starts load keys k once =
      let deadline = now + pos_part budget in
      let same = keys_of-run_keys deadline least starts load keys in
      omega (
        arith,
        places-sort_results k (run_keys deadline least starts load keys)
            (record { results = []; skipped = []; failed = [] })
            (λ j. rw same (omega (arith, once j))),
        ap (count k) same,
      )
