-- ===== src/Base/OrderedDict.antt =====
-- Python's insertion-ordered dictionaries (`dict` and `collections.OrderedDict`) as lists of
-- entries, oldest first.
pub mod Deletion
pub mod Sum
use rafuk.Base.{
  ◌≤◌, ◌<◌, ◌≡◌, refl, ◌≢◌, ite, Option, none, some, List, [], ◌∷◌, ◌++◌, arith, length, inl, inr,
  Option-cases, length-append,
}

module _ {ℓ} {K V : Type ℓ} (dec : Discrete K) where
  -- `d.get(k)`
  unfoldable pub find : K → List (K × V) → Option V
  find k [] = none
  find k ((j, v) ∷ d) = ite (dec j k) (some v) (find k d)

  -- `d.pop(k, None)`, `del d[k]`
  unfoldable pub without : K → List (K × V) → List (K × V)
  without k [] = []
  without k ((j, v) ∷ d) = ite (dec j k) (without k d) ((j, v) ∷ without k d)

  -- `d[k] = v`: an old entry keeps its place
  unfoldable pub assign : K → V → List (K × V) → List (K × V)
  assign k v [] = (k, v) ∷ []
  assign k v ((j, w) ∷ d) = ite (dec j k) ((j, v) ∷ d) ((j, w) ∷ assign k v d)

  -- `d.move_to_end(k)` of a key that is there
  unfoldable pub move_to_end : K → List (K × V) → List (K × V)
  move_to_end k d = elim (find k d) [ none ↦ d | some v ↦ without k d ++ (k, v) ∷ [] ]

  -- No key stands twice.
  abbrev pub Distinct : List (K × V) → Type ℓ
  Distinct [] = Unit
  Distinct ((k, v) ∷ d) = (find k d ≡ none) × Distinct d

  pub find-without_self : (k : K) (d : List (K × V)) → find k (without k d) ≡ none
  unfolding find without
  find-without_self k [] = refl
  find-without_self k ((j, v) ∷ d) = ground (arith, find-without_self k d)

  pub find-without_ne : (k j : K) (d : List (K × V)) → j ≢ k → find j (without k d) ≡ find j d
  unfolding find without
  find-without_ne k j [] h = refl
  find-without_ne k j ((i, v) ∷ d) h = ground (arith, find-without_ne k j d h)

  pub find-without_absent :
      (k j : K) (d : List (K × V)) → find j d ≡ none → find j (without k d) ≡ none
  unfolding find without
  find-without_absent k j [] h = refl
  find-without_absent k j ((i, v) ∷ d) h = ground (arith, find-without_absent k j d)

  pub find-append :
      (j k : K) (v : V) (d : List (K × V))
      → find j (d ++ (k, v) ∷ [])
        ≡ elim (find j d) [ some w ↦ some w | none ↦ ite (dec k j) (some v) none ]
  unfolding find
  find-append j k v [] = refl
  find-append j k v ((i, w) ∷ d) = ground (arith, find-append j k v d)

  pub without-Distinct : (k : K) (d : List (K × V)) → Distinct d → Distinct (without k d)
  unfolding without
  without-Distinct k [] h = tt
  without-Distinct k ((j, v) ∷ d) h =
      ground (arith, without-Distinct k d, find-without_absent k j d)

  pub append-Distinct :
      (k : K) (v : V) (d : List (K × V))
      → find k d ≡ none
      → Distinct d
      → Distinct (d ++ (k, v) ∷ [])
  unfolding find
  append-Distinct k v [] n h = (refl, tt)
  append-Distinct k v ((j, w) ∷ d) n h = ground (arith, append-Distinct k v d, find-append j k v d)

  pub length-without-le : (k : K) (d : List (K × V)) → length (without k d) ≤ length d
  unfolding without
  length-without-le k [] = omega arith
  length-without-le k ((j, v) ∷ d) = ground (arith, length-without-le k d)

  pub length-without-lt :
      (k : K) (v : V) (d : List (K × V)) → find k d ≡ some v → length (without k d) < length d
  unfolding find without
  length-without-lt k v [] h = cc
  length-without-lt k v ((j, w) ∷ d) h =
      ground (arith, length-without-lt k v d, length-without-le k d)

  pub without_absent : (k : K) (d : List (K × V)) → find k d ≡ none → without k d ≡ d
  unfolding find without
  without_absent k [] h = refl
  without_absent k ((j, v) ∷ d) h = ground (arith, without_absent k d)

  pub find-assign :
      (k j : K) (v : V) (d : List (K × V))
      → find j (assign k v d) ≡ ite (dec k j) (some v) (find j d)
  unfolding find assign
  find-assign k j v [] = refl
  find-assign k j v ((i, w) ∷ d) = ground (arith, find-assign k j v d)

  pub find-without :
      (k j : K) (d : List (K × V)) → find j (without k d) ≡ ite (dec k j) none (find j d)
  unfolding find without
  find-without k j [] = ground arith
  find-without k j ((i, w) ∷ d) = ground (arith, find-without k j d)

  pub assign_absent :
      (k : K) (v : V) (d : List (K × V)) → find k d ≡ none → assign k v d ≡ d ++ (k, v) ∷ []
  unfolding find assign
  assign_absent k v [] h = refl
  assign_absent k v ((j, w) ∷ d) h = ground (arith, assign_absent k v d)

  -- `d[k] = v; d.move_to_end(k)`
  pub move_to_end-assign :
      (k : K) (v : V) (d : List (K × V))
      → Distinct d
      → move_to_end k (assign k v d) ≡ without k d ++ (k, v) ∷ []
  unfolding find without assign move_to_end
  move_to_end-assign k v [] h = ground arith
  move_to_end-assign k v ((j, w) ∷ d) h =
      ground (arith, move_to_end-assign k v d, without_absent k d)

  pub move_to_end-Distinct : (k : K) (d : List (K × V)) → Distinct d → Distinct (move_to_end k d)
  unfolding move_to_end
  move_to_end-Distinct k d h = elim (Option-cases (find k d)) [
    | inl n ↦ rw (n, move_to_end) h
    | inr (v, e) ↦
        rw (e, move_to_end)
          (append-Distinct k v (without k d) (find-without_self k d) (without-Distinct k d h))
  ]

  pub length-move_to_end-le : (k : K) (d : List (K × V)) → length (move_to_end k d) ≤ length d
  unfolding move_to_end
  length-move_to_end-le k d = elim (Option-cases (find k d)) [
    | inl n ↦ rw (n, move_to_end) (omega arith)
    | inr (v, e) ↦
        rw (e, move_to_end)
          (omega (arith, length-append {ℓ} (without k d) ((k, v) ∷ []), length-without-lt k v d e))
  ]
