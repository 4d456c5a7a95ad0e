-- ===== src/Base/OrderedDict/Sum.antt =====
-- A total over the entries of a dictionary, and how the operations change it.
use rafuk.Base.{ℕ, ◌+◌, ◌≡◌, some, List, [], ◌∷◌, ◌++◌, arith, inl, inr, Option-cases}
use rafuk.Base.OrderedDict.{Distinct, find, without, without_absent, move_to_end}

module _ {ℓ} {K V : Type ℓ} (size : V → ℕ) where
  -- `sum(size(v) for v in d.values())`
  abbrev pub total : List (K × V) → ℕ
  total [] = 0
  total ((k, v) ∷ d) = size v + total d

  pub total-append :
      (d : List (K × V)) (k : K) (v : V) → total (d ++ (k, v) ∷ []) ≡ total d + size v
  total-append [] k v = omega arith
  total-append ((j, w) ∷ d) k v = omega (arith, total-append d k v)

module _ {ℓ} {K V : Type ℓ} (dec : Discrete K) (size : V → ℕ) where
  pub total-without :
      (k : K) (v : V) (d : List (K × V))
      → Distinct dec d
      → find dec k d ≡ some v
      → total size (without dec k d) + size v ≡ total size d
  unfolding find without
  total-without k v [] h e = cc
  total-without k v ((j, w) ∷ d) h e = ground (arith, total-without k v d, without_absent dec k d)

  pub total-move_to_end :
      (k : K) (d : List (K × V)) → Distinct dec d → total size (move_to_end dec k d) ≡ total size d
  unfolding move_to_end
  total-move_to_end k d h = elim (Option-cases (find dec k d)) [
    | inl n ↦ rw (n, move_to_end)
    | inr (v, e) ↦
        rw (e, move_to_end)
          (omega (arith, total-append size (without dec k d) k v, total-without k v d h e))
  ]
