-- ===== src/Base/OrderedDict/Deletion.antt =====
-- Deleting a list of keys, as in `for key in expired: del d[key]`.
use rafuk.Base.{
  ◌≡◌, refl, ◌≢◌, Bool, not, none, some, List, [], ◌∷◌, arith, keep, if◌then◌else◌, All,
}
use rafuk.Base.OrderedDict.{Distinct, find, without, without_absent}

module _ {ℓ} {K V : Type ℓ} where
  -- `[k for k, v in d.items() if p(v)]`
  unfoldable pub keys_where : (V → Bool) → List (K × V) → List K
  keys_where p [] = []
  keys_where p ((k, v) ∷ d) = if p v then k ∷ keys_where p d else keys_where p d

module _ {ℓ} {K V : Type ℓ} (dec : Discrete K) where
  unfoldable pub without_all : List K → List (K × V) → List (K × V)
  without_all [] d = d
  without_all (k ∷ ks) d = without_all ks (without dec k d)

  keys_where-absent :
      (p : V → Bool) (k : K) (d : List (K × V))
      → find dec k d ≡ none
      → All (λ j. k ≢ j) (keys_where p d)
  unfolding find keys_where
  keys_where-absent p k [] h = tt
  keys_where-absent p k ((j, v) ∷ d) h = ground (arith, keys_where-absent p k d)

  without_all-skip :
      (ks : List K) (k : K) (v : V) (d : List (K × V))
      → All (λ j. k ≢ j) ks
      → without_all ks ((k, v) ∷ d) ≡ (k, v) ∷ without_all ks d
  unfolding without without_all
  without_all-skip [] k v d h = refl
  without_all-skip (j ∷ ks) k v d h = ground (arith, without_all-skip ks k v (without dec j d))

  pub without_all-keys_where :
      (p : V → Bool) (d : List (K × V))
      → Distinct dec d
      → without_all (keys_where p d) d ≡ keep (λ e. not (p e.1)) d
  unfolding without without_all keys_where keep
  without_all-keys_where p [] h = refl
  without_all-keys_where p ((k, v) ∷ d) h = ground (
    arith,
    without_all-keys_where p d,
    without_absent dec k d,
    keys_where-absent p k d,
    without_all-skip (keys_where p d) k v d,
  )

  pub find-keep_absent :
      (p : K × V → Bool) (k : K) (d : List (K × V))
      → find dec k d ≡ none
      → find dec k (keep p d) ≡ none
  unfolding find keep
  find-keep_absent p k [] h = refl
  find-keep_absent p k ((j, v) ∷ d) h = ground (arith, find-keep_absent p k d)

  pub keep-Distinct :
      (p : K × V → Bool) (d : List (K × V)) → Distinct dec d → Distinct dec (keep p d)
  unfolding keep
  keep-Distinct p [] h = tt
  keep-Distinct p ((k, v) ∷ d) h = ground (arith, keep-Distinct p d, find-keep_absent p k d)

  -- Of a key that stands once, a filter keeps or drops the only entry.
  pub find-keep :
      (p : K × V → Bool) (k : K) (d : List (K × V))
      → Distinct dec d
      → find dec k (keep p d)
        ≡ elim (find dec k d) [ none ↦ none | some v ↦ if p (k, v) then some v else none ]
  unfolding find keep
  find-keep p k [] h = refl
  find-keep p k ((j, v) ∷ d) h = ground (arith, find-keep p k d, find-keep_absent p k d)
