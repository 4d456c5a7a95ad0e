-- ===== src/Market/Deals/Sorting.antt =====
-- The sort of Market.Deals moves items only, and into its order.
use rafuk.Base.{
  ℕ, suc, ◌≡◌, refl, Bool, true, false, List, [], ◌∷◌, All, if◌then◌else◌, arith, Bool-cases, inl,
  inr,
}
use rafuk.Market.Deals.{insert_by, sort_by}

-- How many items pass a test.
unfoldable pub count_of : {A : Type 0} → (A → Bool) → List A → ℕ
count_of p [] = 0
count_of p (x ∷ xs) = if p x then suc (count_of p xs) else count_of p xs

-- Every item stands to each later one in the relation.
abbrev pub IsOrdered : {A : Type 0} → (A → A → Type 0) → List A → Type 0
IsOrdered R [] = Unit
IsOrdered R (x ∷ xs) = All (λ y. R x y) xs × IsOrdered R xs

-- No item comes before one that must precede it.
abbrev pub IsSorted : {A : Type 0} → (A → A → Bool) → List A → Type 0
IsSorted before xs = IsOrdered (λ x y. before x y ≡ true) xs

module _ {A : Type 0} {R S : A → A → Type 0} (weaker : (x y : A) → R x y → S x y) where
  All-weaker : (x : A) (xs : List A) → All (λ y. R x y) xs → All (λ y. S x y) xs
  All-weaker x [] h = tt
  All-weaker x (y ∷ ys) (here, h) = (weaker x y here, All-weaker x ys h)

  pub IsOrdered-weaker : (xs : List A) → IsOrdered R xs → IsOrdered S xs
  IsOrdered-weaker [] h = tt
  IsOrdered-weaker (x ∷ xs) (all, h) = (All-weaker x xs all, IsOrdered-weaker xs h)

module _ {A : Type 0} (before : A → A → Bool) where
  count-insert_by :
      (p : A → Bool) (x : A) (xs : List A)
      → count_of p (insert_by before x xs) ≡ count_of p (x ∷ xs)
  unfolding insert_by count_of
  count-insert_by p x [] = refl
  count-insert_by p x (y ∷ ys) = ground (arith, count-insert_by p x ys)

  pub count-sort_by : (p : A → Bool) (xs : List A) → count_of p (sort_by before xs) ≡ count_of p xs
  unfolding sort_by count_of
  count-sort_by p [] = refl
  count-sort_by p (x ∷ xs) =
      ground (arith, count-insert_by p x (sort_by before xs), count-sort_by p xs)

  All-kept : (P : A → Type 0) (x : A) (xs : List A) → P x → All P xs → All P (insert_by before x xs)
  unfolding insert_by
  All-kept P x [] h k = (h, tt)
  All-kept P x (y ∷ ys) h k = elim (Bool-cases (before x y)) [
    | inl e ↦ rw (e, insert_by) (h, k)
    | inr e ↦ rw (e, insert_by) (k.0, All-kept P x ys h k.1)
  ]

  pub All-sort_by : (P : A → Type 0) (xs : List A) → All P xs → All P (sort_by before xs)
  unfolding sort_by
  All-sort_by P [] h = tt
  All-sort_by P (x ∷ xs) h = All-kept P x (sort_by before xs) h.0 (All-sort_by P xs h.1)

  module _ (total : (x y : A) → before x y ≡ false → before y x ≡ true)
      (trans : (x y z : A) → before x y ≡ true → before y z ≡ true → before x z ≡ true) where
    All-through :
        (x y : A) (ys : List A)
        → before x y ≡ true
        → All (λ z. before y z ≡ true) ys
        → All (λ z. before x z ≡ true) ys
    All-through x y [] l h = tt
    All-through x y (z ∷ ys) l h = (trans x y z l h.0, All-through x y ys l h.1)

    All-insert_by :
        (x y : A) (ys : List A)
        → before x y ≡ true
        → All (λ z. before x z ≡ true) ys
        → All (λ z. before x z ≡ true) (insert_by before y ys)
    unfolding insert_by
    All-insert_by x y [] l h = (l, tt)
    All-insert_by x y (z ∷ ys) l h = elim (Bool-cases (before y z)) [
      | inl e ↦ rw (e, insert_by) (l, h)
      | inr e ↦ rw (e, insert_by) (h.0, All-insert_by x y ys l h.1)
    ]

    insert_by-IsSorted :
        (x : A) (xs : List A) → IsSorted before xs → IsSorted before (insert_by before x xs)
    unfolding insert_by
    insert_by-IsSorted x [] h = (tt, tt)
    insert_by-IsSorted x (y ∷ ys) h = elim (Bool-cases (before x y)) [
      | inl e ↦ rw (e, insert_by) ((e, All-through x y ys e h.0), h)
      | inr e ↦
          rw (e, insert_by) (All-insert_by y x ys (total x y e) h.0, insert_by-IsSorted x ys h.1)
    ]

    pub sort_by-IsSorted : (xs : List A) → IsSorted before (sort_by before xs)
    unfolding sort_by
    sort_by-IsSorted [] = tt
    sort_by-IsSorted (x ∷ xs) = insert_by-IsSorted x (sort_by before xs) (sort_by-IsSorted xs)
