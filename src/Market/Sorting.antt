-- ===== src/Market/Sorting.antt =====
-- `sorted` of a list of numbers, by insertion, and the middle of a sorted list.
use rafuk.Base.{
  ℕ, zero, suc, ◌≤◌, ◌<◌, Bool, ◌≡◌, refl, List, [], ◌∷◌, leb, length, keep, All, arith,
  if◌then◌else◌, Bool-cases, inl, inr,
}

unfoldable pub insert : ℕ → List ℕ → List ℕ
insert x [] = x ∷ []
insert x (y ∷ ys) = if leb x y then x ∷ y ∷ ys else y ∷ insert x ys

unfoldable pub sort : List ℕ → List ℕ
unfolding insert
sort [] = []
sort (x ∷ xs) = insert x (sort xs)

-- `data[i]`; out of range it is 0, which no caller reads
unfoldable pub nth : List ℕ → ℕ → ℕ
nth [] i = 0
nth (x ∷ xs) zero = x
nth (x ∷ xs) (suc i) = nth xs i

abbrev pub IsSorted : List ℕ → Type 0
IsSorted [] = Unit
IsSorted (x ∷ xs) = All (λ y. x ≤ y) xs × IsSorted xs

All-le : (x y : ℕ) (xs : List ℕ) → x ≤ y → All (λ z. y ≤ z) xs → All (λ z. x ≤ z) xs
All-le x y [] l h = tt
All-le x y (z ∷ xs) l h = (omega arith, All-le x y xs l h.1)

All-insert : (x y : ℕ) (ys : List ℕ) → x ≤ y → All (λ z. x ≤ z) ys → All (λ z. x ≤ z) (insert y ys)
unfolding insert
All-insert x y [] l h = (l, tt)
All-insert x y (z ∷ ys) l h = ground (arith, All-insert x y ys l)

pub insert-IsSorted : (x : ℕ) (xs : List ℕ) → IsSorted xs → IsSorted (insert x xs)
unfolding insert
insert-IsSorted x [] h = (tt, tt)
insert-IsSorted x (y ∷ ys) h =
    ground (arith, insert-IsSorted x ys, All-insert y x ys, All-le x y ys)

pub sort-IsSorted : (xs : List ℕ) → IsSorted (sort xs)
unfolding sort
sort-IsSorted [] = tt
sort-IsSorted (x ∷ xs) = insert-IsSorted x (sort xs) (sort-IsSorted xs)

pub length-insert : (x : ℕ) (xs : List ℕ) → length (insert x xs) ≡ suc (length xs)
unfolding insert
length-insert x [] = refl
length-insert x (y ∷ ys) = ground (arith, length-insert x ys)

pub length-sort : (xs : List ℕ) → length (sort xs) ≡ length xs
unfolding sort
length-sort [] = refl
length-sort (x ∷ xs) = omega (arith, length-insert x (sort xs), length-sort xs)

-- A number that is below all goes to the front.
insert-below : (x : ℕ) (xs : List ℕ) → All (λ z. x ≤ z) xs → insert x xs ≡ x ∷ xs
unfolding insert
insert-below x [] h = refl
insert-below x (y ∷ ys) h = ground arith

keep-All : (p : ℕ → Bool) (x : ℕ) (xs : List ℕ) → All (λ z. x ≤ z) xs → All (λ z. x ≤ z) (keep p xs)
unfolding keep
keep-All p x [] h = tt
keep-All p x (y ∷ ys) h = ground (arith, keep-All p x ys)

keep-insert :
    (p : ℕ → Bool) (x : ℕ) (xs : List ℕ)
    → IsSorted xs
    → keep p (insert x xs) ≡ (if p x then insert x (keep p xs) else keep p xs)
unfolding insert keep
keep-insert p x [] h = ground arith
keep-insert p x (y ∷ ys) h =
    let below = λ (l : x ≤ y). insert-below x (keep p ys) (keep-All p x ys (All-le x y ys l h.0)) in
    elim (Bool-cases (leb x y)) [
      | inl l ↦ ground (arith, l, below (ground arith))
      | inr g ↦ ground (arith, g, keep-insert p x ys h.1)
    ]

pub sort-keep : (p : ℕ → Bool) (xs : List ℕ) → sort (keep p xs) ≡ keep p (sort xs)
unfolding sort keep
sort-keep p [] = refl
sort-keep p (x ∷ xs) = ground (arith, sort-keep p xs, keep-insert p x (sort xs) (sort-IsSorted xs))

-- In a sorted list, the next number is not smaller.
pub nth-next :
    (x : ℕ) (xs : List ℕ) (i : ℕ) → IsSorted (x ∷ xs) → i < length xs → nth (x ∷ xs) i ≤ nth xs i
unfolding nth
nth-next x [] i h l = absurd (omega arith)
nth-next x (y ∷ ys) zero h l = h.0.0
nth-next x (y ∷ ys) (suc i) h l = nth-next y ys i h.1 (omega arith)
