-- ===== src/Market/Prices/Cutoff.antt =====
-- Dropping placeholder prices ends, and what it drops.
use rafuk.Base.{
  ℕ, zero, suc, ◌+◌, ◌-◌, ◌*◌, ◌/◌, ◌%◌, ◌==◌, ◌≤◌, ◌<◌, Bool, ◌≡◌, ◌≢◌, refl, sym, ◌∙◌, ap, Option,
  some, List, [], ◌∷◌, ltb, length, keep, All, arith, Bool-cases, inl, inr, length-keep-le,
}
use rafuk.Market.Sorting.{sort, nth, IsSorted, sort-IsSorted, sort-keep, nth-next}
use rafuk.Market.Prices.{middle, doubled_median, reaches, split_loop, split_low_outliers}

half-even : (n : ℕ) → n % 2 ≡ 0 → 0 < n → (n - 1) / 2 ≡ n / 2 - 1
half-even n h l = omega arith

half-odd : (n : ℕ) → n % 2 ≢ 0 → (n - 1) / 2 ≡ n / 2
half-odd n h = omega arith

-- The middle by both neighbours of the centre.
pub middle_lem :
    (xs : List ℕ)
    → 0 < length xs
    → middle xs ≡ nth xs (length xs / 2) + nth xs ((length xs - 1) / 2)
unfolding middle
middle_lem xs h = elim (Bool-cases (length xs % 2 == 0)) [
  | inl e ↦ rw (e, half-even (length xs) (ground (arith, e)) h) (omega arith)
  | inr e ↦ rw (e, half-odd (length xs) (ground (arith, e))) (omega arith)
]

half-suc : (n : ℕ) → (suc (suc n)) / 2 ≡ suc (n / 2)
half-suc n = omega arith

minus-one : (n : ℕ) → suc n - 1 ≡ n
minus-one n = omega arith

middle_two :
    (x y : ℕ) (ys : List ℕ)
    → middle (x ∷ y ∷ ys) ≡ nth (y ∷ ys) (length ys / 2) + nth (x ∷ y ∷ ys) (suc (length ys) / 2)
unfolding nth
middle_two x y ys =
    rw (middle_lem (x ∷ y ∷ ys) (omega arith), half-suc (length ys), minus-one (suc (length ys)))
      refl

middle_one :
    (y : ℕ) (ys : List ℕ)
    → middle (y ∷ ys) ≡ nth (y ∷ ys) (suc (length ys) / 2) + nth (y ∷ ys) (length ys / 2)
middle_one y ys = rw (middle_lem (y ∷ ys) (omega arith), minus-one (length ys)) (omega arith)

-- Dropping the least number of a sorted list does not lower the middle.
middle-tail :
    (x y : ℕ) (ys : List ℕ) → IsSorted (x ∷ y ∷ ys) → middle (x ∷ y ∷ ys) ≤ middle (y ∷ ys)
unfolding nth
middle-tail x y ys h =
    let n = length ys in
    omega
      (arith, middle_two x y ys, middle_one y ys, nth-next x (y ∷ ys) (suc n / 2) h (omega arith))

keep-reaches_least :
    (c x : ℕ) (xs : List ℕ) → c ≤ 8 * x → All (λ y. x ≤ y) xs → keep (reaches c) xs ≡ xs
unfolding keep
keep-reaches_least c x [] l h = refl
keep-reaches_least c x (y ∷ ys) l h = ground (arith, keep-reaches_least c x ys l h.1)

le_through : (c a b d : ℕ) → c ≤ a → a ≤ b → (c ≤ b → b ≤ d) → a ≤ d
le_through c a b d l m rest = omega (arith, rest (omega arith))

pub middle_single : (x : ℕ) → middle (x ∷ []) ≡ 2 * x
unfolding middle nth
middle_single x = refl

-- What lies below the middle can be dropped without lowering it.
middle-keep :
    (c : ℕ) (xs : List ℕ) → IsSorted xs → c ≤ middle xs → middle xs ≤ middle (keep (reaches c) xs)
unfolding keep
middle-keep c [] h l = omega arith
middle-keep c (x ∷ []) h l = elim (Bool-cases (reaches c x)) [
  | inl e ↦ rw e (omega arith)
  | inr e ↦ absurd (ground (arith, e, middle_single x))
]
middle-keep c (x ∷ y ∷ ys) h l = elim (Bool-cases (reaches c x)) [
  | inl e ↦
      rw (keep-reaches_least c x (x ∷ y ∷ ys) (ground (arith, e)) (omega arith, h.0)) (omega arith)
  | inr e ↦ rw e (le_through c _ _ _ l (middle-tail x y ys h) (middle-keep c (y ∷ ys) h.1))
]

keep-reaches_twice :
    (c d : ℕ) (xs : List ℕ) → c ≤ d → keep (reaches d) (keep (reaches c) xs) ≡ keep (reaches d) xs
unfolding keep
keep-reaches_twice c d [] l = refl
keep-reaches_twice c d (x ∷ xs) l = ground (arith, keep-reaches_twice c d xs l)

keep-length : (p : ℕ → Bool) (xs : List ℕ) → length (keep p xs) ≡ length xs → keep p xs ≡ xs
unfolding keep
keep-length p [] h = refl
keep-length p (x ∷ xs) h = ground (arith, keep-length p xs, length-keep-le p xs)

doubled_median-keep :
    (c : ℕ) (xs : List ℕ)
    → c ≤ doubled_median xs
    → doubled_median xs ≤ doubled_median (keep (reaches c) xs)
unfolding doubled_median
doubled_median-keep c xs l =
    rw (sort-keep (reaches c) xs) (middle-keep c (sort xs) (sort-IsSorted xs) l)

-- The kept prices are those that reach the last cutoff, which is a quarter of their median.
abbrev pub IsSplit : List ℕ → Option (List ℕ × ℕ) → Type 0
IsSplit prices r =
    (d : ℕ) × (r ≡ some (keep (reaches d) prices, d))
    × (d ≡ doubled_median (keep (reaches d) prices))

stop :
    (d : ℕ) (kept prices : List ℕ)
    → kept ≡ keep (reaches d) prices
    → d ≡ doubled_median kept
    → IsSplit prices (some (kept, d))
stop d kept prices e h = (d, ap (λ ks. some (ks, d)) e, h ∙ ap doubled_median e)

-- With fuel for each price that is left, the loop returns.
split_loop-IsSplit :
    (fuel c : ℕ) (prices : List ℕ)
    → length (keep (reaches c) prices) < fuel
    → c ≤ doubled_median (keep (reaches c) prices)
    → IsSplit prices (split_loop fuel (keep (reaches c) prices))
unfolding split_loop
split_loop-IsSplit zero c prices l h = absurd (omega arith)
split_loop-IsSplit (suc fuel) c prices l h =
    let kept = keep (reaches c) prices in
    let d = doubled_median kept in
    let again = keep-reaches_twice c d prices h in
    elim (Bool-cases (length (keep (reaches d) kept) == length kept)) [
      | inl same ↦ rw same (
          stop d kept prices (sym (keep-length (reaches d) kept (ground (arith, same))) ∙ again)
            refl)
      | inr fewer ↦ rw fewer (
          rw again (
            split_loop-IsSplit fuel d prices
              (rw (← again) (ground (arith, fewer, length-keep-le (reaches d) kept)))
              (rw (← again) (doubled_median-keep d kept (omega arith)))))
    ]

keep-reaches_zero : (prices : List ℕ) → keep (reaches 0) prices ≡ prices
unfolding keep
keep-reaches_zero [] = refl
keep-reaches_zero (x ∷ prices) = ground (arith, keep-reaches_zero prices)

split_loop_whole : (prices : List ℕ) → IsSplit prices (split_loop (suc (length prices)) prices)
split_loop_whole prices =
    let all = keep-reaches_zero prices in
    let h =
      split_loop-IsSplit (suc (length prices)) 0 prices (rw all (omega arith)) (omega arith) in
    rw all at h

-- The split of any prices returns. It keeps the prices that are not below a cutoff, in their order, and
-- with four prices or more the cutoff is a quarter of the median of what it keeps.
pub split_low_outliers-keep :
    (prices : List ℕ)
    → (cutoff : ℕ) × (split_low_outliers prices ≡ some (keep (reaches cutoff) prices, cutoff))
      × (4 ≤ length prices → cutoff ≡ doubled_median (keep (reaches cutoff) prices))
unfolding split_low_outliers
split_low_outliers-keep prices =
    let all = keep-reaches_zero prices in
    elim (Bool-cases (ltb (length prices) 4)) [
      | inl few ↦ rw few (0, ap (λ ks. some (ks, 0)) (sym all), λ l. absurd (ground (arith, few)))
      | inr many ↦ rw many (let (d, e, h) = split_loop_whole prices in (d, e, λ l. h))
    ]
