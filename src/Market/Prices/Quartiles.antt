-- ===== src/Market/Prices/Quartiles.antt =====
-- The quartiles lie on both sides of the median.
use rafuk.Base.{
  ℕ, zero, suc, ◌+◌, ◌-◌, ◌*◌, ◌/◌, ◌%◌, ◌≤◌, ◌<◌, ◌≡◌, min, some, List, [], ◌∷◌, All, length,
  arith, Option-cases, inl, inr,
}
use rafuk.Market.Sorting.{sort, nth, IsSorted, sort-IsSorted}
use rafuk.Market.Prices.{
  middle, percentile, PriceStats, stats_of, split_low_outliers, compute_price_stats,
}
use rafuk.Market.Prices.Cutoff.{middle_lem}

nth-All : (x : ℕ) (xs : List ℕ) (j : ℕ) → All (λ y. x ≤ y) xs → j < length xs → x ≤ nth xs j
unfolding nth
nth-All x [] j h l = absurd (omega arith)
nth-All x (y ∷ ys) zero h l = h.0
nth-All x (y ∷ ys) (suc j) h l = nth-All x ys j h.1 (omega arith)

-- A sorted list rises with the index.
nth_mono : (xs : List ℕ) (i j : ℕ) → IsSorted xs → i ≤ j → j < length xs → nth xs i ≤ nth xs j
unfolding nth
nth_mono [] i j h l k = absurd (omega arith)
nth_mono (x ∷ xs) zero zero h l k = omega arith
nth_mono (x ∷ xs) zero (suc j) h l k = nth-All x xs j h.0 (omega arith)
nth_mono (x ∷ xs) (suc i) zero h l k = absurd (omega arith)
nth_mono (x ∷ xs) (suc i) (suc j) h l k = nth_mono xs i j h.1 (omega arith) (omega arith)

-- A quarter way between two numbers.
between :
    (r low high : ℕ)
    → r < 4
    → low ≤ high
    → (4 * low ≤ 4 * low + r * (high - low)) × (4 * low + r * (high - low) ≤ low + 3 * high)
between zero low high h l = omega arith
between (suc zero) low high h l = omega arith
between (suc (suc zero)) low high h l = omega arith
between (suc (suc (suc zero))) low high h l = omega arith
between (suc (suc (suc (suc r)))) low high h l = absurd (omega arith)

-- The median lies between the quartiles of a list that is sorted.
module _ (x y z : ℕ) (rest : List ℕ) (sorted : IsSorted (x ∷ y ∷ z ∷ rest)) where
  lower_quartile : percentile 1 (x ∷ y ∷ z ∷ rest) ≤ 2 * middle (x ∷ y ∷ z ∷ rest)
  unfolding percentile
  lower_quartile =
      let xs : List ℕ = x ∷ y ∷ z ∷ rest in
      let n : ℕ = length xs in
      let a : ℕ = (n - 1) * 1 / 4 in
      let next : ℕ = min (a + 1) (n - 1) in
      rw (middle_lem xs (omega arith)) (
        omega (
          arith,
          between ((n - 1) * 1 % 4) (nth xs a) (nth xs next) (omega arith)
              (nth_mono xs a next sorted (omega arith) (omega arith)),
          nth_mono xs a ((n - 1) / 2) sorted (omega arith) (omega arith),
          nth_mono xs next ((n - 1) / 2) sorted (omega arith) (omega arith),
          nth_mono xs ((n - 1) / 2) (n / 2) sorted (omega arith) (omega arith),
        ))

  upper_quartile : 2 * middle (x ∷ y ∷ z ∷ rest) ≤ percentile 3 (x ∷ y ∷ z ∷ rest)
  unfolding percentile
  upper_quartile =
      let xs : List ℕ = x ∷ y ∷ z ∷ rest in
      let n : ℕ = length xs in
      let a : ℕ = (n - 1) * 3 / 4 in
      let next : ℕ = min (a + 1) (n - 1) in
      rw (middle_lem xs (omega arith)) (
        omega (
          arith,
          between ((n - 1) * 3 % 4) (nth xs a) (nth xs next) (omega arith)
              (nth_mono xs a next sorted (omega arith) (omega arith)),
          nth_mono xs (n / 2) a sorted (omega arith) (omega arith),
          nth_mono xs ((n - 1) / 2) (n / 2) sorted (omega arith) (omega arith),
        ))

-- The quartiles and the median, in the units of the record.
pub record IsOrdered (s : PriceStats) : Type 0 where
  pub lower : s.q1 ≤ 2 * s.median
  pub upper : 2 * s.median ≤ s.q3

stats_of-IsOrdered : (xs : List ℕ) (cutoff : ℕ) → IsSorted xs → IsOrdered (stats_of xs cutoff)
unfolding stats_of percentile middle nth
stats_of-IsOrdered [] cutoff h = record { lower = omega arith; upper = omega arith }
stats_of-IsOrdered (x ∷ []) cutoff h = record { lower = omega arith; upper = omega arith }
stats_of-IsOrdered (x ∷ y ∷ []) cutoff h = record { lower = omega arith; upper = omega arith }
stats_of-IsOrdered (x ∷ y ∷ z ∷ rest) cutoff h = record {
  lower = lower_quartile x y z rest h;
  upper = upper_quartile x y z rest h;
}

-- In the statistics that `compute_price_stats` returns, the first quartile is at most the median, and
-- the median at most the third quartile.
pub compute_price_stats-IsOrdered :
    (prices : List ℕ) (s : PriceStats) → compute_price_stats prices ≡ some s → IsOrdered s
unfolding compute_price_stats
compute_price_stats-IsOrdered prices s h = elim (Option-cases (split_low_outliers prices)) [
  | inl e ↦ absurd (ground (arith, e))
  | inr ((kept, cutoff), e) ↦
      let same : stats_of (sort kept) cutoff ≡ s = ground (arith, e) in
      rw (← same) (stats_of-IsOrdered (sort kept) cutoff (sort-IsSorted kept))
]
