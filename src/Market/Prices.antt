-- ===== src/Market/Prices.antt =====
-- Price statistics of api/services/aggregator.py. Prices are kopecks, and the numbers are exact: a median
-- is twice itself, a quartile four times itself, and a cutoff, a quarter of a median, eight times.
pub mod Cutoff
pub mod Quartiles
use rafuk.Base.{
  ℕ, zero, suc, ◌+◌, ◌-◌, ◌*◌, ◌/◌, ◌%◌, ◌==◌, Bool, true, false, Option, none, some, List, [], ◌∷◌,
  leb, ltb, min, length, keep, if◌then◌else◌,
}
use rafuk.Market.Ad.{Ad, normalize_price_byn}
use rafuk.Market.Sorting.{sort, nth}

-- `extract_prices`
unfoldable pub extract_prices : List Ad → List ℕ
extract_prices [] = []
extract_prices (ad ∷ ads) = elim (normalize_price_byn ad.price_byn) [
  | none ↦ extract_prices ads
  | some price ↦ price ∷ extract_prices ads
]

-- `statistics.median` of a sorted list, doubled
unfoldable pub middle : List ℕ → ℕ
middle data_sorted =
    let n = length data_sorted in
    if n % 2 == 0
    then nth data_sorted (n / 2 - 1) + nth data_sorted (n / 2)
    else 2 * nth data_sorted (n / 2)

unfoldable pub doubled_median : List ℕ → ℕ
unfolding middle
doubled_median prices = middle (sort prices)

-- `price >= cutoff`
abbrev pub reaches : ℕ → ℕ → Bool
reaches cutoff price = leb cutoff (8 * price)

-- The `while True` of `split_low_outliers`, with fuel; `none` means that the fuel ran out.
unfoldable pub split_loop : ℕ → List ℕ → Option (List ℕ × ℕ)
unfolding doubled_median
split_loop zero kept = none
split_loop (suc fuel) kept =
    let cutoff = doubled_median kept in
    let remaining = keep (reaches cutoff) kept in
    let rest = split_loop fuel remaining in
    if length remaining == length kept then some (kept, cutoff) else rest

-- `split_low_outliers`; every round but the last drops a price
unfoldable pub split_low_outliers : List ℕ → Option (List ℕ × ℕ)
unfolding split_loop
split_low_outliers prices =
    if ltb (length prices) 4 then some (prices, 0) else split_loop (suc (length prices)) prices

-- `_percentile` of a sorted list for `quarters` quarters of a hundred percent, four times
unfoldable pub percentile : ℕ → List ℕ → ℕ
percentile quarters [] = 0
percentile quarters (x ∷ []) = 4 * x
percentile quarters (x ∷ y ∷ prices) =
    let prices_sorted = x ∷ y ∷ prices in
    let k = (length prices_sorted - 1) * quarters in
    let low = nth prices_sorted (k / 4) in
    let high = nth prices_sorted (min (k / 4 + 1) (length prices_sorted - 1)) in
    4 * low + k % 4 * (high - low)

unfoldable pub total : List ℕ → ℕ
total [] = 0
total (x ∷ prices) = x + total prices

-- `PriceStats`: the mean is `total / count`.
pub record PriceStats : Type 0 where
  pub total_price : ℕ
  pub median : ℕ
  pub q1 : ℕ
  pub q3 : ℕ
  pub min_price : ℕ
  pub max_price : ℕ
  pub count : ℕ
  pub low_cutoff : ℕ

stats_of : List ℕ → ℕ → PriceStats
unfolding middle percentile total
stats_of [] cutoff = record {
  total_price = 0;
  median = 0;
  q1 = 0;
  q3 = 0;
  min_price = 0;
  max_price = 0;
  count = 0;
  low_cutoff = 0;
}
stats_of (x ∷ prices) cutoff = record {
  total_price = total (x ∷ prices);
  median = middle (x ∷ prices);
  q1 = percentile 1 (x ∷ prices);
  q3 = percentile 3 (x ∷ prices);
  min_price = nth (x ∷ prices) 0;
  max_price = nth (x ∷ prices) (length prices);
  count = suc (length prices);
  low_cutoff = cutoff;
}

-- `compute_price_stats` with placeholders dropped
unfoldable pub compute_price_stats : List ℕ → Option PriceStats
unfolding stats_of split_low_outliers
compute_price_stats prices = elim (split_low_outliers prices) [
  | none ↦ none
  | some (kept, cutoff) ↦ some (stats_of (sort kept) cutoff)
]
