-- ===== src/Market/Margins/Bounds.antt =====
-- What the estimates and the liquidity promise.
use rafuk.Base.{
  ℕ, ◌*◌, ◌≤◌, ◌≡◌, ◌||◌, Option, none, some, List, [], ◌∷◌, length, length-keep-le, arith, ◌==◌,
  Bool-cases, inl, inr,
}
use rafuk.Market.TextLib.{TextLib}
use rafuk.Market.Ad.{Ad}
use rafuk.Market.Prices.{PriceStats, compute_price_stats}
use rafuk.Market.Prices.Quartiles.{compute_price_stats-IsOrdered}
use rafuk.Market.Deals.{ad_price_byn}
use rafuk.Market.Filters.{is_placeholder_price}
use rafuk.Market.Margins.{
  FlipEstimate, rounded, build, quick_target, market_target, optimal_target, estimates_at,
  compute_flip_estimates, careful, insight_of, fresh_count_of, deal_count_of,
  compute_liquidity_insight,
}

-- From one estimate to the next the target does not fall.
abbrev pub AreRising : List FlipEstimate → Type 0
AreRising [] = Unit
AreRising (e ∷ []) = Unit
AreRising (e ∷ f ∷ es) = (e.target_price ≤ f.target_price) × AreRising (f ∷ es)

rounded_mono : (a b : ℕ) → a ≤ b → rounded a 400 ≤ rounded b 400
unfolding rounded
rounded_mono a b h = omega arith

estimates-AreRising :
    (price : Option ℕ) (s : PriceStats) → s.q1 ≤ 2 * s.median → AreRising (estimates_at price s)
unfolding estimates_at build
estimates-AreRising none s h = tt
estimates-AreRising (some p) s h =
    elim (Bool-cases (s.count == 0 || is_placeholder_price (some p) s)) [
      | inl e ↦ rw e tt
      | inr e ↦ rw e (
        rounded_mono (quick_target s) (market_target s) (omega arith),
        (rounded_mono (market_target s) (optimal_target s) (omega arith), tt),
      )
    ]

-- With the statistics of any prices: the target of a quick sale is at most that of a sale at the market
-- price, and this one at most the optimal one, for every ad.
pub compute_flip_estimates-AreRising :
    (prices : List ℕ) (s : PriceStats) (ad : Ad)
    → compute_price_stats prices ≡ some s
    → AreRising (compute_flip_estimates ad s)
unfolding compute_flip_estimates
compute_flip_estimates-AreRising prices s ad h =
    estimates-AreRising (ad_price_byn ad) s (compute_price_stats-IsOrdered prices s h).lower

thin-careful :
    (total fresh_count deal_count count : ℕ)
    → total ≤ 4
    → fresh_count ≤ total
    → (insight_of total fresh_count deal_count count).label ≡ careful
unfolding insight_of
thin-careful total fresh_count deal_count count h k = ground arith

-- A market of at most four ads is never called liquid: the label says to be careful, however fresh
-- the ads are and however many of them are deals.
pub compute_liquidity_insight-careful :
    (lib : TextLib) (now : ℕ) (ads : List Ad) (s : PriceStats)
    → length ads ≤ 4
    → (compute_liquidity_insight lib now ads s).label ≡ careful
unfolding compute_liquidity_insight
compute_liquidity_insight-careful lib now ads s h =
    thin-careful (length ads) (fresh_count_of lib now ads) (deal_count_of ads s) s.count h
      (length-keep-le _ ads)
