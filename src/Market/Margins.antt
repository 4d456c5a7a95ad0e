-- ===== src/Market/Margins.antt =====
-- What a market promises a reseller: api/services/deal_workflow.py, and the bands of fair prices of
-- api/services/market_signals.py. Prices are kopecks, a median is doubled and a quartile is taken
-- four times; percents are whole hundredths.
pub mod Bounds
use rafuk.Base.{
  ℕ, ◌+◌, ◌-◌, ◌*◌, ◌/◌, ◌==◌, max, min, String, Bool, true, false, ◌&&◌, ◌||◌, Option, none, some,
  List, [], ◌∷◌, ◌++◌, ltb, leb, length, take, keep, if◌then◌else◌,
}
use rafuk.Base.Int.{ℤ, pos, negsuc, sub_ℕ}
use rafuk.Base.Time.{hours}
use rafuk.Market.TextLib.{TextLib}
use rafuk.Market.Ad.{Ad}
use rafuk.Market.Prices.{PriceStats}
use rafuk.Market.Params.{parse_list_time}
use rafuk.Market.Deals.{ad_price_byn, filter_deal_ads}
use rafuk.Market.Filters.{is_placeholder_price}
use rafuk.Market.Score.{listing_age}

pub data Band : Type 0 where
  below_market : Band
  fair : Band
  above_market : Band
  high : Band

-- `fair_price_band`, of a delta counted from minus a hundred percent
unfoldable pub fair_price_band : Option ℕ → Option Band
fair_price_band none = none
fair_price_band (some percent) =
    if leb percent 8_500
    then some below_market
    else if leb percent 11_200
    then some fair
    else if leb percent 13_000
    then some above_market
    else some high

-- `FlipEstimate`, for the labels "Быстро", "По рынку" and "Оптимально"
pub data Label : Type 0 where
  quick : Label
  market : Label
  optimal : Label

pub record FlipEstimate : Type 0 where
  pub label : Label
  pub target_price : ℕ
  pub profit_byn : ℤ
  pub profit_percent : ℤ

rounded : ℕ → ℕ → ℕ
rounded n d = (2 * n + d) / (2 * d)

-- `round((profit / price_byn) * 100.0, 2) if price_byn else 0.0`
percent_of_price : ℤ → ℕ → ℤ
unfolding rounded
percent_of_price (pos n) price = pos (if price == 0 then 0 else rounded (10_000 * n) price)
percent_of_price (negsuc n) price =
    sub_ℕ 0 (if price == 0 then 0 else rounded (10_000 * (n + 1)) price)

-- `build(label, target)`, where the target is taken 400 times
unfoldable pub build : ℕ → Label → ℕ → FlipEstimate
unfolding rounded percent_of_price
build price label target =
    let rounded_target = rounded target 400 in
    let profit = sub_ℕ rounded_target price in
    record {
      label = label;
      target_price = rounded_target;
      profit_byn = profit;
      profit_percent = percent_of_price profit price;
    }

-- `quick_target`, `market_target` and `optimal_target`, each 400 times
unfoldable pub quick_target : PriceStats → ℕ
quick_target s = max (100 * s.q1) (188 * s.median)

unfoldable pub market_target : PriceStats → ℕ
market_target s = 200 * s.median

unfoldable pub optimal_target : PriceStats → ℕ
optimal_target s = max (100 * s.q3) (212 * s.median)

estimates_at : Option ℕ → PriceStats → List FlipEstimate
unfolding build quick_target market_target optimal_target
estimates_at none s = []
estimates_at (some price) s =
    if s.count == 0 || is_placeholder_price (some price) s
    then []
    else build price quick (quick_target s)
      ∷ build price market (market_target s)
      ∷ build price optimal (optimal_target s)
      ∷ []

unfoldable pub compute_flip_estimates : Ad → PriceStats → List FlipEstimate
unfolding estimates_at
compute_flip_estimates ad s = estimates_at (ad_price_byn ad) s

-- What the code adds to the liquidity, takes off, and says.
pub data Remark : Type 0 where
  many_offers : Remark
  lively_market : Remark
  thin_market : Remark
  many_fresh : Remark
  some_fresh : Remark
  few_fresh : Remark
  cheap_lots_move : Remark
  few_deals : Remark
  small_sample : Remark

-- "Высокая", "Средняя", "Осторожно"
pub data Liquidity : Type 0 where
  lively : Liquidity
  average : Liquidity
  careful : Liquidity

pub record Part : Type 0 where
  pub plus : ℕ
  pub minus : ℕ
  pub says : List Remark

-- `LiquidityInsight`, the score in whole points: no part has a fraction
pub record LiquidityInsight : Type 0 where
  pub score : ℕ
  pub label : Liquidity
  pub reasons : List Remark

unfoldable pub offers_part : ℕ → Part
offers_part total =
    if leb 25 total
    then record { plus = 22; minus = 0; says = many_offers ∷ [] }
    else if leb 10 total
    then record { plus = 12; minus = 0; says = lively_market ∷ [] }
    else if leb total 4
    then record { plus = 0; minus = 10; says = thin_market ∷ [] }
    else record { plus = 0; minus = 0; says = [] }

unfoldable pub fresh_part : ℕ → Part
fresh_part n =
    if leb 8 n
    then record { plus = 18; minus = 0; says = many_fresh ∷ [] }
    else if leb 3 n
    then record { plus = 8; minus = 0; says = some_fresh ∷ [] }
    else record { plus = 0; minus = 8; says = few_fresh ∷ [] }

unfoldable pub deals_part : ℕ → ℕ → Part
deals_part n total =
    if leb 4 n
    then record { plus = 12; minus = 0; says = cheap_lots_move ∷ [] }
    else if n == 0 && ltb 0 total
    then record { plus = 0; minus = 6; says = few_deals ∷ [] }
    else record { plus = 0; minus = 0; says = [] }

unfoldable pub sample_part : ℕ → Part
sample_part count =
    if leb count 3
    then record { plus = 0; minus = 8; says = small_sample ∷ [] }
    else record { plus = 0; minus = 0; says = [] }

unfoldable pub label_of : ℕ → Liquidity
label_of score = if leb 72 score then lively else if leb 50 score then average else careful

-- The insight of the counts.
unfoldable pub insight_of : ℕ → ℕ → ℕ → ℕ → LiquidityInsight
unfolding offers_part fresh_part deals_part sample_part label_of
insight_of total fresh_count deal_count count =
    let a = offers_part total in
    let b = fresh_part fresh_count in
    let c = deals_part deal_count total in
    let d = sample_part count in
    let score =
      min 100 (35 + a.plus + b.plus + c.plus + d.plus - (a.minus + b.minus + c.minus + d.minus)) in
    record {
      score = score;
      label = label_of score;
      reasons = take 4 (a.says ++ (b.says ++ (c.says ++ d.says)));
    }

-- `age is not None and age <= 72`
is_fresh : Option ℕ → Bool
is_fresh none = false
is_fresh (some age) = leb age (hours 72)

unfoldable pub fresh_count_of : TextLib → ℕ → List Ad → ℕ
unfolding is_fresh listing_age
fresh_count_of lib now ads =
    length (keep (λ ad. is_fresh (listing_age now (parse_list_time lib ad.list_time))) ads)

-- `if market_stats.median`
unfoldable pub deal_count_of : List Ad → PriceStats → ℕ
deal_count_of ads s =
    if s.median == 0 then 0 else length (filter_deal_ads ads s.median 800 none (some s.low_cutoff))

unfoldable pub compute_liquidity_insight : TextLib → ℕ → List Ad → PriceStats → LiquidityInsight
unfolding insight_of fresh_count_of deal_count_of
compute_liquidity_insight lib now ads s =
    insight_of (length ads) (fresh_count_of lib now ads) (deal_count_of ads s) s.count
