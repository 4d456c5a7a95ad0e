-- ===== src/Market/Score.antt =====
-- How good a deal an ad is: `compute_deal_score` of api/services/reseller_tools.py and
-- `detect_anomaly_flags` of api/services/market_signals.py. Prices are kopecks, a median is doubled and
-- a quartile is taken four times; percents are whole hundredths, and scores whole thousandths until
-- they are rounded to tenths.
pub mod Rank
use rafuk.Base.{
  ℕ, ◌+◌, ◌-◌, ◌*◌, ◌/◌, ◌==◌, ◌≡◌, min, max, String, Bool, true, false, not, ◌&&◌, ◌||◌, Option,
  none, some, List, [], ◌∷◌, ◌++◌, ite, str_dec, ltb, leb, take, length, any, if◌then◌else◌,
}
use rafuk.Base.Time.{hours, minutes}
use rafuk.Market.TextLib.{TextLib}
use rafuk.Market.Ad.{Ad}
use rafuk.Market.Prices.{PriceStats}
use rafuk.Market.Params.{parse_list_time, ad_seller_type}
use rafuk.Market.Query.{contains}
use rafuk.Market.Deals.{ad_price_byn, percent_of}
use rafuk.Market.Filters.{is_placeholder_price}
use rafuk.Market.Insights.{PatternLib, QueryInsights, analyze_query_text}

pub data Flag : Type 0 where
  too_cheap : Flag
  too_expensive : Flag

flag_if : Bool → Flag → List Flag
flag_if true f = f ∷ []
flag_if false f = []

-- `price_byn < min(stats.q1 * 0.72, stats.median * 0.68)`
is_too_cheap : ℕ → PriceStats → Bool
is_too_cheap price s = ltb (400 * price) (72 * s.q1) && ltb (200 * price) (68 * s.median)

-- `price_byn > max(stats.q3 * 1.35, stats.median * 1.45)`
is_too_expensive : ℕ → PriceStats → Bool
is_too_expensive price s = ltb (135 * s.q3) (400 * price) && ltb (145 * s.median) (200 * price)

-- `detect_anomaly_flags`, of the price of an ad
unfoldable pub detect_anomaly_flags : Option ℕ → PriceStats → List Flag
unfolding flag_if is_too_cheap is_too_expensive
detect_anomaly_flags none s = []
detect_anomaly_flags (some price) s =
    if ltb s.count 4
    then []
    else flag_if (is_too_cheap price s) too_cheap
      ++ flag_if (is_too_expensive price s) too_expensive

-- The texts of the reasons; the percents and the sizes stand in them.
pub data Reason : Type 0 where
  no_price : Reason
  placeholder : Reason
  below_median : ℕ → Reason
  above_median : ℕ → Reason
  private_seller : Reason
  fresh_lot : Reason
  today : Reason
  fresh : Reason
  same_storage : ℕ → Reason
  has_duplicates : Reason
  has_anomalies : Reason

-- "Нет цены", "Забирать", "Смотреть", "Норм", "Мимо"
pub data Verdict : Type 0 where
  unpriced : Verdict
  take_it : Verdict
  look : Verdict
  fair : Verdict
  skip : Verdict

-- The score in tenths.
pub record DealScore : Type 0 where
  pub score : ℕ
  pub verdict : Verdict
  pub reasons : List Reason
  pub config_summary : Option String

-- What a part of the code adds to the score, takes off, and says; whole points.
pub record Points : Type 0 where
  pub plus : ℕ
  pub minus : ℕ
  pub says : List Reason

-- `listing_age_hours`, as microseconds; a quarter of an hour ahead of the clock is tolerated.
unfoldable pub listing_age : ℕ → Option ℕ → Option ℕ
listing_age now none = none
listing_age now (some t) = if ltb (now + minutes 15) t then none else some (now - t)

-- `_freshness_bonus`
unfoldable pub freshness_bonus : Option ℕ → Points
freshness_bonus none = record { plus = 0; minus = 0; says = [] }
freshness_bonus (some age) =
    if leb age (hours 6)
    then record { plus = 12; minus = 0; says = fresh_lot ∷ [] }
    else if leb age (hours 24)
    then record { plus = 8; minus = 0; says = today ∷ [] }
    else if leb age (hours 72)
    then record { plus = 4; minus = 0; says = fresh ∷ [] }
    else record { plus = 0; minus = 0; says = [] }

-- `if wanted and offered`, equal or not; 0 is false
compare_sizes : Option ℕ → Option ℕ → Option Bool
compare_sizes (some a) (some b) = if a == 0 || b == 0 then none else some (a == b)
compare_sizes a b = none

storage_points : Option Bool → Option ℕ → Points
storage_points (some true) (some gb) = record { plus = 8; minus = 0; says = same_storage gb ∷ [] }
storage_points (some false) gb = record { plus = 0; minus = 8; says = [] }
storage_points same gb = record { plus = 0; minus = 0; says = [] }

ram_points : Option Bool → Points
ram_points (some true) = record { plus = 4; minus = 0; says = [] }
ram_points (some false) = record { plus = 0; minus = 6; says = [] }
ram_points none = record { plus = 0; minus = 0; says = [] }

-- `query_tokens and query_tokens.issubset(title_tokens)`
covers : List String → List String → Bool
covers [] tokens = true
covers (w ∷ words) tokens = contains tokens w && covers words tokens

token_points : List String → List String → Points
unfolding covers
token_points [] tokens = record { plus = 0; minus = 0; says = [] }
token_points (w ∷ words) tokens = record {
  plus = if covers (w ∷ words) tokens then 6 else 0;
  minus = 0;
  says = [];
}

unfoldable pub add_points : Points → Points → Points
add_points p q = record {
  plus = p.plus + q.plus;
  minus = p.minus + q.minus;
  says = p.says ++ q.says;
}

-- The bonus of `profile_match_bonus`, from the insights of the query and of the title
unfoldable pub profile_match_bonus : QueryInsights → QueryInsights → Points
unfolding compare_sizes storage_points ram_points token_points add_points
profile_match_bonus query title =
    ite (str_dec query.normalized_query "") (record { plus = 0; minus = 0; says = [] })
      (add_points
        (storage_points (compare_sizes query.storage_gb title.storage_gb) title.storage_gb)
        (add_points (ram_points (compare_sizes query.ram_gb title.ram_gb))
          (token_points query.model_tokens title.model_tokens)))

-- The part of the price, in thousandths.
unfoldable pub price_points : Bool → ℕ → Points
price_points true percent = record { plus = 0; minus = 0; says = placeholder ∷ [] }
price_points false percent =
    if ltb percent 10_000
    then record {
      plus = min (15 * (10_000 - percent)) 30_000;
      minus = 0;
      says = below_median (10_000 - percent) ∷ [];
    }
    else if ltb 10_000 percent
    then record {
      plus = 0;
      minus = min (12 * (percent - 10_000)) 24_000;
      says = above_median (percent - 10_000) ∷ [];
    }
    else record { plus = 0; minus = 0; says = [] }

seller_points : Option String → Points
seller_points none = record { plus = 0; minus = 0; says = [] }
seller_points (some kind) =
    ite (str_dec kind "private") (record { plus = 8; minus = 0; says = private_seller ∷ [] })
      (ite (str_dec kind "shop") (record { plus = 0; minus = 2; says = [] })
        (record { plus = 0; minus = 0; says = [] }))

duplicate_points : ℕ → Points
duplicate_points n =
    if n == 0
    then record { plus = 0; minus = 0; says = [] }
    else record { plus = 0; minus = min (n * 10) 20; says = has_duplicates ∷ [] }

anomaly_points : List Flag → Points
anomaly_points [] = record { plus = 0; minus = 0; says = [] }
anomaly_points (f ∷ flags) = record {
  plus = 0;
  minus = min (length (f ∷ flags) * 12) 24;
  says = has_anomalies ∷ [];
}

-- The score, at most 40 for a placeholder, clamped to 0..100 and rounded to tenths.
unfoldable pub rounded_score : Bool → ℕ → ℕ → ℕ
rounded_score is_placeholder plus minus =
    let score = plus - minus in
    (min 100_000 (if is_placeholder then min score 40_000 else score) + 50) / 100

unfoldable pub verdict_of : ℕ → Verdict
verdict_of score =
    if leb 780 score
    then take_it
    else if leb 620 score
    then look
    else if leb 450 score
    then fair
    else skip

-- `str(ad.get("subject") or "")`
unfoldable pub title_of : Ad → String
title_of ad = elim ad.subject [ none ↦ "" | some s ↦ s ]

module _ (lib : TextLib) (patterns : PatternLib) (now : ℕ) where
  -- What the code adds up after the price, in its order.
  unfoldable pub other_points :
      Ad → QueryInsights → QueryInsights → Option ℕ → PriceStats → ℕ → Points
  unfolding seller_points freshness_bonus profile_match_bonus duplicate_points anomaly_points
      add_points detect_anomaly_flags listing_age
  other_points ad query title price stats duplicates =
      add_points (seller_points (ad_seller_type lib ad)) (
        add_points (freshness_bonus (listing_age now (parse_list_time lib ad.list_time))) (
          add_points (profile_match_bonus query title) (
            add_points (duplicate_points duplicates)
              (anomaly_points (detect_anomaly_flags price stats)))))

  unfoldable pub score_from : Bool → Points → Points → Option String → DealScore
  unfolding rounded_score verdict_of
  score_from is_placeholder price other summary =
      let score =
        rounded_score is_placeholder (55_000 + price.plus + 1000 * other.plus)
          (price.minus + 1000 * other.minus) in
      record {
        score = score;
        verdict = verdict_of score;
        reasons = take 4 (price.says ++ other.says);
        config_summary = summary;
      }

  scored : Ad → QueryInsights → QueryInsights → PriceStats → ℕ → Option ℕ → DealScore
  unfolding score_from other_points price_points
  scored ad query title stats duplicates none = record {
    score = 0;
    verdict = unpriced;
    reasons = no_price ∷ [];
    config_summary = title.config_summary;
  }
  scored ad query title stats duplicates (some price) =
      score_from (is_placeholder_price (some price) stats)
        (price_points (is_placeholder_price (some price) stats) (percent_of price stats.median))
        (other_points ad query title (some price) stats duplicates) title.config_summary

  -- `compute_deal_score`; a reason is never said twice, so that none is dropped as a repetition
  unfoldable pub compute_deal_score : Ad → String → PriceStats → ℕ → DealScore
  unfolding scored title_of
  compute_deal_score ad query stats duplicates =
      scored ad (analyze_query_text lib patterns query)
        (analyze_query_text lib patterns (title_of ad)) stats duplicates (ad_price_byn ad)
