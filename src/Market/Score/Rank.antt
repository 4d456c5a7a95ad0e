-- ===== src/Market/Score/Rank.antt =====
-- What the score of a deal promises.
use rafuk.Base.{
  ℕ, ◌+◌, ◌*◌, ◌/◌, ◌≤◌, ◌<◌, ◌≡◌, refl, String, Bool, true, false, Option, none, some, arith, ◌==◌,
  Bool-cases, inl, inr,
}
use native.Mathlib.Nat.{le-div_iff_mul-le, div-mul-le_self}
use rafuk.Market.TextLib.{TextLib}
use rafuk.Market.Ad.{Ad}
use rafuk.Market.Prices.{PriceStats}
use rafuk.Market.Deals.{ad_price_byn, percent_of}
use rafuk.Market.Filters.{is_placeholder_price}
use rafuk.Market.Insights.{PatternLib, QueryInsights, analyze_query_text}
use rafuk.Market.Score.{
  Points, skip, price_points, rounded_score, verdict_of, score_from, scored, other_points, title_of,
  compute_deal_score,
}

rounded_score-le : (b : Bool) (plus minus : ℕ) → rounded_score b plus minus ≤ 1000
unfolding rounded_score
rounded_score-le true plus minus = omega arith
rounded_score-le false plus minus = omega arith

placeholder-le : (plus minus : ℕ) → rounded_score true plus minus ≤ 400
unfolding rounded_score
placeholder-le plus minus = omega arith

low-skip : (score : ℕ) → score ≤ 400 → verdict_of score ≡ skip
unfolding verdict_of
low-skip score h = ground arith

rounded_score_mono :
    (plus minus plus' minus' : ℕ)
    → plus ≤ plus'
    → minus' ≤ minus
    → rounded_score false plus minus ≤ rounded_score false plus' minus'
unfolding rounded_score
rounded_score_mono plus minus plus' minus' h k = omega arith

-- A cheaper price adds at least as much.
cheaper-plus : (p q : ℕ) → p ≤ q → (price_points false q).plus ≤ (price_points false p).plus
unfolding price_points
cheaper-plus p q h = ground arith

cheaper-minus : (p q : ℕ) → p ≤ q → (price_points false p).minus ≤ (price_points false q).minus
unfolding price_points
cheaper-minus p q h = ground arith

div_mono : (a b k : ℕ) → 0 < k → a ≤ b → a / k ≤ b / k
div_mono a b k pos h = (le-div_iff_mul-le pos).1 (omega (arith, div-mul-le_self a k))

pub percent_mono : (p q median : ℕ) → p ≤ q → percent_of p median ≤ percent_of q median
unfolding percent_of
percent_mono p q median h = elim (Bool-cases (median == 0)) [
  | inl e ↦ rw e (omega arith)
  | inr e ↦ rw e (
      div_mono (40_000 * p + median) (40_000 * q + median) (2 * median) (ground arith)
        (omega arith))
]

same_title : (a b : Ad) → a.subject ≡ b.subject → title_of a ≡ title_of b
unfolding title_of
same_title a b h = rw h refl

score_from-placeholder :
    (lib : TextLib) (patterns : PatternLib) (now : ℕ) (price other : Points)
    (summary : Option String)
    → ((score_from lib patterns now true price other summary).score ≤ 400)
      × ((score_from lib patterns now true price other summary).verdict ≡ skip)
unfolding score_from
score_from-placeholder lib patterns now price other summary =
    let plus : ℕ = 55_000 + price.plus + 1000 * other.plus in
    let minus : ℕ = price.minus + 1000 * other.minus in
    (
      placeholder-le plus minus,
      low-skip (rounded_score true plus minus) (placeholder-le plus minus),
    )

score_from_mono :
    (lib : TextLib) (patterns : PatternLib) (now : ℕ) (price price' other other' : Points)
    (summary : Option String)
    → other' ≡ other
    → price.plus ≤ price'.plus
    → price'.minus ≤ price.minus
    → (score_from lib patterns now false price other summary).score
      ≤ (score_from lib patterns now false price' other' summary).score
unfolding score_from
score_from_mono lib patterns now price price' other other' summary same h k = rw same (
    rounded_score_mono (55_000 + price.plus + 1000 * other.plus) (price.minus + 1000 * other.minus)
      (55_000 + price'.plus + 1000 * other.plus) (price'.minus + 1000 * other.minus) (omega arith)
      (omega arith))

module _ (lib : TextLib) (patterns : PatternLib) (now : ℕ) where
  scored-le :
      (ad : Ad) (query title : QueryInsights) (stats : PriceStats) (duplicates : ℕ)
      (price : Option ℕ)
      → (scored lib patterns now ad query title stats duplicates price).score ≤ 1000
  unfolding scored score_from
  scored-le ad query title stats duplicates none = omega arith
  scored-le ad query title stats duplicates (some p) =
      rounded_score-le (is_placeholder_price (some p) stats) _ _

  -- The score of an ad lies between 0 and 100 points.
  pub compute_deal_score-le :
      (ad : Ad) (query : String) (stats : PriceStats) (duplicates : ℕ)
      → (compute_deal_score lib patterns now ad query stats duplicates).score ≤ 1000
  unfolding compute_deal_score
  compute_deal_score-le ad query stats duplicates =
      scored-le ad (analyze_query_text lib patterns query)
        (analyze_query_text lib patterns (title_of ad)) stats duplicates (ad_price_byn ad)

  scored-placeholder :
      (ad : Ad) (query title : QueryInsights) (stats : PriceStats) (duplicates price : ℕ)
      → is_placeholder_price (some price) stats ≡ true
      → ((scored lib patterns now ad query title stats duplicates (some price)).score ≤ 400)
        × ((scored lib patterns now ad query title stats duplicates (some price)).verdict ≡ skip)
  unfolding scored
  scored-placeholder ad query title stats duplicates price h = rw h (
      score_from-placeholder lib patterns now (price_points true (percent_of price stats.median))
        (other_points lib patterns now ad query title (some price) stats duplicates)
        title.config_summary)

  -- A placeholder price is never called a good deal: whatever else speaks for the ad, its score is at
  -- most 40 points, and the verdict is the lowest.
  pub compute_deal_score-placeholder :
      (ad : Ad) (query : String) (stats : PriceStats) (duplicates price : ℕ)
      → ad_price_byn ad ≡ some price
      → is_placeholder_price (some price) stats ≡ true
      → ((compute_deal_score lib patterns now ad query stats duplicates).score ≤ 400)
        × ((compute_deal_score lib patterns now ad query stats duplicates).verdict ≡ skip)
  unfolding compute_deal_score
  compute_deal_score-placeholder ad query stats duplicates price e h = rw e (
      scored-placeholder ad (analyze_query_text lib patterns query)
        (analyze_query_text lib patterns (title_of ad)) stats duplicates price h)

  scored_mono :
      (ad cheap : Ad) (query title : QueryInsights) (stats : PriceStats) (duplicates p q : ℕ)
      → p ≤ q
      → is_placeholder_price (some p) stats ≡ false
      → is_placeholder_price (some q) stats ≡ false
      → other_points lib patterns now cheap query title (some p) stats duplicates
        ≡ other_points lib patterns now ad query title (some q) stats duplicates
      → (scored lib patterns now ad query title stats duplicates (some q)).score
        ≤ (scored lib patterns now cheap query title stats duplicates (some p)).score
  unfolding scored
  scored_mono ad cheap query title stats duplicates p q h np nq same =
      let by = percent_mono p q stats.median h in
      rw (np, nq)
        (score_from_mono lib patterns now (price_points false (percent_of q stats.median))
          (price_points false (percent_of p stats.median))
          (other_points lib patterns now ad query title (some q) stats duplicates)
          (other_points lib patterns now cheap query title (some p) stats duplicates)
          title.config_summary same
          (cheaper-plus (percent_of p stats.median) (percent_of q stats.median) by)
          (cheaper-minus (percent_of p stats.median) (percent_of q stats.median) by))

  -- Of two ads of one title whose prices are no placeholders, the cheaper one scores at least as high, if
  -- what the code adds up beside the price is the same for both.
  pub compute_deal_score_mono :
      (ad cheap : Ad) (query : String) (stats : PriceStats) (duplicates p q : ℕ)
      → cheap.subject ≡ ad.subject
      → ad_price_byn ad ≡ some q
      → ad_price_byn cheap ≡ some p
      → p ≤ q
      → is_placeholder_price (some p) stats ≡ false
      → is_placeholder_price (some q) stats ≡ false
      → other_points lib patterns now cheap
          (analyze_query_text lib patterns query)
          (analyze_query_text lib patterns (title_of ad))
          (some p)
          stats
          duplicates
        ≡ other_points lib patterns now ad
            (analyze_query_text lib patterns query)
            (analyze_query_text lib patterns (title_of ad))
            (some q)
            stats
            duplicates
      → (compute_deal_score lib patterns now ad query stats duplicates).score
        ≤ (compute_deal_score lib patterns now cheap query stats duplicates).score
  unfolding compute_deal_score
  compute_deal_score_mono ad cheap query stats duplicates p q title eq ep h np nq same =
      rw (eq, ep, same_title cheap ad title)
        (scored_mono ad cheap (analyze_query_text lib patterns query)
          (analyze_query_text lib patterns (title_of ad)) stats duplicates p q h np nq same)
