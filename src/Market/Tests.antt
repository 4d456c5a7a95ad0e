-- ===== src/Market/Tests.antt =====
-- Concrete queries.
use rafuk.Base.{
  Bool, ℕ, ◌≤◌, true, false, ◌≡◌, none, some, List, [], ◌∷◌, keep, length, refl, arith,
}
use rafuk.Base.Int.{pos}
use rafuk.Json.{null}
use rafuk.Tracker.{Filters}
use rafuk.Market.Ad.{Ad, normalize_price_byn}
use rafuk.Market.Prices.{
  PriceStats, compute_price_stats, doubled_median, reaches, split_low_outliers,
}
use rafuk.Market.Margins.{compute_flip_estimates}
use rafuk.Market.Margins.Bounds.{AreRising, compute_flip_estimates-AreRising}
use rafuk.Market.Prices.Cutoff.{split_low_outliers-keep}
use rafuk.Market.Duplicates.{Items}
use rafuk.Market.Filters.{
  matches_tracker_filters, is_too_small, is_too_dear, discount, is_placeholder_price,
}
use rafuk.Market.Deals.{price_asc, sort_listings, ad_price_byn}
use rafuk.Market.Deals.Sorting.{count_of}
use rafuk.Market.Deals.Order.{IsListed, sort_listings-IsListed}
use rafuk.Market.Filters.Relaxing.{matches_tracker_filters-relaxed}
use rafuk.Market.Sorting.{sort, nth}
use rafuk.Market.Sample.{plain_texts}
use rafuk.Market.Insights.{PatternLib}
use rafuk.Market.Score.{compute_deal_score, skip}
use rafuk.Market.Score.Rank.{compute_deal_score-placeholder}

abbrev offered : List ℕ
offered = 100 ∷ 50_000 ∷ 60_000 ∷ 70_000 ∷ []

-- A placeholder of one rouble among real prices.
split_low_outliers-keep_example :
    (cutoff : ℕ) × (split_low_outliers offered ≡ some (keep (reaches cutoff) offered, cutoff))
    × (4 ≤ length offered → cutoff ≡ doubled_median (keep (reaches cutoff) offered))
split_low_outliers-keep_example = split_low_outliers-keep offered

-- Two near prices, a far one, and an ad without a price.
abbrev reposts : Items
reposts = (1, some 50_000) ∷ (2, some 52_000) ∷ (3, some 90_000) ∷ (4, none) ∷ []

abbrev strict_filters : Filters
strict_filters = record {
  query = "ps5";
  strict_mode = false;
  min_discount_percent = some 50_000;
  max_price_byn = some 6_000_000;
  seller_type = none;
  condition = none;
  region_name = none;
  config_keyword = none;
  exclude_duplicates = true;
}

-- No limit on reposts, and a higher price.
abbrev mild_filters : Filters
mild_filters = record strict_filters { max_price_byn = some 7_000_000; exclude_duplicates = false }

abbrev market : PriceStats
market = record {
  total_price = 200_000;
  median = 100_000;
  q1 = 180_000;
  q3 = 220_000;
  min_price = 40_000;
  max_price = 60_000;
  count = 4;
  low_cutoff = 100_000;
}

abbrev bargain : Ad
bargain = record {
  ad_id = some 7;
  subject = some "PS5";
  ad_link = "";
  list_time = none;
  price_byn = some (pos 40_000);
  raw = null;
}

matches_tracker_filters-relaxed_example :
    matches_tracker_filters plain_texts mild_filters market 0 bargain ≡ true
unfolding matches_tracker_filters is_too_small is_too_dear discount is_placeholder_price
    normalize_price_byn
matches_tracker_filters-relaxed_example =
    matches_tracker_filters-relaxed plain_texts strict_filters mild_filters market 0 bargain
      record {
        max_price = omega arith;
        min_discount = omega arith;
        seller = tt;
        condition = tt;
        region = tt;
        keyword = tt;
        duplicates = λ e. refl;
      }
      refl

-- One listing without a price, and two with one.
abbrev shelf : List Ad
shelf =
    record bargain { price_byn = none }
    ∷ record bargain { price_byn = some (pos 60_000) }
    ∷ bargain
    ∷ []

sort_listings-IsListed_example :
    ((t : Ad → Bool)
      → count_of t (sort_listings plain_texts shelf "price_asc" 100_000) ≡ count_of t shelf)
    × IsListed plain_texts price_asc 100_000 (sort_listings plain_texts shelf "price_asc" 100_000)
sort_listings-IsListed_example =
    sort_listings-IsListed plain_texts shelf "price_asc" price_asc 100_000 refl

abbrev no_patterns : PatternLib
no_patterns = record { numbers = λ name s. none; title = λ s. s }

-- A price of one rouble.
abbrev one_rouble : Ad
one_rouble = record bargain { price_byn = some (pos 100) }

compute_deal_score-placeholder_example :
    ((compute_deal_score plain_texts no_patterns 1000 one_rouble "ps5" market 0).score ≤ 400)
    × ((compute_deal_score plain_texts no_patterns 1000 one_rouble "ps5" market 0).verdict ≡ skip)
unfolding normalize_price_byn ad_price_byn is_placeholder_price
compute_deal_score-placeholder_example =
    compute_deal_score-placeholder plain_texts no_patterns 1000 one_rouble "ps5" market 0 100 refl
      refl

-- Five prices, none of them a placeholder.
abbrev five : List ℕ
five = 40_000 ∷ 45_000 ∷ 50_000 ∷ 55_000 ∷ 60_000 ∷ []

abbrev five_stats : PriceStats
five_stats = record {
  total_price = 250_000;
  median = 100_000;
  q1 = 180_000;
  q3 = 220_000;
  min_price = 40_000;
  max_price = 60_000;
  count = 5;
  low_cutoff = 100_000;
}

stats_of_five : compute_price_stats five ≡ some five_stats
unfolding compute_price_stats split_low_outliers keep sort nth
stats_of_five = refl

compute_flip_estimates-AreRising_example : AreRising (compute_flip_estimates bargain five_stats)
compute_flip_estimates-AreRising_example =
    compute_flip_estimates-AreRising five five_stats bargain stats_of_five
