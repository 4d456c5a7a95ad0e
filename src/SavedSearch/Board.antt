-- ===== src/SavedSearch/Board.antt =====
-- The opportunity board of api/routers/saved_searches.py: what one saved search puts on it
-- (`_load_saved_search_opportunities` of a data set), its signal, and how the boards are put together.
-- `convert` is the price in the currency of the answer, of which the code sees only the order.
pub mod Matches
use rafuk.Base.{
  ℕ, ◌+◌, ◌/◌, ◌==◌, ◌&&◌, ◌||◌, not, Bool, true, false, Option, none, some, List, [], ◌∷◌, ◌++◌,
  ltb, leb, take, keep, map, if◌then◌else◌, ℕ_discrete,
}
use rafuk.Base.OrderedDict.{find}
use rafuk.Market.TextLib.{TextLib}
use rafuk.Market.Ad.{Ad, listing_ad_id}
use rafuk.Market.Prices.{PriceStats}
use rafuk.Market.Deals.{ad_price_byn, filter_deal_ads, sort_by}
use rafuk.Market.Duplicates.{duplicate_counts}
use rafuk.Market.Filters.{matches_tracker_filters}
use rafuk.Market.Insights.{PatternLib}
use rafuk.Market.Score.{DealScore, compute_deal_score}
use rafuk.Tracker.{Filters}
use rafuk.SavedSearch.{SavedSearch}

-- `RARE_OFFER_MAX_RESULTS`, `THIN_MARKET_MAX_RESULTS`
abbrev pub rare_offer_max : ℕ
rare_offer_max = 5

abbrev pub thin_market_max : ℕ
thin_market_max = 10

-- What a data set gives the board.
pub record Dataset : Type 0 where
  pub ads : List Ad
  pub price_stats : PriceStats
  pub total_results : ℕ
  pub truncated : Bool

-- `OpportunityItem`, with what orders it; `is_rare` is the label of rare offers.
pub record Opportunity : Type 0 where
  pub saved_search_id : ℕ
  pub ad : Ad
  pub deal_score : ℕ
  pub price : ℕ
  pub is_rare : Bool

-- `_SavedSearchBoard`
pub record Board : Type 0 where
  pub saved_search : SavedSearch
  pub total_results : ℕ
  pub items : List Opportunity
  pub truncated : Bool

-- The filters that `matches_tracker_filters` is given.
unfoldable pub filters_of : SavedSearch → Filters
filters_of s = record {
  query = s.query;
  strict_mode = s.strict_mode;
  min_discount_percent = some s.target_discount_percent;
  max_price_byn = s.max_price_byn;
  seller_type = s.seller_type;
  condition = s.condition;
  region_name = s.region_name;
  config_keyword = s.config_keyword;
  exclude_duplicates = s.exclude_duplicates;
}

-- The percent of `filter_deal_ads`: a discount is a whole number of hundredths, so the bound is rounded
-- up to one.
unfoldable pub percent_bound : SavedSearch → ℕ
percent_bound s = (s.target_discount_percent + 99) / 100

-- `duplicate_index.get(int(ad.get("ad_id", 0)), 0)`
unfoldable pub duplicates_in : List (ℕ × ℕ) → Ad → ℕ
duplicates_in index ad = elim (find ℕ_discrete (listing_ad_id ad) index) [ none ↦ 0 | some n ↦ n ]

-- `is_rare`
unfoldable pub is_rare_market : Dataset → Bool
is_rare_market d = not d.truncated && leb d.total_results rare_offer_max

-- `item.deal_score` falls, and then `item.price` rises; equal items keep their order.
unfoldable pub deal_order : Opportunity → Opportunity → Bool
deal_order x y =
    if ltb y.deal_score x.deal_score
    then true
    else if ltb x.deal_score y.deal_score
    then false
    else leb x.price y.price

module _ (lib : TextLib) (patterns : PatternLib) (convert : ℕ → ℕ) (now : ℕ) where
  -- `candidate_ads`
  unfoldable pub candidate_ads : SavedSearch → Dataset → List Ad
  unfolding filters_of percent_bound duplicates_in
  candidate_ads s d =
      keep
        (λ ad.
          matches_tracker_filters lib (filters_of s) d.price_stats
            (duplicates_in (duplicate_counts lib d.ads) ad) ad)
        (filter_deal_ads d.ads d.price_stats.median (percent_bound s) none
          (some d.price_stats.low_cutoff))

  price_of : Option ℕ → ℕ
  price_of none = convert 0
  price_of (some price) = convert price

  -- The opportunity of an ad, with what `build_listing_item` computes of it.
  unfoldable pub opportunity_of : SavedSearch → Dataset → Ad → Opportunity
  unfolding is_rare_market price_of
  opportunity_of s d ad =
      let duplicates = duplicates_in (duplicate_counts lib d.ads) ad in
      record {
        saved_search_id = s.id;
        ad = ad;
        deal_score =
            (compute_deal_score lib patterns now ad s.query d.price_stats duplicates).score;
        price = price_of (ad_price_byn ad);
        is_rare = is_rare_market d;
      }

  -- `_load_saved_search_opportunities` of a data set: the best three of the first twenty candidates
  unfoldable pub load_opportunities : SavedSearch → Dataset → Board
  unfolding candidate_ads opportunity_of deal_order
  load_opportunities s d = record {
    saved_search = s;
    total_results = d.total_results;
    items = take 3 (sort_by deal_order (map (opportunity_of s d) (take 20 (candidate_ads s d))));
    truncated = d.truncated;
  }

-- `_market_signal`: a thin market, with its size, or a good margin, with the score.
pub data Signal : Type 0 where
  thin_market : SavedSearch → ℕ → Signal
  good_margin : SavedSearch → ℕ → Signal

best_score : List Opportunity → ℕ
best_score [] = 0
best_score (o ∷ items) = o.deal_score

unfoldable pub market_signal : Board → Option Signal
unfolding best_score
market_signal b =
    if not b.truncated && (ltb 0 b.total_results && leb b.total_results thin_market_max)
    then some (thin_market b.saved_search b.total_results)
    else if leb 800 (best_score b.items)
    then some (good_margin b.saved_search (best_score b.items))
    else none

unfoldable pub all_items : List Board → List Opportunity
all_items [] = []
all_items (b ∷ boards) = b.items ++ all_items boards

some_signals : List Board → List Signal
unfolding market_signal
some_signals [] = []
some_signals (b ∷ boards) =
    let rest = some_signals boards in elim (market_signal b) [ none ↦ rest | some s ↦ s ∷ rest ]

-- `OpportunityBoardResponse`, without the price drops
pub record Response : Type 0 where
  pub items : List Opportunity
  pub rare_opportunities : List Opportunity
  pub market_signals : List Signal
  pub partial : Bool

-- `get_opportunity_board` of the boards that were loaded
unfoldable pub assemble : List Board → Bool → Response
unfolding all_items some_signals deal_order
assemble boards partial = record {
  items = take 12 (sort_by deal_order (keep (λ o. not o.is_rare) (all_items boards)));
  rare_opportunities = take 4 (sort_by deal_order (keep (λ o. o.is_rare) (all_items boards)));
  market_signals = take 4 (some_signals boards);
  partial = partial;
}
