-- ===== src/Market/Filters.antt =====
-- The filters of a tracker, of api/services/reseller_tools.py, on exact prices: a discount is a whole
-- number of hundredths of a percent, to which the code rounds it.
pub mod Relaxing
use rafuk.Base.{
  ℕ, zero, suc, ◌+◌, ◌-◌, ◌*◌, ◌/◌, ◌==◌, String, Bool, true, false, not, ◌&&◌, ◌||◌, Option, none,
  some, List, [], ◌∷◌, ite, str_dec, any, leb, ltb, if◌then◌else◌,
}
use rafuk.Market.TextLib.{TextLib}
use rafuk.Market.Ad.{Ad, normalize_price_byn}
use rafuk.Market.Query.{contains, tokenize_search_text}
use rafuk.Market.Prices.{PriceStats}
use rafuk.Market.Params.{
  get_param_values, canonical_condition, canonical_seller_type, ad_condition, ad_seller_type,
}
use rafuk.Market.Regions.{region_names, region_candidates}
use rafuk.Tracker.{Filters}

-- What a filter says of an ad; `none` is unknown, which keeps the ad.
abbrev pub is_rejected : Option Bool → Bool
is_rejected (some false) = true
is_rejected answer = false

-- `all(token in tokens for token in wanted)`
all_tokens : List String → List String → Bool
all_tokens [] tokens = true
all_tokens (w ∷ wanted) tokens = contains tokens w && all_tokens wanted tokens

-- `is_low_price_outlier(price_byn, median, cutoff=low_cutoff)`
unfoldable pub is_placeholder_price : Option ℕ → PriceStats → Bool
is_placeholder_price none stats = false
is_placeholder_price (some price) stats = ltb (8 * price) stats.low_cutoff

-- `-min(compute_price_vs_median(ad, median), 0)`, in hundredths of a percent
unfoldable pub discount : Option ℕ → ℕ → ℕ
discount none doubled_median = 0
discount (some price) doubled_median =
    if doubled_median == 0
    then 0
    else (20_000 * (doubled_median - 2 * price) + doubled_median) / (2 * doubled_median)

-- `price_byn > max_price_byn`
unfoldable pub is_too_dear : Option ℕ → Option ℕ → Bool
is_too_dear (some limit) (some price) = ltb limit (100 * price)
is_too_dear limit price = false

-- The test of `min_discount_percent`; a placeholder has no discount.
unfoldable pub is_too_small : Option ℕ → Option ℕ → PriceStats → Bool
unfolding is_placeholder_price discount
is_too_small none price stats = false
is_too_small (some wanted) price stats =
    if is_placeholder_price price stats
    then true
    else ltb (100 * discount price stats.median) wanted

module _ (lib : TextLib) where
  folded : List String → List String
  folded [] = []
  folded (v ∷ values) = lib.casefold v ∷ folded values

  -- `_raw_value_matches`
  raw_value_matches : String → List String → Option Bool
  unfolding folded
  raw_value_matches expected [] = none
  raw_value_matches expected (v ∷ values) =
      some (contains (folded (v ∷ values)) (lib.casefold (lib.strip expected)))

  -- `wanted == actual` where both are known
  kind_matches : Option String → Option String → Option Bool → Option Bool
  kind_matches (some wanted) (some actual) raw = some (ite (str_dec wanted actual) true false)
  kind_matches wanted actual raw = raw

  -- `condition_matches`
  unfoldable pub condition_matches : Ad → String → Option Bool
  unfolding kind_matches raw_value_matches
  condition_matches ad expected =
      kind_matches (canonical_condition lib expected) (ad_condition lib ad)
        (raw_value_matches expected (get_param_values lib ad ("condition" ∷ "cnd" ∷ [])))

  -- `seller_type_matches`
  unfoldable pub seller_type_matches : Ad → String → Option Bool
  unfolding kind_matches raw_value_matches
  seller_type_matches ad expected =
      kind_matches (canonical_seller_type lib expected) (ad_seller_type lib ad)
        (raw_value_matches expected (get_param_values lib ad ("seller_type" ∷ [])))

  any_candidate : List String → List String → Bool
  unfolding all_tokens
  any_candidate wanted [] = false
  any_candidate wanted (c ∷ candidates) =
      all_tokens wanted (tokenize_search_text lib c) || any_candidate wanted candidates

  among : List String → List String → List String → Option Bool
  unfolding any_candidate
  among wanted names [] = none
  among wanted [] (c ∷ candidates) =
      if any lib.is_digit wanted then some (any_candidate wanted (c ∷ candidates)) else none
  among wanted (n ∷ names) (c ∷ candidates) = some (any_candidate wanted (c ∷ candidates))

  -- `region_matches`
  unfoldable pub region_matches : Ad → String → Option Bool
  unfolding among
  region_matches ad expected = elim (tokenize_search_text lib expected) [
    | [] ↦ some true
    | w ∷ wanted ↦ among (w ∷ wanted) (region_names lib ad) (region_candidates lib ad)
  ]

  -- `config_keyword_matches`
  unfoldable pub config_keyword_matches : String → String → Bool
  unfolding all_tokens
  config_keyword_matches title keyword =
      ite (str_dec keyword "") true
        (all_tokens (tokenize_search_text lib keyword) (tokenize_search_text lib title))

  -- `value and test is False`
  unfoldable pub rejects : (String → Option Bool) → Option String → Bool
  rejects test none = false
  rejects test (some value) = ite (str_dec value "") false (is_rejected (test value))

  -- `config_keyword and not config_keyword_matches(title, config_keyword)`
  unfoldable pub lacks_keyword : Option String → Option String → Bool
  unfolding config_keyword_matches
  lacks_keyword subject none = false
  lacks_keyword subject (some keyword) =
      not (config_keyword_matches (elim subject [ none ↦ "" | some s ↦ s ]) keyword)

  -- `matches_tracker_filters`
  unfoldable pub matches_tracker_filters : Filters → PriceStats → ℕ → Ad → Bool
  unfolding is_too_dear rejects seller_type_matches condition_matches region_matches lacks_keyword
      is_too_small
  matches_tracker_filters f stats duplicate_count ad =
      let price = normalize_price_byn ad.price_byn in
      if is_too_dear f.max_price_byn price
      then false
      else if rejects (seller_type_matches ad) f.seller_type
      then false
      else if rejects (condition_matches ad) f.condition
      then false
      else if rejects (region_matches ad) f.region_name
      then false
      else if lacks_keyword ad.subject f.config_keyword
      then false
      else if f.exclude_duplicates && ltb 0 duplicate_count
      then false
      else not (is_too_small f.min_discount_percent price stats)
