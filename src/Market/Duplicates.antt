-- ===== src/Market/Duplicates.antt =====
-- Counting likely reposts: `duplicate_counts` of api/services/market_signals.py, with prices in kopecks.
pub mod Count
use rafuk.Base.{
  ℕ, zero, suc, ◌+◌, ◌-◌, ◌*◌, String, Bool, true, false, Option, none, some, List, [], ◌∷◌, ite,
  str_dec, ℕ_discrete, length, leb, ltb, if◌then◌else◌, ◌==◌,
}
use rafuk.Base.OrderedDict.{find, assign}
use rafuk.Market.TextLib.{TextLib}
use rafuk.Market.Ad.{Ad, listing_ad_id, normalize_price_byn}
use rafuk.Market.Query.{normalize_search_text}
use rafuk.Market.Sorting.{sort}
use rafuk.Market.Params.{ad_seller_type}
use rafuk.Market.Regions.{ad_region_id, ad_seller_id}

-- The key of a group.
pub record GroupKey : Type 0 where
  pub title : String
  pub seller_type : String
  pub region_id : Option ℕ
  pub seller_id : String

unfoldable pub GroupKey-discrete : Discrete GroupKey
GroupKey-discrete = hlevel (ℕ_discrete, str_dec)

-- The ids of a group, with their prices.
abbrev pub Items : Type 0
Items = List (ℕ × Option ℕ)

-- `grouped[key].setdefault(ad_id, price)`
unfoldable pub set_default : ℕ → Option ℕ → Items → Items
set_default id price [] = (id, price) ∷ []
set_default id price ((j, p) ∷ items) =
    if j == id then (j, p) ∷ items else (j, p) ∷ set_default id price items

or_empty : Option String → String
or_empty none = ""
or_empty (some s) = s

items_at : Option Items → Items
items_at none = []
items_at (some items) = items

module _ (lib : TextLib) where
  key_of : Ad → String → GroupKey
  unfolding or_empty
  key_of ad title = record {
    title = title;
    seller_type = or_empty (ad_seller_type lib ad);
    region_id = ad_region_id lib ad;
    seller_id = or_empty (ad_seller_id lib ad);
  }

  -- The body of the first loop, for an ad with an id.
  group_ad : ℕ → Ad → List (GroupKey × Items) → List (GroupKey × Items)
  unfolding key_of set_default items_at or_empty
  group_ad id ad grouped =
      let title = normalize_search_text lib (or_empty ad.subject) in
      let key = key_of ad title in
      let items = items_at (find GroupKey-discrete key grouped) in
      let joined = set_default id (normalize_price_byn ad.price_byn) items in
      ite (str_dec title "") grouped (assign GroupKey-discrete key joined grouped)

  -- The groups of the ads.
  unfoldable pub group_ads : List Ad → List (GroupKey × Items) → List (GroupKey × Items)
  unfolding group_ad
  group_ads [] grouped = grouped
  group_ads (ad ∷ ads) grouped =
      let id = listing_ad_id ad in
      let more = group_ad id ad grouped in group_ads ads (if id == 0 then grouped else more)

-- The prices of a group, and the number of its ads without one.
unfoldable pub prices_of : Items → List ℕ
prices_of [] = []
prices_of ((id, none) ∷ items) = prices_of items
prices_of ((id, some price) ∷ items) = price ∷ prices_of items

unfoldable pub unpriced_count : Items → ℕ
unpriced_count [] = 0
unpriced_count ((id, none) ∷ items) = suc (unpriced_count items)
unpriced_count ((id, some price) ∷ items) = unpriced_count items

-- `bisect_left(sorted_prices, price * 0.92)`, `bisect_right(sorted_prices, price * 1.08)`: how many
-- numbers come before the place
unfoldable pub bisect : (ℕ → Bool) → List ℕ → ℕ
bisect before [] = 0
bisect before (x ∷ xs) = if before x then suc (bisect before xs) else 0

abbrev pub is_below : ℕ → ℕ → Bool
is_below price x = ltb (100 * x) (92 * price)

abbrev pub is_not_above : ℕ → ℕ → Bool
is_not_above price x = leb (100 * x) (108 * price)

-- `similar`
unfoldable pub similar : Items → Option ℕ → ℕ
unfolding bisect prices_of unpriced_count
similar items none = length items - 1
similar items (some price) =
    let sorted_prices = sort (prices_of items) in
    let low = bisect (is_below price) sorted_prices in
    let high = bisect (is_not_above price) sorted_prices in (high - low - 1) + unpriced_count items

-- `if similar > 0: counts[ad_id] = similar`
count_ad : ℕ → ℕ → List (ℕ × ℕ) → List (ℕ × ℕ)
count_ad id zero counts = counts
count_ad id (suc n) counts = assign ℕ_discrete id (suc n) counts

-- The loop over the ads of a group; `items` is the whole group.
count_items : Items → Items → List (ℕ × ℕ) → List (ℕ × ℕ)
unfolding similar count_ad
count_items items [] counts = counts
count_items items ((id, price) ∷ rest) counts =
    count_items items rest (count_ad id (similar items price) counts)

-- The loop over the groups.
count_groups : List (GroupKey × Items) → List (ℕ × ℕ) → List (ℕ × ℕ)
unfolding count_items
count_groups [] counts = counts
count_groups ((key, items) ∷ grouped) counts =
    count_groups grouped (if ltb (length items) 2 then counts else count_items items items counts)

unfoldable pub duplicate_counts : TextLib → List Ad → List (ℕ × ℕ)
unfolding count_groups group_ads
duplicate_counts lib ads = count_groups (group_ads lib ads []) []
