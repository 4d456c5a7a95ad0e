-- ===== src/Market/Deals.antt =====
-- Choosing and ordering listings: `filter_deal_ads` and `sort_listings` of api/services/aggregator.py. Prices
-- are kopecks, a median is doubled, and percents are whole hundredths, to which the code rounds them.
pub mod Sorting
pub mod Order
use rafuk.Base.{
  ℕ, zero, suc, ◌+◌, ◌-◌, ◌*◌, ◌/◌, ◌==◌, String, Bool, true, false, not, ◌&&◌, ◌||◌, ite, Option,
  none, some, List, [], ◌∷◌, ◌++◌, map, keep, leb, ltb, max, str_dec, if◌then◌else◌,
}
use rafuk.Market.TextLib.{TextLib}
use rafuk.Market.Ad.{Ad, normalize_price_byn}
use rafuk.Market.Params.{parse_list_time}
use rafuk.Market.Filters.{discount}

-- `ad_price_byn`
unfoldable pub ad_price_byn : Ad → Option ℕ
ad_price_byn ad = normalize_price_byn ad.price_byn

-- `is_low_price_outlier`, with the cutoff or else a quarter of the median
is_below_cutoff : ℕ → ℕ → Option ℕ → Bool
is_below_cutoff price median none = ltb (8 * price) median
is_below_cutoff price median (some cutoff) = ltb (8 * price) cutoff

-- The bounds in order; the first is the lower one.
is_between : ℕ → ℕ → Option ℕ → Bool
is_between percent from none = leb from percent
is_between percent from (some to) =
    if ltb to from then leb to percent && leb percent from else leb from percent && leb percent to

-- `delta < 0` after rounding, and the discount in its range
is_deal_price : Option ℕ → ℕ → ℕ → Option ℕ → Option ℕ → Bool
unfolding is_below_cutoff is_between
is_deal_price none median from to low_cutoff = false
is_deal_price (some price) median from to low_cutoff =
    not (is_below_cutoff price median low_cutoff)
    && (ltb 0 (discount (some price) median) && is_between (discount (some price) median) from to)

-- `filter_deal_ads`, of the sizes of its percents
unfoldable pub filter_deal_ads : List Ad → ℕ → ℕ → Option ℕ → Option ℕ → List Ad
unfolding is_deal_price
filter_deal_ads ads median from to low_cutoff =
    if median == 0
    then []
    else keep (λ ad. is_deal_price (ad_price_byn ad) median from to low_cutoff) ads

-- A stable sort: `before x y` says that `x` goes before a later `y`.
module _ {A : Type 0} (before : A → A → Bool) where
  unfoldable pub insert_by : A → List A → List A
  insert_by x [] = x ∷ []
  insert_by x (y ∷ ys) = if before x y then x ∷ y ∷ ys else y ∷ insert_by x ys

  unfoldable pub sort_by : List A → List A
  unfolding insert_by
  sort_by [] = []
  sort_by (x ∷ xs) = insert_by x (sort_by xs)

-- `compute_price_vs_median`, counted from minus a hundred percent
unfoldable pub percent_of : ℕ → ℕ → ℕ
percent_of price median = if median == 0 then 10_000 else (40_000 * price + median) / (2 * median)

-- `abs(price - median)`, doubled
distance : ℕ → ℕ → ℕ
distance price median = (2 * price - median) + (median - 2 * price)

-- The orders of `sort_listings`.
pub data Sort : Type 0 where
  cheap : Sort
  price_asc : Sort
  price_desc : Sort
  near_median : Sort
  newest : Sort

-- The name of a sort; any other name sorts by time.
unfoldable pub sort_named : String → Sort
sort_named name = ite (str_dec name "cheap") cheap (
    ite (str_dec name "price_asc") price_asc (
      ite (str_dec name "price_desc") price_desc
        (ite (str_dec name "near_median") near_median newest)))

-- Whether an earlier price stays before a later one.
unfoldable pub price_before : Sort → ℕ → ℕ → ℕ → Bool
unfolding distance
price_before cheap median p q =
    if percent_of p median == percent_of q median
    then leb p q
    else ltb (percent_of p median) (percent_of q median)
price_before price_asc median p q = leb p q
price_before price_desc median p q = leb q p
price_before near_median median p q = leb (distance p median) (distance q median)
price_before newest median p q = true

-- The ads with a price, and those without one.
unfoldable pub priced : List Ad → List (Ad × ℕ)
priced [] = []
priced (ad ∷ ads) = elim (ad_price_byn ad) [ none ↦ priced ads | some p ↦ (ad, p) ∷ priced ads ]

unfoldable pub unpriced : List Ad → List Ad
unpriced [] = []
unpriced (ad ∷ ads) = elim (ad_price_byn ad) [ none ↦ ad ∷ unpriced ads | some p ↦ unpriced ads ]

-- `_list_time_sort_key`, where no time comes before every time
time_key : TextLib → Ad → ℕ
time_key lib ad = elim (parse_list_time lib ad.list_time) [ none ↦ 0 | some t ↦ suc t ]

unfoldable pub time_before : TextLib → Ad → Ad → Bool
unfolding time_key
time_before lib a b = leb (time_key lib b) (time_key lib a)

unfoldable pub sort_priced : Sort → ℕ → List Ad → List (Ad × ℕ)
unfolding sort_by priced price_before
sort_priced order median ads = sort_by (λ a b. price_before order median a.1 b.1) (priced ads)

sort_as : TextLib → Sort → List Ad → ℕ → List Ad
unfolding sort_priced unpriced sort_by time_before
sort_as lib newest ads median = sort_by (time_before lib) ads
sort_as lib order ads median = map (λ p. p.0) (sort_priced order median ads) ++ unpriced ads

-- `sort_listings`
unfoldable pub sort_listings : TextLib → List Ad → String → ℕ → List Ad
unfolding sort_as sort_named
sort_listings lib ads name median = sort_as lib (sort_named name) ads median
