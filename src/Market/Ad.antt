-- ===== src/Market/Ad.antt =====
-- A normalized ad (`normalize_ad` of api/services/query_pipeline.py) and its price
-- (api/services/aggregator.py). Prices are whole kopecks.
use rafuk.Base.{ℕ, String, Option, none, some, ltb, if◌then◌else◌, ◌==◌}
use rafuk.Base.Int.{ℤ, pos, negsuc}
use rafuk.Json.{Value}

pub record Ad : Type 0 where
  -- `none` is an ad without a usable id
  pub ad_id : Option ℕ
  pub subject : Option String
  pub ad_link : String
  pub list_time : Option String
  -- the raw `price_byn` of Kufar, in kopecks
  pub price_byn : Option ℤ
  -- the dictionary itself, for the keys that only the filters read
  pub raw : Value

-- `MAX_PRICE_BYN * KOPECKS`
abbrev pub max_price : ℕ
max_price = 10_000_000

in_range : ℕ → Option ℕ
in_range n = if n == 0 then none else if ltb max_price n then none else some n

unfoldable pub normalize_price_byn : Option ℤ → Option ℕ
unfolding in_range
normalize_price_byn none = none
normalize_price_byn (some (negsuc n)) = none
normalize_price_byn (some (pos n)) = in_range n

-- `listing_ad_id` of api/services/history_service.py
unfoldable pub listing_ad_id : Ad → ℕ
listing_ad_id ad = elim ad.ad_id [ none ↦ 0 | some n ↦ n ]
