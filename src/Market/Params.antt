-- ===== src/Market/Params.antt =====
-- The parameters of an ad, its condition and its seller, of api/services/aggregator.py.
use rafuk.Base.{
  ℕ, String, Bool, false, Option, none, some, List, [], ◌∷◌, ◌++◌, ite, str_dec, keep,
  if◌then◌else◌,
}
use rafuk.Json.{Value, bool, int, float, text, get, elements, is_object}
use rafuk.Market.TextLib.{TextLib}
use rafuk.Market.Ad.{Ad}
use rafuk.Market.Query.{contains}

-- `parse_list_time`
unfoldable pub parse_list_time : TextLib → Option String → Option ℕ
parse_list_time lib none = none
parse_list_time lib (some s) = ite (str_dec (lib.strip s) "") none (lib.from_iso (lib.strip s))

-- `d.get(key)` for a table of aliases
find_alias : List (List String × String) → String → Option String
find_alias [] word = none
find_alias ((aliases, canonical) ∷ table) word =
    if contains aliases word then some canonical else find_alias table word

-- `CONDITION_ALIASES`
abbrev condition_aliases : List (List String × String)
condition_aliases =
    ("2" ∷ "new" ∷ "новый" ∷ "новое" ∷ "новая" ∷ "новые" ∷ [], "new")
    ∷ ("1" ∷ "used" ∷ "б/у" ∷ "бу" ∷ "б у" ∷ "б/у." ∷ [], "used")
    ∷ []

-- `SELLER_TYPE_ALIASES`
abbrev seller_type_aliases : List (List String × String)
seller_type_aliases =
    ("частное лицо" ∷ "частник" ∷ "private" ∷ "owner" ∷ "search_owner" ∷ [], "private")
    ∷ ("магазин" ∷ "компания" ∷ "company" ∷ "shop" ∷ "business" ∷ "search_business" ∷ [], "shop")
    ∷ []

-- `iter_ad_parameters`
unfoldable pub iter_ad_parameters : Ad → List Value
iter_ad_parameters ad = elim (elements (get "ad_parameters" ad.raw)) [
  | none ↦ []
  | some params ↦ keep is_object params
]

-- `param.get("p")` is a text of the list.
is_named : List String → Value → Bool
is_named names (text name) = contains names name
is_named names v = false

-- The first text of a list that a lookup knows.
unfoldable pub first_some : (String → Option String) → List String → Option String
first_some f [] = none
first_some f (v ∷ values) = elim (f v) [ some found ↦ some found | none ↦ first_some f values ]

module _ (lib : TextLib) where
  -- `_scalar_text`
  unfoldable pub scalar_text : Value → Option String
  scalar_text (text s) = some s
  scalar_text (int n) = some (lib.int_text n)
  scalar_text (float x) = some (lib.float_text x)
  scalar_text v = none

  -- `get_param`
  param_in : String → List Value → Option String
  unfolding is_named scalar_text
  param_in name [] = none
  param_in name (param ∷ params) =
      let rest = param_in name params in
      if is_named (name ∷ []) (get "p" param)
      then elim (scalar_text (get "v" param)) [
        | some value ↦ some value
        | none ↦ elim (scalar_text (get "vl" param)) [ some label ↦ some label | none ↦ rest ]
      ]
      else rest

  unfoldable pub get_param : Ad → String → Option String
  unfolding param_in iter_ad_parameters
  get_param ad name = param_in name (iter_ad_parameters ad)

  -- The text of one key, stripped, if it is not blank.
  unfoldable pub stripped : Option String → List String
  stripped none = []
  stripped (some value) = ite (str_dec (lib.strip value) "") [] (lib.strip value ∷ [])

  values_in : List String → List Value → List String
  unfolding is_named scalar_text stripped
  values_in names [] = []
  values_in names (param ∷ params) =
      let rest = values_in names params in
      if is_named names (get "p" param)
      then stripped (scalar_text (get "v" param))
        ++ (stripped (scalar_text (get "vl" param)) ++ rest)
      else rest

  -- `get_param_values`
  unfoldable pub get_param_values : Ad → List String → List String
  unfolding values_in iter_ad_parameters
  get_param_values ad names = values_in names (iter_ad_parameters ad)

  -- `_CONDITION_LOOKUP.get(text.strip().casefold()) if text else None`
  canonical : List (List String × String) → String → Option String
  unfolding find_alias
  canonical table value =
      ite (str_dec value "") none (find_alias table (lib.casefold (lib.strip value)))

  -- `canonical_condition`, `canonical_seller_type`, of a text
  unfoldable pub canonical_condition : String → Option String
  unfolding canonical
  canonical_condition value = canonical condition_aliases value

  unfoldable pub canonical_seller_type : String → Option String
  unfolding canonical
  canonical_seller_type value = canonical seller_type_aliases value

  -- `ad_condition`
  unfoldable pub ad_condition : Ad → Option String
  unfolding first_some
  ad_condition ad = first_some canonical_condition (get_param_values ad ("condition" ∷ "cnd" ∷ []))

  company_type : Value → Option String
  company_type (bool b) = some (if b then "shop" else "private")
  company_type v = none

  -- `ad_seller_type`
  unfoldable pub ad_seller_type : Ad → Option String
  unfolding first_some company_type
  ad_seller_type ad =
      elim (first_some canonical_seller_type (get_param_values ad ("seller_type" ∷ []))) [
        | some kind ↦ some kind
        | none ↦ company_type (get "company_ad" ad.raw)
      ]
