-- ===== src/Market/Regions.antt =====
-- The region and the seller of an ad, of api/services/market_signals.py.
use rafuk.Base.{
  ℕ, suc, String, not, Option, none, some, List, [], ◌∷◌, ◌++◌, ite, str_dec, keep, if◌then◌else◌,
}
use rafuk.Base.Int.{ℤ, pos}
use rafuk.Json.{Value, int, float, text, get}
use rafuk.Market.TextLib.{TextLib}
use rafuk.Market.Ad.{Ad}
use rafuk.Market.Query.{join_words}
use rafuk.Market.Params.{get_param_values}

-- `number if number > 0 else None`
positive : Option ℤ → Option ℕ
positive (some (pos (suc n))) = some (suc n)
positive number = none

-- `_REGION_NAME_KEYS`, `_REGION_PARAMETER_KEYS`, `_SELLER_ID_KEYS`
abbrev region_name_keys : List String
region_name_keys = "region_name" ∷ "location_name" ∷ "area_name" ∷ "locality_name" ∷ []

abbrev region_parameter_keys : List String
region_parameter_keys = "region" ∷ "area" ∷ []

abbrev seller_id_keys : List String
seller_id_keys = "account_id" ∷ "user_id" ∷ "seller_id" ∷ []

module _ (lib : TextLib) where
  -- `coerce_ad_id` of a text
  coerce_text : String → Option ℕ
  unfolding positive
  coerce_text s = if lib.is_digit (lib.strip s) then positive (lib.int_of (lib.strip s)) else none

  -- `coerce_ad_id`, `coerce_region_id`
  unfoldable pub coerce_ad_id : Value → Option ℕ
  unfolding positive coerce_text
  coerce_ad_id (int n) = positive (some n)
  coerce_ad_id (float x) = if x.is_integer then positive x.whole else none
  coerce_ad_id (text s) = coerce_text s
  coerce_ad_id v = none

  first_id : List String → Option ℕ
  unfolding coerce_text
  first_id [] = none
  first_id (v ∷ values) = elim (coerce_text v) [ some id ↦ some id | none ↦ first_id values ]

  -- `ad_region_id`
  unfoldable pub ad_region_id : Ad → Option ℕ
  unfolding coerce_ad_id first_id
  ad_region_id ad = elim (coerce_ad_id (get "region_id" ad.raw)) [
    | some id ↦ some id
    | none ↦ first_id (get_param_values lib ad ("region" ∷ []))
  ]

  -- `_region_parameter_labels`
  unfoldable pub region_parameter_labels : Ad → List String
  region_parameter_labels ad =
      keep (λ v. not (lib.is_digit v)) (get_param_values lib ad region_parameter_keys)

  name_in : Value → List String
  name_in (text s) = ite (str_dec (lib.strip s) "") [] (lib.strip s ∷ [])
  name_in v = []

  names_in : List String → Value → List String
  unfolding name_in
  names_in [] raw = []
  names_in (key ∷ keys) raw = name_in (get key raw) ++ names_in keys raw

  -- `region_names`
  unfoldable pub region_names : Ad → List String
  unfolding names_in region_parameter_labels
  region_names ad = names_in region_name_keys ad.raw ++ region_parameter_labels ad

  -- `[f"Регион {region_id}", str(region_id)]`
  id_names : Option ℕ → List String
  id_names none = []
  id_names (some id) =
      let number = lib.int_text (pos id) in join_words ("Регион" ∷ number ∷ []) ∷ number ∷ []

  -- `region_candidates`
  unfoldable pub region_candidates : Ad → List String
  unfolding region_names id_names ad_region_id
  region_candidates ad =
      region_names ad
      ++ (keep lib.is_digit (get_param_values lib ad ("region" ∷ [])) ++ id_names (ad_region_id ad))

  -- `region_label`
  unfoldable pub region_label : Ad → Option String
  unfolding region_names ad_region_id
  region_label ad = elim (region_names ad) [
    | name ∷ names ↦ some name
    | [] ↦ elim (ad_region_id ad) [
      | none ↦ none
      | some id ↦ some (join_words ("Регион" ∷ lib.int_text (pos id) ∷ []))
    ]
  ]

  -- `str(value).strip() or None` of a text or a number, and whether the key counts at all
  seller_text : Value → Option (Option String)
  seller_text (text s) =
      ite (str_dec s "") none (some (ite (str_dec (lib.strip s) "") none (some (lib.strip s))))
  seller_text (int n) =
      some (ite (str_dec (lib.strip (lib.int_text n)) "") none (some (lib.strip (lib.int_text n))))
  seller_text v = none

  seller_in : List String → Value → Option String
  unfolding seller_text
  seller_in [] raw = none
  seller_in (key ∷ keys) raw = elim (seller_text (get key raw)) [
    | some found ↦ found
    | none ↦ seller_in keys raw
  ]

  -- `ad_seller_id`
  unfoldable pub ad_seller_id : Ad → Option String
  unfolding seller_in
  ad_seller_id ad = seller_in seller_id_keys ad.raw
