-- ===== src/Currency.antt =====
-- `CurrencyService` of api/services/currency_service.py. Python's floats are a parameter. What the
-- cache and the site of the bank answer is an argument; a call returns the values that it writes.
pub mod Rates
mod Tests
use rafuk.Base.{
  ℕ, String, ◌≡◌, Bool, true, false, ◌||◌, not, Option, none, some, List, [], ◌∷◌, ite, str_dec,
  if◌then◌else◌,
}
use rafuk.Json.{
  Value, Fields, null, int, text, object, end, field, get, get_or, elements, is_object, is_truthy,
}
use rafuk.Base.Int.{pos}
use rafuk.Base.OrderedDict.{find}

-- What a conversion ends in: a value, an exception that the code catches (or the `None` that stands for
-- it), or the OverflowError of a whole number too large for a float, which it does not catch.
pub data Converted (A : Type 0) : Type 0 where
  converted : A → Converted A
  refused : Converted A
  overflow : Converted A

pub record FloatLib : Type 1 where
  pub Float : Type 0
  -- `float(value)` (refused: TypeError or ValueError)
  pub float_of : Value → Converted Float
  -- a float as a value of a payload
  pub value_of : Float → Value
  pub is_finite : Float → Bool
  -- `x <= 0`
  pub le_zero : Float → Bool
  -- `x / y` (none: ZeroDivisionError), `round(x, 2)`
  pub div : Float → Float → Option Float
  pub round_cents : Float → Float
  -- `DEFAULT_USD_RATE`
  pub default_usd_rate : Float

-- `RATES_TTL_SECONDS`, `FALLBACK_TTL_SECONDS`, `LAST_GOOD_TTL_SECONDS`
abbrev pub rates_ttl : ℕ
rates_ttl = 3600

abbrev pub fallback_ttl : ℕ
fallback_ttl = 60

abbrev pub last_good_ttl : ℕ
last_good_ttl = 2_592_000

-- `RATES_CACHE_KEY`, `LAST_GOOD_RATES_CACHE_KEY`
abbrev pub rates_key : String
rates_key = "currency:rates"

abbrev pub last_good_key : String
last_good_key = "currency:rates:last-good"

-- A call of `set_json`.
pub record Write : Type 0 where
  pub key : String
  pub payload : Value
  pub ttl : ℕ

-- What `get_rates` returns, the attribute `_last_good` afterwards, and the writes.
pub record Reply : Type 0 where
  pub payload : Value
  pub last_good : Value
  pub writes : List Write

-- `{**fields, key: value}`
unfoldable pub with_field : String → Value → Fields → Fields
with_field key value end = field key value end
with_field key value (field k v fields) =
    ite (str_dec k key) (field k value fields) (field k v (with_field key value fields))

-- `{**payload, "source": "stale"}`
unfoldable pub stale : Value → Value
unfolding with_field
stale (object fields) = object (with_field "source" (text "stale") fields)
stale v = v

module _ (F : FloatLib) where
  open F use {Float, float_of, value_of, is_finite, le_zero, div, round_cents, default_usd_rate}

  -- The checks that `_usd_rate` and `_extract_rates` make of a rate.
  unfoldable pub usable : Converted Float → Converted Float
  usable (converted x) = if not (is_finite x) || le_zero x then refused else converted x
  usable refused = refused
  usable overflow = overflow

  pub rate_in : Value → Converted Float
  unfolding usable
  rate_in (object rates) = usable (float_of (get_or "USD" (int (pos 0)) rates))
  rate_in v = refused

  -- `_usd_rate`, where `refused` is `None`
  unfoldable pub usd_rate : Value → Converted Float
  unfolding rate_in
  usd_rate payload = rate_in (get "rates" payload)

  pub quotient : Converted Float → Converted Float → Converted Float
  quotient (converted x) (converted y) = elim (div x y) [ none ↦ refused | some z ↦ converted z ]
  quotient (converted x) refused = refused
  quotient (converted x) overflow = overflow
  quotient refused y = refused
  quotient overflow y = overflow

  -- `float(official_rate) / float(scale)`
  unfoldable pub item_rate : Fields → Converted Float
  unfolding quotient
  item_rate item =
      quotient (float_of (get "Cur_OfficialRate" (object item)))
        (float_of (get_or "Cur_Scale" (int (pos 1)) item))

  pub is_usd : Value → Bool
  is_usd (text code) = ite (str_dec code "USD") true false
  is_usd v = false

  -- The rate of an item, and what the rest of the loop makes of it.
  pub continue : Converted Float → (Float → Converted (Option Float)) → Converted (Option Float)
  continue (converted x) rest = rest x
  continue refused rest = refused
  continue overflow rest = overflow

  -- The loop of `_extract_rates` from the rate found so far.
  unfoldable pub read_items : List Value → Option Float → Converted (Option Float)
  unfolding is_usd item_rate continue
  read_items [] found = converted found
  read_items (object item ∷ items) found =
      let used = is_usd (get "Cur_Abbreviation" (object item)) in
      let official = is_truthy (get "Cur_OfficialRate" (object item)) in
      if not used || not official
      then read_items items found
      else continue (item_rate item) (λ x. read_items items (some x))
  read_items (v ∷ items) found = refused

  pub checked_rate : Converted (Option Float) → Converted Float
  unfolding usable
  checked_rate (converted none) = refused
  checked_rate (converted (some x)) = usable (converted x)
  checked_rate refused = refused
  checked_rate overflow = overflow

  pub rate_among : Option (List Value) → Converted Float
  unfolding read_items checked_rate
  rate_among none = refused
  rate_among (some items) = checked_rate (read_items items none)

  -- `_extract_rates` of the decoded body: the rate of the dollar
  unfoldable pub extract_rates : Value → Converted Float
  unfolding rate_among
  extract_rates body = rate_among (elements body)

  -- The payload of a rate.
  unfoldable pub payload_of : Float → String → String → Value
  payload_of rate source fetched_at = object (
      field "base" (text "BYN") (
        field "rates" (object (field "USD" (value_of rate) end))
          (field "source" (text source) (field "fetched_at" (text fetched_at) end))))

  -- The bank answered with a rate.
  unfoldable pub fresh : String → Float → Reply
  unfolding payload_of
  fresh now rate =
      let payload = payload_of rate "nbrb" now in
      record {
        payload = payload;
        last_good = payload;
        writes =
            record { key = rates_key; payload = payload; ttl = rates_ttl }
            ∷ record { key = last_good_key; payload = payload; ttl = last_good_ttl }
            ∷ [];
      }

  pub known_by : Value → (String → Value) → Converted Float → Converted Value
  known_by last_good cached (converted x) = converted last_good
  known_by last_good cached refused = converted (cached last_good_key)
  known_by last_good cached overflow = overflow

  -- `last_good`: the attribute, and the cache if the attribute has no rate
  unfoldable pub known : Value → (String → Value) → Converted Value
  unfolding usd_rate known_by
  known last_good cached = known_by last_good cached (usd_rate last_good)

  pub substituted : String → Value → Converted Float → Converted Value
  unfolding stale payload_of
  substituted now v (converted x) = converted (stale v)
  substituted now v refused = converted (payload_of default_usd_rate "fallback" now)
  substituted now v overflow = overflow

  unfoldable pub substitute : String → Converted Value → Converted Value
  unfolding usd_rate substituted
  substitute now (converted v) = substituted now v (usd_rate v)
  substitute now refused = refused
  substitute now overflow = overflow

  -- The payload is cached for a minute.
  pub cached_briefly : Value → Converted Value → Converted Reply
  cached_briefly last_good (converted payload) = converted record {
    payload = payload;
    last_good = last_good;
    writes = record { key = rates_key; payload = payload; ttl = fallback_ttl } ∷ [];
  }
  cached_briefly last_good refused = refused
  cached_briefly last_good overflow = overflow

  -- The bank failed.
  unfoldable pub failed : String → Value → (String → Value) → Converted Reply
  unfolding known substitute cached_briefly
  failed now last_good cached = cached_briefly last_good (substitute now (known last_good cached))

  unfoldable pub rate_of : Option Value → Converted Float
  unfolding extract_rates
  rate_of none = refused
  rate_of (some body) = extract_rates body

  unfoldable pub request : String → Value → (String → Value) → Converted Float → Converted Reply
  unfolding fresh failed
  request now last_good cached (converted rate) = converted (fresh now rate)
  request now last_good cached refused = failed now last_good cached
  request now last_good cached overflow = overflow

  unfoldable pub unless_cached :
      Value → (String → Value) → Converted Reply → Converted Float → Converted Reply
  unless_cached last_good cached reply (converted x) =
      converted record { payload = cached rates_key; last_good = last_good; writes = [] }
  unless_cached last_good cached reply refused = reply
  unless_cached last_good cached reply overflow = overflow

  -- `get_rates` at a time: `cached` is `get_json`, where a missing key is `null`, and `body` the
  -- decoded answer of the bank, where `none` is an error of the request or of the decoder.
  unfoldable pub get_rates : String → Value → (String → Value) → Option Value → Converted Reply
  unfolding usd_rate rate_of request unless_cached
  get_rates now last_good cached body =
      unless_cached last_good cached (request now last_good cached (rate_of body))
        (usd_rate (cached rates_key))

  -- `convert_from_byn`, where `none` is a `ValueError`
  divided : Float → Option Float → Option Float
  divided amount none = none
  divided amount (some rate) =
      if le_zero rate
      then none
      else elim (div amount rate) [ none ↦ none | some x ↦ some (round_cents x) ]

  unfoldable pub convert_from_byn : Float → String → List (String × Float) → Option Float
  unfolding divided
  convert_from_byn amount currency rates =
      ite (str_dec currency "BYN") (some (round_cents amount))
        (ite (str_dec currency "USD") (divided amount (find str_dec currency rates)) none)
