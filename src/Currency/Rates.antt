-- ===== src/Currency/Rates.antt =====
-- What `get_rates` returns and caches.
use rafuk.Base.{
  eq_iff, String, ◌≡◌, ◌≢◌, refl, ◌∙◌, ap, ◌||◌, not, Option, none, some, List, [], ◌∷◌, str_dec,
  arith, Bool-cases, inl, inr,
}
use rafuk.Json.{
  Value, Fields, int, is_truthy, text, object, end, field, get, lookup, get_or, elements,
}
use rafuk.Base.Int.{pos}
use rafuk.Currency.{
  Converted, converted, refused, overflow, quotient, item_rate, continue, is_usd, cached_briefly,
  last_good_key, FloatLib, Reply, rates_key, fallback_ttl, with_field, stale, usable, rate_in,
  usd_rate, payload_of, fresh, known, known_by, substitute, substituted, failed, rate_of,
  extract_rates, read_items, checked_rate, rate_among, request, unless_cached, get_rates,
}

lookup-with_field :
    (key other : String) (v : Value) (fields : Fields)
    → other ≢ key
    → lookup key (with_field other v fields) ≡ lookup key fields
unfolding lookup with_field
lookup-with_field key other v end h = ground arith
lookup-with_field key other v (field k w fields) h =
    ground (arith, lookup-with_field key other v fields)

other_field : ◌≢◌ {A = String} "source" "rates"
other_field = λ e. ground (arith, eq_iff "source" "rates")

module _ (F : FloatLib) where
  open F use {Float, float_of, value_of, is_finite, le_zero, div, default_usd_rate}

  -- Marking a payload as stale keeps its rate.
  usd_rate-stale : (v : Value) → usd_rate F (stale v) ≡ usd_rate F v
  unfolding usd_rate stale get
  usd_rate-stale (object fields) =
      ap (rate_in F) (lookup-with_field "rates" "source" (text "stale") fields other_field)
  usd_rate-stale v = refl

  -- A value is a whole number that is too large for a float.
  abbrev pub Overflows : Type 0
  Overflows = (v : Value) × (float_of v ≡ overflow)

  usable-overflow : (c : Converted Float) → usable F c ≡ overflow → c ≡ overflow
  unfolding usable
  usable-overflow (converted x) h = absurd (ground arith)
  usable-overflow refused h = absurd cc
  usable-overflow overflow h = refl

  rate_in-overflow : (v : Value) → rate_in F v ≡ overflow → Overflows
  unfolding rate_in
  rate_in-overflow (object rates) h = (get_or "USD" (int (pos 0)) rates, usable-overflow _ h)
  rate_in-overflow v h = absurd cc

  usd_rate-overflow : (v : Value) → usd_rate F v ≡ overflow → Overflows
  unfolding usd_rate
  usd_rate-overflow v h = rate_in-overflow (get "rates" v) h

  quotient-overflow :
      (v w : Value) (x y : Converted Float)
      → float_of v ≡ x
      → float_of w ≡ y
      → quotient F x y ≡ overflow
      → Overflows
  unfolding quotient
  quotient-overflow v w (converted x) (converted y) e f h = absurd (ground arith)
  quotient-overflow v w (converted x) refused e f h = absurd cc
  quotient-overflow v w (converted x) overflow e f h = (w, f)
  quotient-overflow v w refused y e f h = absurd cc
  quotient-overflow v w overflow y e f h = (v, e)

  continue-overflow :
      (c : Converted Float) (rest : Float → Converted (Option Float))
      → (c ≡ overflow → Overflows)
      → ((x : Float) → rest x ≡ overflow → Overflows)
      → continue F c rest ≡ overflow
      → Overflows
  unfolding continue
  continue-overflow (converted x) rest here later h = later x h
  continue-overflow refused rest here later h = absurd cc
  continue-overflow overflow rest here later h = here refl

  read_items-overflow :
      (items : List Value) (found : Option Float) → read_items F items found ≡ overflow → Overflows
  unfolding read_items item_rate
  read_items-overflow [] found h = absurd cc
  read_items-overflow (object item ∷ items) found h =
      elim (Bool-cases (
        not (is_usd F (get "Cur_Abbreviation" (object item)))
        || not (is_truthy (get "Cur_OfficialRate" (object item))))) [
          | inl skipped ↦ read_items-overflow items found (rw skipped at h)
          | inr taken ↦
              continue-overflow (item_rate F item) (λ x. read_items F items (some x))
                (quotient-overflow _ _ _ _ refl refl) (λ x. read_items-overflow items (some x))
                (rw taken at h)
        ]
  read_items-overflow (v ∷ items) found h = absurd cc

  checked_rate-overflow :
      (found : Converted (Option Float)) → checked_rate F found ≡ overflow → found ≡ overflow
  unfolding checked_rate usable
  checked_rate-overflow (converted none) h = absurd cc
  checked_rate-overflow (converted (some x)) h = absurd (ground arith)
  checked_rate-overflow refused h = absurd cc
  checked_rate-overflow overflow h = refl

  rate_among-overflow : (items : Option (List Value)) → rate_among F items ≡ overflow → Overflows
  unfolding rate_among
  rate_among-overflow none h = absurd cc
  rate_among-overflow (some items) h =
      read_items-overflow items none (checked_rate-overflow (read_items F items none) h)

  rate_of-overflow : (body : Option Value) → rate_of F body ≡ overflow → Overflows
  unfolding rate_of extract_rates
  rate_of-overflow none h = absurd cc
  rate_of-overflow (some body) h = rate_among-overflow (elements body) h

  -- What a call may end in: a payload with a rate that `_usd_rate` accepts, or an OverflowError, if
  -- there is a number too large for a float.
  abbrev pub IsAnswer : Converted Reply → Type 0
  IsAnswer (converted reply) = (x : Float) × (usd_rate F reply.payload ≡ converted x)
  IsAnswer refused = ⊥
  IsAnswer overflow = Overflows

  -- The same of the payload alone.
  abbrev HasRate : Converted Value → Type 0
  HasRate (converted v) = (x : Float) × (usd_rate F v ≡ converted x)
  HasRate refused = ⊥
  HasRate overflow = Overflows

  module _ (stored : (x : Float) → float_of (value_of x) ≡ converted x) where
    usd_rate-payload_of :
        (x : Float) (source now : String)
        → usable F (converted x) ≡ converted x
        → usd_rate F (payload_of F x source now) ≡ converted x
    unfolding usd_rate payload_of get lookup str_dec rate_in get_or
    usd_rate-payload_of x source now h = rw (stored x) h

    usable_idem :
        (c : Converted Float) (x : Float)
        → usable F c ≡ converted x
        → usable F (converted x) ≡ converted x
    unfolding usable
    usable_idem refused x h = absurd cc
    usable_idem overflow x h = absurd cc
    usable_idem (converted y) x h = elim (Bool-cases (not (is_finite y) || le_zero y)) [
      | inl e ↦ absurd (let bad = rw e at h in (cc))
      | inr e ↦ let same : y ≡ x = ground arith in rw (← same) (rw e refl)
    ]

    checked_rate-usable :
        (found : Converted (Option Float)) (x : Float)
        → checked_rate F found ≡ converted x
        → usable F (converted x) ≡ converted x
    unfolding checked_rate
    checked_rate-usable (converted none) x h = absurd cc
    checked_rate-usable (converted (some y)) x h = usable_idem (converted y) x h
    checked_rate-usable refused x h = absurd cc
    checked_rate-usable overflow x h = absurd cc

    rate_of-usable :
        (body : Option Value) (x : Float)
        → rate_of F body ≡ converted x
        → usable F (converted x) ≡ converted x
    unfolding rate_of extract_rates rate_among
    rate_of-usable none x h = absurd cc
    rate_of-usable (some body) x h = among (elements body) h
      where
        among :
            (items : Option (List Value))
            → rate_among F items ≡ converted x
            → usable F (converted x) ≡ converted x
        among none e = absurd cc
        among (some items) e = checked_rate-usable (read_items F items none) x e

    module _
        (default_usable : usable F (converted default_usd_rate) ≡ converted default_usd_rate) where
      substituted-HasRate :
          (now : String) (v : Value) (found : Converted Float)
          → usd_rate F v ≡ found
          → HasRate (substituted F now v found)
      unfolding substituted
      substituted-HasRate now v refused e =
          (default_usd_rate, usd_rate-payload_of default_usd_rate "fallback" now default_usable)
      substituted-HasRate now v (converted x) e = (x, usd_rate-stale v ∙ e)
      substituted-HasRate now v overflow e = usd_rate-overflow v e

      substitute-known :
          (now : String) (last_good : Value) (cached : String → Value) (found : Converted Float)
          → usd_rate F last_good ≡ found
          → HasRate (substitute F now (known_by F last_good cached found))
      unfolding substitute known_by
      substitute-known now last_good cached (converted x) e =
          substituted-HasRate now last_good (usd_rate F last_good) refl
      substitute-known now last_good cached refused e =
          substituted-HasRate now (cached last_good_key) (usd_rate F (cached last_good_key)) refl
      substitute-known now last_good cached overflow e = usd_rate-overflow last_good e

      cached_briefly-IsAnswer :
          (last_good : Value) (payload : Converted Value)
          → HasRate payload
          → IsAnswer (cached_briefly F last_good payload)
      unfolding cached_briefly
      cached_briefly-IsAnswer last_good (converted v) h = h
      cached_briefly-IsAnswer last_good refused h = h
      cached_briefly-IsAnswer last_good overflow h = h

      request-IsAnswer :
          (now : String) (last_good : Value) (cached : String → Value) (body : Option Value)
          (rate : Converted Float)
          → rate_of F body ≡ rate
          → IsAnswer (request F now last_good cached rate)
      unfolding request fresh failed known
      request-IsAnswer now last_good cached body (converted x) e =
          (x, usd_rate-payload_of x "nbrb" now (rate_of-usable body x e))
      request-IsAnswer now last_good cached body refused e =
          cached_briefly-IsAnswer last_good _
            (substitute-known now last_good cached (usd_rate F last_good) refl)
      request-IsAnswer now last_good cached body overflow e = rate_of-overflow body e

      unless_cached-IsAnswer :
          (last_good : Value) (cached : String → Value) (reply : Converted Reply)
          (found : Converted Float)
          → usd_rate F (cached rates_key) ≡ found
          → IsAnswer reply
          → IsAnswer (unless_cached F last_good cached reply found)
      unfolding unless_cached
      unless_cached-IsAnswer last_good cached reply refused e h = h
      unless_cached-IsAnswer last_good cached reply (converted x) e h = (x, e)
      unless_cached-IsAnswer last_good cached reply overflow e h =
          usd_rate-overflow (cached rates_key) e

      -- Whatever the cache holds, the bank answers and the service remembers, `get_rates` returns a
      -- payload with a rate of the dollar that `_usd_rate` accepts, or raises OverflowError, and that only
      -- if some value overflows when it is made a float; if a float is read back from a payload as it is
      -- and the hardcoded rate is finite and positive.
      pub get_rates-usable :
          (now : String) (last_good : Value) (cached : String → Value) (body : Option Value)
          → IsAnswer (get_rates F now last_good cached body)
      unfolding get_rates
      get_rates-usable now last_good cached body =
          unless_cached-IsAnswer last_good cached (request F now last_good cached (rate_of F body))
            (usd_rate F (cached rates_key)) refl
            (request-IsAnswer now last_good cached body (rate_of F body) refl)

  -- An outage: the cache has no current rate and the bank fails. The last rate that the service got
  -- from the bank goes on being returned, it stays remembered, and it is cached for a minute only,
  -- under the key of the current rates.
  pub get_rates_outage :
      (now : String) (last_good : Value) (cached : String → Value) (body : Option Value) (x : Float)
      → usd_rate F (cached rates_key) ≡ refused
      → rate_of F body ≡ refused
      → usd_rate F last_good ≡ converted x
      → (get_rates F now last_good cached body
          ≡ converted record {
            payload = stale last_good;
            last_good = last_good;
            writes = record { key = rates_key; payload = stale last_good; ttl = fallback_ttl } ∷ [];
          })
        × (usd_rate F (stale last_good) ≡ converted x)
  unfolding get_rates failed known known_by substitute substituted request unless_cached
      cached_briefly
  get_rates_outage now last_good cached body x e k h =
      (rw (e, k, h, h) refl, usd_rate-stale last_good ∙ h)
