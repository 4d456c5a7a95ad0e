-- ===== src/Kufar/Payload.antt =====
-- Reading an answer of Kufar: `extract_next_cursor`, `extract_total`, `_ad_id_key` and the ads of a page.
use rafuk.Base.{
  String, Bool, true, false, Option, none, some, List, [], ◌∷◌, ite, str_dec, if◌then◌else◌, keep,
}
use rafuk.Base.Int.{ℤ}
use rafuk.Json.{Value, int, float, text, get, elements, is_object}
use rafuk.Market.TextLib.{TextLib}

-- `int(value)` of a value that is no text; `none` is an exception that the code catches.
unfoldable pub int_of_value : TextLib → Value → Option ℤ
int_of_value lib (int n) = some n
int_of_value lib (float x) = x.whole
int_of_value lib (text s) = lib.int_of s
int_of_value lib v = none

-- `_ad_id_key`
unfoldable pub ad_id_key : TextLib → Value → Option ℤ
unfolding int_of_value
ad_id_key lib ad = int_of_value lib (get "ad_id" ad)

-- `extract_total`
unfoldable pub extract_total : TextLib → Value → Option ℤ
unfolding int_of_value
extract_total lib response = int_of_value lib (get "total" response)

-- The dictionaries of the list of ads; anything else on a page is skipped.
unfoldable pub page_ads : Value → List Value
page_ads page = elim (elements (get "ads" page)) [ none ↦ [] | some ads ↦ keep is_object ads ]

-- `token_of`
token_text : Value → Option String
token_text (text token) = ite (str_dec token "") none (some token)
token_text v = none

unfoldable pub token_of : Value → Option String
unfolding token_text
token_of page = token_text (get "token" page)

unfoldable pub has_label : Value → Bool
has_label page = elim (get "label" page) [ text s ↦ true | _ ↦ false ]

module _ (lib : TextLib) where
  -- `isinstance(label, str) and label.strip().lower() == "next"`
  next_text : Value → Bool
  next_text (text label) = ite (str_dec (lib.lower (lib.strip label)) "next") true false
  next_text v = false

  unfoldable pub is_next : Value → Bool
  unfolding next_text
  is_next page = next_text (get "label" page)

  -- The first entry that is labelled "next".
  unfoldable pub next_entry : List Value → Option Value
  unfolding is_next
  next_entry [] = none
  next_entry (page ∷ pages) = if is_next page then some page else next_entry pages

  unfoldable pub any_label : List Value → Bool
  unfolding has_label
  any_label [] = false
  any_label (page ∷ pages) = if has_label page then true else any_label pages

  -- The loop over the entries, and what follows it.
  pick_entry : List Value → Option String
  unfolding next_entry any_label token_of
  pick_entry [] = none
  pick_entry (page ∷ pages) = elim (next_entry (page ∷ pages)) [
    | some next ↦ token_of next
    | none ↦ if any_label (page ∷ pages) then none else token_of page
  ]

  -- A missing key ends like a value that is no list.
  unfoldable pub extract_next_cursor : Value → Option String
  unfolding pick_entry
  extract_next_cursor response = elim (elements (get "pages" (get "pagination" response))) [
    | none ↦ none
    | some pages ↦ pick_entry (keep is_object pages)
  ]
