-- ===== src/Market/Query.antt =====
-- Search queries: normalization, tokens, keys and strict matching, of api/services/aggregator.py.
-- The patterns are those of the source, with `W` for its `_WORD_CHARS`.
pub mod Key
use Prim.Native.String.{◌++◌, count}
use rafuk.Base.{
  ℕ, ◌-◌, String, Bool, true, false, not, ◌&&◌, ◌||◌, ite, keep, Option, none, some, List, [], ◌∷◌,
  str_dec, leb, if◌then◌else◌, any,
}
use rafuk.Base.Text.{truncate}
use rafuk.Market.Ad.{Ad}
use rafuk.Market.TextLib.{TextLib}

-- `" ".join(words)`
unfoldable pub join_words : List String → String
join_words [] = ""
join_words (w ∷ []) = w
join_words (w ∷ v ∷ ws) = w ++ (" " ++ join_words (v ∷ ws))

-- `word in words`
unfoldable pub contains : List String → String → Bool
contains [] word = false
contains (w ∷ ws) word = ite (str_dec w word) true (contains ws word)

-- `(?<![W])source(?![W])`
whole_word : String → String
whole_word source = "(?<![0-9a-zа-я])" ++ (source ++ "(?![0-9a-zа-я])")

-- `SEARCH_ALIASES`, in its order
abbrev search_aliases : List (String × String)
search_aliases =
    ("айфон", "iphone")
    ∷ ("макбук", "macbook")
    ∷ ("мак бук", "macbook")
    ∷ ("playstation", "ps")
    ∷ ("play station", "ps")
    ∷ ("плейстейшен", "ps")
    ∷ ("пс", "ps")
    ∷ ("пс5", "ps5")
    ∷ ("пс4", "ps4")
    ∷ ("ps 5", "ps5")
    ∷ ("ps 4", "ps4")
    ∷ ("слим", "slim")
    ∷ ("phat", "fat")
    ∷ ("фат", "fat")
    ∷ ("про макс", "pro max")
    ∷ ("promax", "pro max")
    ∷ ("про", "pro")
    ∷ []

-- `PLAYSTATION_CONTEXT_ALIASES`
abbrev playstation_aliases : List (String × String)
playstation_aliases = ("обычная", "fat") ∷ ("обычный", "fat") ∷ []

-- `STRICT_VARIANT_TOKENS`
abbrev strict_variant_tokens : List String
strict_variant_tokens =
    "pro" ∷ "max" ∷ "plus" ∷ "mini" ∷ "ultra" ∷ "air" ∷ "lite" ∷ "note" ∷ "fe" ∷ "flip" ∷ "fold"
    ∷ "studio" ∷ "slim" ∷ "fat" ∷ []

-- `QUERY_KEY_MAX_LENGTH`
abbrev pub query_key_max_length : ℕ
query_key_max_length = 255

module _ (lib : TextLib) where
  -- `for pattern, target in patterns: text = pattern.sub(target, text)`
  sub_all : List (String × String) → String → String
  sub_all [] text = text
  sub_all ((source, target) ∷ rest) text = sub_all rest (lib.sub (whole_word source) target text)

  -- `str(int(group) * 1024)`, of a group that is "1" or "2"
  gigabytes : String → String
  gigabytes group = ite (str_dec group "1") "1024" "2048"

  playstation_context : String → String
  unfolding sub_all
  playstation_context text =
      if lib.search "(?<![0-9a-zа-я])ps[345]?(?![0-9a-zа-я])" text
      then sub_all playstation_aliases text
      else text

  -- `normalize_search_text`
  pub normalize_search_text : String → String
  unfolding sub_all playstation_context gigabytes
  normalize_search_text value =
      let folded = lib.translate_letters (lib.casefold value) in
      let plus = lib.sub "([0-9a-zа-я])\\++(?![0-9])" "\\1 plus " folded in
      let generation =
        lib.sub "(?<![0-9a-zа-я])(?:play\\s*station|плейстейшен)\\s*([345])(?![0-9a-zа-я])" "ps\\1"
          plus in
      let aliased = playstation_context (sub_all search_aliases generation) in
      let gb = lib.sub "(\\d+)\\s*гб\\b" "\\1" (lib.sub "(\\d+)\\s*gb\\b" "\\1" aliased) in
      let pair = lib.sub "(\\d+)\\s*/\\s*(\\d+)" "\\1 \\2" gb in
      let tb = lib.sub_with "\\b([12])\\s*(?:tb|тб)\\b" gigabytes pair in
      let words = lib.sub "(?i)[^a-zа-я0-9]+" " " tb in join_words (lib.split words)

  -- `tokenize_search_text`
  pub tokenize_search_text : String → List String
  tokenize_search_text value =
      let normalized = normalize_search_text value in
      ite (str_dec normalized "") [] (lib.split normalized)

  prefix_of : Bool → String
  prefix_of strict_search = if strict_search then "strict::" else "broad::"

  -- A key that is too long keeps a truncated part and a digest of the whole.
  long_key : String → String → String
  long_key prefix normalized =
      let digest = lib.short_digest normalized in
      let room = query_key_max_length - count prefix - count digest - 1 in
      prefix ++ (lib.rstrip (truncate room normalized) ++ ("#" ++ digest))

  pub build_query_key : String → Bool → String
  unfolding prefix_of long_key
  build_query_key query strict_search =
      let prefix = prefix_of strict_search in
      let normalized = normalize_search_text query in
      let key = prefix ++ normalized in
      if leb (count key) query_key_max_length then key else long_key prefix normalized

  all_in : List String → List String → Bool
  all_in [] title = true
  all_in (w ∷ ws) title = contains title w && all_in ws title

  -- `not title_variants - query_variants`
  no_extra_variant : List String → List String → Bool
  no_extra_variant query [] = true
  no_extra_variant query (w ∷ title) =
      (not (contains strict_variant_tokens w) || contains query w) && no_extra_variant query title

  match_tokens : List String → List String → Bool
  unfolding all_in no_extra_variant
  match_tokens [] title = false
  match_tokens (w ∷ query) [] = false
  match_tokens (w ∷ query) (v ∷ title) =
      all_in (w ∷ query) (v ∷ title) && no_extra_variant (w ∷ query) (v ∷ title)

  pub is_strict_match : String → String → Bool
  unfolding match_tokens
  is_strict_match title query =
      match_tokens (tokenize_search_text query) (tokenize_search_text title)

  subject_of : Ad → String
  subject_of ad = elim ad.subject [ none ↦ "" | some s ↦ s ]

  -- `apply_search_mode`
  pub apply_search_mode : List Ad → String → Bool → List Ad
  unfolding is_strict_match subject_of
  apply_search_mode ads query strict_search =
      if strict_search then keep (λ ad. is_strict_match (subject_of ad) query) ads else ads
