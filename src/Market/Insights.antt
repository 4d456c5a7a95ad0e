-- ===== src/Market/Insights.antt =====
-- What a query or a title says of a configuration: `analyze_query_text` of
-- api/services/reseller_tools.py, and the names that follow from it. A pattern is named by the
-- constant that holds it; `numbers` gives the groups of its first match, as integers.
use Prim.Native.String.{◌++◌}
use rafuk.Base.{
  ℕ, ◌*◌, ◌==◌, String, Bool, false, not, ◌&&◌, ◌||◌, Option, none, some, List, [], ◌∷◌, ite,
  str_dec, keep, map, if◌then◌else◌,
}
use rafuk.Base.Int.{pos}
use rafuk.Base.Text.{truncate}
use rafuk.Market.TextLib.{TextLib}
use rafuk.Market.Query.{contains, join_words, normalize_search_text, tokenize_search_text}

pub record PatternLib : Type 0 where
  -- the groups of `pattern.search(s)`, as `int`s
  pub numbers : String → String → Option (List ℕ)
  -- `s.title()`
  pub title : String → String

pub record QueryInsights : Type 0 where
  pub normalized_query : String
  pub config_summary : Option String
  pub storage_gb : Option ℕ
  pub ram_gb : Option ℕ
  pub model_tokens : List String

-- `_CONFIG_TOKENS`, `_SKIP_TOKENS`
abbrev config_tokens : List String
config_tokens =
    "pro" ∷ "max" ∷ "plus" ∷ "mini" ∷ "ultra" ∷ "air" ∷ "lite" ∷ "note" ∷ "fe" ∷ "flip" ∷ "fold"
    ∷ "slim" ∷ "fat" ∷ "new" ∷ "used" ∷ []

abbrev skip_tokens : List String
skip_tokens = "gb" ∷ "гб" ∷ "ram" ∷ "озу" ∷ "ssd" ∷ "hdd" ∷ []

-- `match.group(1)`, `match.group(2)`
first_group : List ℕ → Option ℕ
first_group [] = none
first_group (n ∷ groups) = some n

second_group : List ℕ → Option ℕ
unfolding first_group
second_group [] = none
second_group (n ∷ groups) = first_group groups

-- The first of the matches that there is.
or_else : Option ℕ → Option ℕ → Option ℕ
or_else (some n) other = some n
or_else none other = other

grouped : (List ℕ → Option ℕ) → Option (List ℕ) → Option ℕ
grouped pick none = none
grouped pick (some groups) = pick groups

times_1024 : Option ℕ → Option ℕ
times_1024 none = none
times_1024 (some n) = some (n * 1024)

-- `dict.fromkeys(words)`, in its order
unique : List String → List String → List String
unique seen [] = []
unique seen (w ∷ words) =
    let rest = unique (w ∷ seen) words in
    let same = unique seen words in if contains seen w then same else w ∷ rest

-- `text or None`
text_or_none : String → Option String
text_or_none s = ite (str_dec s "") none (some s)

is_positive : Option ℕ → Bool
is_positive none = false
is_positive (some n) = not (n == 0)

-- `s[:128]`
clip128 : String → String
clip128 s = truncate 128 s

module _ (lib : TextLib) (patterns : PatternLib) where
  -- One of the three patterns of memory and storage.
  pair_group : (List ℕ → Option ℕ) → String → Option ℕ
  unfolding grouped or_else
  pair_group pick s = or_else (grouped pick (patterns.numbers "_RAM_STORAGE_RE" s)) (
      or_else (grouped pick (patterns.numbers "_RAM_STORAGE_GB_RE" s))
        (grouped pick (patterns.numbers "_RAM_STORAGE_SPACED_RE" s)))

  -- `_extract_storage_gb`
  unfoldable pub extract_storage_gb : String → Option ℕ
  unfolding pair_group grouped or_else first_group second_group times_1024
  extract_storage_gb s = or_else (pair_group second_group s) (
      or_else (times_1024 (grouped first_group (patterns.numbers "_TB_RE" s))) (
        or_else (grouped first_group (patterns.numbers "_GB_RE" s))
          (grouped first_group (patterns.numbers "_STORAGE_TOKEN_RE" s))))

  -- `_extract_ram_gb`
  unfoldable pub extract_ram_gb : String → Option ℕ
  unfolding pair_group grouped or_else first_group
  extract_ram_gb s =
      or_else (pair_group first_group s) (grouped first_group (patterns.numbers "_RAM_RE" s))

  number_text : Option ℕ → String
  number_text none = ""
  number_text (some n) = lib.int_text (pos n)

  -- `_model_tokens`
  unfoldable pub model_tokens_of : List String → Option ℕ → Option ℕ → List String
  unfolding number_text
  model_tokens_of tokens storage ram =
      keep
        (λ token. not (
          contains skip_tokens token
          || (contains (number_text storage ∷ number_text ram ∷ []) token || lib.is_digit token)))
        tokens

  -- `variants`
  variants : List String → List String
  variants tokens = map patterns.title (keep (λ token. contains config_tokens token) tokens)

  -- `parts`, from the variants and the part on memory
  with_variants : List String → List String → List String
  unfolding unique
  with_variants [] parts = parts
  with_variants (w ∷ words) parts = join_words (unique [] (w ∷ words)) ∷ parts

  -- `if ram_gb and storage_gb ... elif storage_gb ... elif ram_gb`
  memory_part : Option ℕ → Option ℕ → List String
  unfolding number_text is_positive
  memory_part storage ram =
      if is_positive ram && is_positive storage
      then (number_text ram ++ ("/" ++ number_text storage)) ∷ []
      else if is_positive storage
      then (number_text storage ++ "GB") ∷ []
      else if is_positive ram
      then (number_text ram ++ "GB RAM") ∷ []
      else []

  -- `_format_config_summary`
  unfoldable pub format_config_summary : Option ℕ → Option ℕ → List String → Option String
  unfolding variants with_variants memory_part text_or_none
  format_config_summary storage ram tokens =
      text_or_none (join_words (with_variants (variants tokens) (memory_part storage ram)))

  unfoldable pub analyze_query_text : String → QueryInsights
  unfolding extract_storage_gb extract_ram_gb model_tokens_of format_config_summary
  analyze_query_text value =
      let normalized = normalize_search_text lib value in
      let tokens = tokenize_search_text lib value in
      let storage = extract_storage_gb normalized in
      let ram = extract_ram_gb normalized in
      record {
        normalized_query = normalized;
        config_summary = format_config_summary storage ram tokens;
        storage_gb = storage;
        ram_gb = ram;
        model_tokens = model_tokens_of tokens storage ram;
      }

  named : String → Option String → String
  unfolding clip128
  named query none = clip128 query
  named query (some summary) = clip128 (query ++ (" · " ++ summary))

  unfoldable pub default_saved_search_name : String → String
  unfolding named
  default_saved_search_name query =
      named (lib.strip query) (analyze_query_text query).config_summary

  unfoldable pub default_config_keyword : String → String
  unfolding clip128
  default_config_keyword query = clip128 (analyze_query_text query).normalized_query
