-- ===== src/Tracker.antt =====
-- Trackers: `Tracker` of api/models.py and api/services/tracker_service.py. The numbers of the
-- filters are whole ten-thousandths, to which the source rounds them for comparison.
pub mod Interval
pub mod Service
pub mod Activation
pub mod Rows
pub mod Resume
pub mod Invariant
pub mod Operations
pub mod Stops
pub mod Restart
pub mod Runs
mod Tests
use rafuk.Base.{
  ℕ, ◌==◌, String, Bool, true, false, not, ◌&&◌, ite, Option, none, some, List, [], ◌∷◌, str_dec,
  if◌then◌else◌, ℕ_discrete,
}
use rafuk.Market.TextLib.{TextLib}
use rafuk.Market.Query.{normalize_search_text, build_query_key}

-- The query and the filters of a tracker: what its alerts depend on.
pub record Filters : Type 0 where
  pub query : String
  pub strict_mode : Bool
  pub min_discount_percent : Option ℕ
  pub max_price_byn : Option ℕ
  pub seller_type : Option String
  pub condition : Option String
  pub region_name : Option String
  pub config_keyword : Option String
  pub exclude_duplicates : Bool

pub record Tracker : Type 0 where
  pub id : ℕ
  pub user_id : ℕ
  pub filters : Filters
  pub open filters use *
  pub interval_min : ℕ
  pub last_seen_ad_id : Option ℕ
  pub last_seen_price_byn : Option ℕ
  pub last_checked_at : Option ℕ
  pub active : Bool
  pub deleted_at : Option ℕ

-- The tuple of `_tracker_identity`.
pub record Identity : Type 0 where
  pub query_key : String
  pub strict : Bool
  pub min_discount : Option ℕ
  pub max_price : Option ℕ
  pub seller : Option String
  pub condition_text : Option String
  pub region : Option String
  pub keyword : Option String
  pub no_duplicates : Bool

unfoldable pub Identity-discrete : Discrete Identity
Identity-discrete = hlevel (ℕ_discrete, str_dec)

-- `value or None`
or_none : String → Option String
or_none value = ite (str_dec value "") none (some value)

module _ (lib : TextLib) where
  -- `_clean_text`
  pub clean_text : Option String → Option String
  unfolding or_none
  clean_text none = none
  clean_text (some value) = or_none (lib.strip value)

  -- `_normalized_keyword`
  pub normalized_keyword : Option String → Option String
  unfolding or_none
  normalized_keyword none = none
  normalized_keyword (some value) =
      ite (str_dec value "") none (or_none (normalize_search_text lib value))

  -- `_tracker_identity`
  pub identity_of : Filters → Identity
  unfolding clean_text normalized_keyword
  identity_of f = record {
    query_key = build_query_key lib f.query f.strict_mode;
    strict = f.strict_mode;
    min_discount = f.min_discount_percent;
    max_price = f.max_price_byn;
    seller = clean_text f.seller_type;
    condition_text = clean_text f.condition;
    region = clean_text f.region_name;
    keyword = normalized_keyword f.config_keyword;
    no_duplicates = f.exclude_duplicates;
  }

  -- `tracker_identity`
  abbrev pub tracker_identity : Tracker → Identity
  tracker_identity t = identity_of t.filters
