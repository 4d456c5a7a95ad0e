-- ===== src/SavedSearch.antt =====
-- Saved searches: `SavedSearch` of api/models.py and the handlers of api/routers/saved_searches.py that
-- keep them. Rows stand in the order of their creation; the amounts of the filters are whole
-- ten-thousandths, the discount with a sign. A handler runs in one transaction: `lock_user` makes
-- those of one user run one after another, and an `HTTPException` rolls it back.
pub mod Spec
pub mod Board
mod Tests
use rafuk.Base.{
  ℕ, suc, ◌+◌, ◌==◌, ◌&&◌, String, Bool, true, false, Option, none, some, List, [], ◌∷◌, ◌++◌, ite,
  str_dec, leb, length, keep, map, if◌then◌else◌,
}
use mathlib.Core.List.{reverse}
use rafuk.Base.Int.{ℤ, pos, negsuc}
use rafuk.Market.TextLib.{TextLib}
use rafuk.Market.Insights.{PatternLib, default_saved_search_name}
use rafuk.Tracker.Service.{max_db_id}
use rafuk.User.{User, ensure_user, max_saved_searches}

-- The columns that the code sets.
pub record SavedSearch : Type 0 where
  pub id : ℕ
  pub user_id : ℕ
  pub name : String
  pub group_name : Option String
  pub query : String
  pub strict_mode : Bool
  pub target_discount_percent : ℕ
  pub max_price_byn : Option ℕ
  pub seller_type : Option String
  pub condition : Option String
  pub region_name : Option String
  pub config_keyword : Option String
  pub exclude_duplicates : Bool
  pub active : Bool
  pub deleted_at : Option ℕ

-- `SavedSearchCreate`, validated.
pub record Payload : Type 0 where
  pub name : Option String
  pub group_name : Option String
  pub query : String
  pub strict_mode : Bool
  pub target_discount_percent : ℤ
  pub max_price_byn : Option ℕ
  pub seller_type : Option String
  pub condition : Option String
  pub region_name : Option String
  pub config_keyword : Option String
  pub exclude_duplicates : Bool

-- The user of a request.
pub record Caller : Type 0 where
  pub user_id : ℕ
  pub first_name : Option String
  pub username : Option String

pub record Db : Type 0 where
  pub users : List User
  pub searches : List SavedSearch
  pub next_id : ℕ

pub data Request : Type 0 where
  create : Caller → Payload → ℕ → Request
  delete : ℕ → ℕ → ℕ → Request
  list : ℕ → Request

-- What a handler answers: 201, 200, 204, 404, 409 and 422.
pub data Answer : Type 0 where
  created : SavedSearch → Answer
  listed : List SavedSearch → Answer
  deleted : Answer
  not_found : Answer
  limit_reached : Answer
  unprocessable : Answer

-- `abs(value)`
unfoldable pub abs : ℤ → ℕ
abs (pos n) = n
abs (negsuc n) = suc n

-- `SavedSearch.user_id == user_id, SavedSearch.active.is_(True)`
unfoldable pub is_active_of : ℕ → SavedSearch → Bool
is_active_of user_id s = s.user_id == user_id && s.active

-- `get_saved_searches`: the newest first
unfoldable pub get_saved_searches : ℕ → List SavedSearch → List SavedSearch
unfolding is_active_of
get_saved_searches user_id searches = reverse (keep (is_active_of user_id) searches)

-- `count_user_rows` of the active searches
unfoldable pub active_count : ℕ → List SavedSearch → ℕ
unfolding is_active_of
active_count user_id searches = length (keep (is_active_of user_id) searches)

-- `scalar_one_or_none`; `id` is the primary key.
unfoldable pub find_active : ℕ → ℕ → List SavedSearch → Option SavedSearch
unfolding is_active_of
find_active user_id id [] = none
find_active user_id id (s ∷ searches) =
    if s.id == id && is_active_of user_id s then some s else find_active user_id id searches

-- `active = False`, `deleted_at = now`, of the row that was found
unfoldable pub deactivate : ℕ → ℕ → ℕ → SavedSearch → SavedSearch
unfolding is_active_of
deactivate user_id id now s =
    if s.id == id && is_active_of user_id s
    then record s { active = false; deleted_at = some now }
    else s

unfoldable pub delete_row : ℕ → ℕ → ℕ → Db → Option SavedSearch → Db × Answer
unfolding deactivate
delete_row user_id id now db none = (db, not_found)
delete_row user_id id now db (some s) =
    (record db { searches = map (deactivate user_id id now) db.searches }, deleted)

-- `delete_saved_search`; the path parameter lies between 1 and `MAX_DB_ID`
unfoldable pub delete_saved_search : ℕ → ℕ → ℕ → Db → Db × Answer
unfolding delete_row find_active
delete_saved_search user_id id now db =
    if leb 1 id && leb id max_db_id
    then delete_row user_id id now db (find_active user_id id db.searches)
    else (db, unprocessable)

module _ (lib : TextLib) (patterns : PatternLib) where
  -- `(text or "").strip() or None`
  unfoldable pub clean : Option String → Option String
  clean none = none
  clean (some s) = ite (str_dec (lib.strip s) "") none (some (lib.strip s))

  -- `(payload.name or "").strip() or default_saved_search_name(query)`
  unfoldable pub name_for : Option String → String → String
  name_for none query = default_saved_search_name lib patterns query
  name_for (some s) query =
      ite (str_dec (lib.strip s) "") (default_saved_search_name lib patterns query) (lib.strip s)

  -- The row of a payload.
  unfoldable pub row_of : ℕ → ℕ → String → Payload → SavedSearch
  unfolding clean name_for abs
  row_of id user_id query p = record {
    id = id;
    user_id = user_id;
    name = name_for p.name query;
    group_name = clean p.group_name;
    query = query;
    strict_mode = p.strict_mode;
    target_discount_percent = abs p.target_discount_percent;
    max_price_byn = p.max_price_byn;
    seller_type = p.seller_type;
    condition = p.condition;
    region_name = p.region_name;
    config_keyword = clean p.config_keyword;
    exclude_duplicates = p.exclude_duplicates;
    active = true;
    deleted_at = none;
  }

  unfoldable pub insert_row : Caller → Payload → ℕ → String → Db → Db × Answer
  unfolding row_of active_count
  insert_row caller p now query db =
      if leb max_saved_searches (active_count caller.user_id db.searches)
      then (db, limit_reached)
      else (
        record {
          users = ensure_user lib caller.user_id caller.first_name caller.username now db.users;
          searches = db.searches ++ row_of db.next_id caller.user_id query p ∷ [];
          next_id = suc db.next_id;
        },
        created (row_of db.next_id caller.user_id query p),
      )

  -- `create_saved_search`
  unfoldable pub create_saved_search : Caller → Payload → ℕ → Db → Db × Answer
  unfolding insert_row
  create_saved_search caller p now db =
      ite (str_dec (lib.strip p.query) "") (db, unprocessable)
        (insert_row caller p now (lib.strip p.query) db)

  unfoldable pub handle : Request → Db → Db × Answer
  unfolding create_saved_search delete_saved_search get_saved_searches
  handle (create caller p now) db = create_saved_search caller p now db
  handle (delete user_id id now) db = delete_saved_search user_id id now db
  handle (list user_id) db = (db, listed (get_saved_searches user_id db.searches))

  -- The requests one after another.
  unfoldable pub run : List Request → Db → Db × List Answer
  unfolding handle
  run [] db = (db, [])
  run (r ∷ requests) db =
      let (next, answer) = handle r db in
      let (last, answers) = run requests next in (last, answer ∷ answers)
