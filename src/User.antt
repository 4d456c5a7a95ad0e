-- ===== src/User.antt =====
-- The table `users` (`User` of api/models.py) and api/services/users.py. A transaction runs alone:
-- `lock_user` makes the transactions of one user run one after another, and changes no row.
pub mod Laws
use rafuk.Base.{
  ℕ, ◌==◌, String, Bool, ite, Option, none, some, List, [], ◌∷◌, str_dec, if◌then◌else◌, ◌+◌,
}
use rafuk.Base.Text.{truncate}
use rafuk.Market.TextLib.{TextLib}

pub record User : Type 0 where
  pub telegram_user_id : ℕ
  pub first_name : String
  pub username : Option String
  pub last_seen_at : Option ℕ

-- `MAX_ACTIVE_TRACKERS_PER_USER`, `MAX_ACTIVE_SAVED_SEARCHES_PER_USER`, `MAX_WATCHLIST_ITEMS_PER_USER`
abbrev pub max_active_trackers : ℕ
max_active_trackers = 50

abbrev pub max_saved_searches : ℕ
max_saved_searches = 20

abbrev pub max_watchlist_items : ℕ
max_watchlist_items = 300

-- `value[:_NAME_MAX_LENGTH] or None`, of a stripped value
clip_text : String → Option String
clip_text value = let short = truncate 128 value in ite (str_dec short "") none (some short)

-- The values of the insert.
pub new_user : ℕ → Option String → Option String → ℕ → User
new_user id first_name username now = record {
  telegram_user_id = id;
  first_name = elim first_name [ none ↦ "" | some n ↦ n ];
  username = username;
  last_seen_at = some now;
}

-- The values of the update: a name that was not given stays.
pub renewed : Option String → Option String → ℕ → User → User
renewed first_name username now u = record u {
  first_name = elim first_name [ none ↦ u.first_name | some n ↦ n ];
  username = elim username [ none ↦ u.username | some n ↦ some n ];
  last_seen_at = some now;
}

-- `INSERT ... ON CONFLICT (telegram_user_id) DO UPDATE`
upsert : ℕ → Option String → Option String → ℕ → List User → List User
unfolding new_user renewed
upsert id first_name username now [] = new_user id first_name username now ∷ []
upsert id first_name username now (u ∷ users) =
    if u.telegram_user_id == id
    then renewed first_name username now u ∷ users
    else u ∷ upsert id first_name username now users

-- `_clip`
pub clip : TextLib → Option String → Option String
unfolding clip_text
clip lib none = none
clip lib (some value) = clip_text (lib.strip value)

unfoldable pub ensure_user : TextLib → ℕ → Option String → Option String → ℕ → List User → List User
unfolding upsert clip
ensure_user lib id first_name username now users =
    upsert id (clip lib first_name) (clip lib username) now users

-- The row of a user.
unfoldable pub user_row : ℕ → List User → Option User
user_row id [] = none
user_row id (u ∷ users) = if u.telegram_user_id == id then some u else user_row id users
