-- ===== src/Auth.antt =====
-- Who sends a request: api/middleware/telegram_auth.py, and `init_data_username` of
-- api/services/users.py. The query-string parser, the JSON decoder and HMAC are parameters.
pub mod Checks
pub mod Limits
mod Tests
use Prim.Native.String.{◌++◌}
use rafuk.Base.{
  ℕ, suc, String, ◌+◌, ◌==◌, not, Bool, true, false, ◌&&◌, Option, none, some, List, [], ◌∷◌, ite,
  str_dec, ltb, if◌then◌else◌, map,
}
use rafuk.Base.Int.{ℤ, pos, negsuc, pos_part}
use rafuk.Base.Time.{seconds}
use rafuk.Base.OrderedDict.{find, without, assign}
use rafuk.Json.{Value, Fields, null, bool, int, float, text, object, get_or, is_truthy}
use rafuk.Market.TextLib.{TextLib}

-- What the module takes from Python's libraries. Bytes are texts of as many characters.
pub record WebLib : Type 0 where
  -- `urllib.parse.parse_qsl(s, keep_blank_values=True)`
  pub parse_qsl : String → List (String × String)
  -- `sorted(items)` of pairs of texts, `"\n".join(lines)`
  pub sorted : List (String × String) → List (String × String)
  pub join : List String → String
  -- `hmac.new(key, message, hashlib.sha256).digest()`, and its `hexdigest()`
  pub hmac_digest : String → String → String
  pub hmac_hexdigest : String → String → String
  -- `json.loads(s)` (none: ValueError), `str(value)`
  pub loads : String → Option Value
  pub str : Value → String

pub record TelegramInitData : Type 0 where
  pub user_id : ℤ
  pub first_name : String
  pub raw : List (String × String)
  pub username : Option String
  pub auth_date : ℤ

-- The errors, one for each message of a `ValueError`.
pub data AuthError : Type 0 where
  empty : AuthError
  missing_hash : AuthError
  invalid_signature : AuthError
  missing_auth_date : AuthError
  no_integer : AuthError
  in_future : AuthError
  expired : AuthError
  unreadable_user : AuthError

pub data Checked (A : Type 0) : Type 0 where
  accepted : A → Checked A
  refused : AuthError → Checked A

infixl 5 ◌>>=◌
abbrev pub ◌>>=◌ : {A B : Type 0} → Checked A → (A → Checked B) → Checked B
accepted a >>= f = f a
refused e >>= f = refused e

-- `MAX_AUTH_DATE_SKEW_SECONDS`
abbrev pub max_skew : ℕ
max_skew = 60

-- `dict(pairs)`: the last value of a key counts
unfoldable pub dict : List (String × String) → List (String × String) → List (String × String)
dict [] d = d
dict ((k, v) ∷ pairs) d = dict pairs (assign str_dec k v d)

-- `auth_date - now > MAX_AUTH_DATE_SKEW_SECONDS`
unfoldable pub is_future : ℤ → ℕ → Bool
is_future (pos n) now = ltb (now + seconds max_skew) (seconds n)
is_future (negsuc n) now = false

-- `now - auth_date > max_age_seconds`
unfoldable pub is_older : ℤ → ℕ → ℕ → Bool
is_older (pos n) age now = ltb (seconds n + seconds age) now
is_older (negsuc n) age now = ltb (seconds age) (now + seconds (suc n))

-- `max_age_seconds > 0 and now - auth_date > max_age_seconds`
unfoldable pub is_expired : ℤ → ℤ → ℕ → Bool
unfolding is_older
is_expired date max_age now = ltb 0 (pos_part max_age) && is_older date (pos_part max_age) now

check_date : ℤ → ℤ → ℕ → Checked ℤ
unfolding is_future is_expired
check_date date max_age now =
    if is_future date now
    then refused in_future
    else if is_expired date max_age now
    then refused expired
    else accepted date

module _ (lib : TextLib) (web : WebLib) where
  signed : List (String × String) → List String
  signed [] = []
  signed ((k, v) ∷ items) = (k ++ ("=" ++ v)) ∷ signed items

  -- `expected_hash`, of the fields without `hash`
  unfoldable pub expected_hash : String → List (String × String) → String
  unfolding signed
  expected_hash bot_token parsed =
      web.hmac_hexdigest (web.hmac_digest "WebAppData" bot_token)
        (web.join (signed (web.sorted parsed)))

  -- The signed fields against the hash that came with them. For a hash with a character outside ASCII
  -- `compare_digest` raises TypeError; that is no acceptance either, and stands here as the same refusal.
  unfoldable pub check_hash :
      String → List (String × String) → Option String → Checked (List (String × String))
  check_hash bot_token parsed none = refused missing_hash
  check_hash bot_token parsed (some received) = ite (str_dec received "") (refused missing_hash) (
      ite (str_dec (expected_hash bot_token parsed) received) (accepted parsed)
        (refused invalid_signature))

  unfoldable pub verify_telegram_signature : String → String → Checked (List (String × String))
  unfolding dict check_hash
  verify_telegram_signature init_data bot_token =
      let fields = dict (web.parse_qsl init_data) [] in
      ite (str_dec init_data "") (refused empty)
        (check_hash bot_token (without str_dec "hash" fields) (find str_dec "hash" fields))

  unfoldable pub check_auth_date : Option String → ℤ → ℕ → Checked ℤ
  unfolding check_date
  check_auth_date none max_age now = refused missing_auth_date
  check_auth_date (some raw) max_age now =
      ite (str_dec raw "") (refused missing_auth_date) (elim (lib.int_of raw) [
        | none ↦ refused no_integer
        | some date ↦ check_date date max_age now
      ])

  -- `int(value)`, where `none` is an exception
  unfoldable pub int_value : Value → Option ℤ
  int_value (int n) = some n
  int_value (bool b) = some (pos (if b then 1 else 0))
  int_value (float x) = x.whole
  int_value (text s) = lib.int_of s
  int_value v = none

  -- `str(value) if value else None`
  unfoldable pub text_or_none : Value → Option String
  unfolding is_truthy
  text_or_none v = if is_truthy v then some (web.str v) else none

  -- The user of the field `user`.
  unfoldable pub read_user : List (String × String) → ℤ → Value → Checked TelegramInitData
  unfolding int_value text_or_none get_or
  read_user parsed date (object fields) = elim (int_value (get_or "id" null fields)) [
    | none ↦ refused unreadable_user
    | some id ↦ accepted (record {
      user_id = id;
      first_name = web.str (get_or "first_name" (text "") fields);
      raw = parsed;
      username = text_or_none (get_or "username" null fields);
      auth_date = date;
    })
  ]
  read_user parsed date v = refused unreadable_user

  -- `parsed.get("user", "{}")`, decoded
  unfoldable pub user_field : Option String → Option Value
  user_field none = web.loads "{}"
  user_field (some raw) = web.loads raw

  unfoldable pub parse_user : List (String × String) → ℤ → Checked TelegramInitData
  unfolding user_field read_user
  parse_user parsed date = elim (user_field (find str_dec "user" parsed)) [
    | none ↦ refused unreadable_user
    | some v ↦ read_user parsed date v
  ]

  -- `verify_telegram_init_data` at the time `now`
  unfoldable pub verify_telegram_init_data : String → String → ℤ → ℕ → Checked TelegramInitData
  unfolding verify_telegram_signature check_auth_date parse_user
  verify_telegram_init_data init_data bot_token max_age now = do
    parsed ← verify_telegram_signature init_data bot_token
    date ← check_auth_date (find str_dec "auth_date" parsed) max_age now
    parse_user parsed date

  username_of : Option Value → Option String
  unfolding text_or_none get_or
  username_of (some (object fields)) = text_or_none (get_or "username" null fields)
  username_of v = none

  -- `init_data_username` of api/services/users.py
  unfoldable pub init_data_username : TelegramInitData → Option String
  unfolding username_of
  init_data_username user = elim (find str_dec "user" user.raw) [
    | none ↦ none
    | some raw ↦ ite (str_dec raw "") none (username_of (web.loads raw))
  ]
