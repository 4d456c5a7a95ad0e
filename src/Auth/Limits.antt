-- ===== src/Auth/Limits.antt =====
-- api/rate_limit.py: whose budget a request is charged to, and how large it is. The storage of the
-- limiter is a parameter: `hit` answers whether a key may go on (none: an exception).
use rafuk.Base.{
  ℕ, String, ◌/◌, ◌≤◌, ◌<◌, ◌==◌, ◌≡◌, refl, Bool, ◌&&◌, Option, none, some, List, [], ◌∷◌, arith,
  ite, str_dec, min, max, ltb, if◌then◌else◌, Option-cases, Bool-cases, inl, inr,
}
use rafuk.Base.Int.{ℤ, pos_part}
use rafuk.Base.Time.{seconds}
use rafuk.Market.TextLib.{TextLib}
use rafuk.Auth.{WebLib, TelegramInitData, Checked, accepted, refused, verify_telegram_init_data}
use rafuk.Auth.Checks.{IsAuthentic, verify_telegram_init_data-IsAuthentic}

-- The settings that the module reads; the delay is in microseconds.
pub record Settings : Type 0 where
  pub bot_token : String
  pub init_data_max_age_seconds : ℤ
  pub api_rate_limit_per_minute : ℤ
  pub kufar_request_delay : ℤ

-- `tg:<user id>`, or the address of the client
pub data Key : Type 0 where
  tg : ℤ → Key
  address : String → Key

-- `MIN_APPLICATION_LIMIT_PER_MINUTE`, `MAX_APPLICATION_LIMIT_PER_MINUTE`
abbrev pub min_limit : ℕ
min_limit = 30

abbrev pub max_limit : ℕ
max_limit = 120

from_delay : ℕ → ℕ
from_delay delay =
    if delay == 0 then max_limit else max min_limit (min max_limit (seconds 60 / delay / 2))

-- `application_limit_per_minute`
unfoldable pub application_limit_per_minute : Settings → ℕ
unfolding from_delay
application_limit_per_minute s =
    if ltb 0 (pos_part s.api_rate_limit_per_minute)
    then pos_part s.api_rate_limit_per_minute
    else from_delay (pos_part s.kufar_request_delay)

-- A request of ASGI, as far as the middleware reads it.
pub record Request : Type 0 where
  pub is_http : Bool
  pub is_api : Bool
  pub init_data : Option String
  pub client : String

pub data Answer : Type 0 where
  passed : Answer
  too_many : ℕ → Answer

-- The answer, where `passed` leaves it to the application, and the keys that the limiter was asked
-- for.
pub record Handled : Type 0 where
  pub answer : Answer
  pub charged : List Key

module _ (lib : TextLib) (web : WebLib) (settings : Settings) (now : ℕ) where
  key_of : String → Checked TelegramInitData → Key
  key_of client (accepted user) = tg user.user_id
  key_of client (refused e) = address client

  -- `rate_limit_key`
  unfoldable pub rate_limit_key : Request → Key
  unfolding key_of
  rate_limit_key r = elim r.init_data [
    | none ↦ address r.client
    | some init_data ↦ ite (str_dec init_data "") (address r.client) (
        key_of r.client (
          verify_telegram_init_data lib web init_data settings.bot_token
            settings.init_data_max_age_seconds now))
  ]

  answer_of : ℕ → Option Bool → Answer
  answer_of limit none = passed
  answer_of limit (some allowed) = if allowed then passed else too_many limit

  -- `ApplicationRateLimitMiddleware.__call__`; `enabled` is that of the limiter
  unfoldable pub handle : Bool → (ℕ → Key → Option Bool) → Request → Handled
  unfolding rate_limit_key application_limit_per_minute answer_of
  handle enabled hit r =
      let limit = application_limit_per_minute settings in
      if r.is_http && (r.is_api && enabled)
      then record {
        answer = answer_of limit (hit limit (rate_limit_key r));
        charged = rate_limit_key r ∷ [];
      }
      else record { answer = passed; charged = [] }

-- With no configured budget and a positive delay between Kufar's pages, a key may send from 30 to 120
-- requests a minute.
pub application_limit_per_minute_bounds :
    (s : Settings)
    → pos_part s.api_rate_limit_per_minute ≡ 0
    → 0 < pos_part s.kufar_request_delay
    → (30 ≤ application_limit_per_minute s) × (application_limit_per_minute s ≤ 120)
unfolding application_limit_per_minute
application_limit_per_minute_bounds s h p = ground arith

module _ (lib : TextLib) (web : WebLib) (settings : Settings) (now : ℕ) where
  -- The init data of a request shows its user.
  pub record IsOwner (r : Request) (id : ℤ) : Type 0 where
    pub init_data : String
    pub user : TelegramInitData
    pub sent : r.init_data ≡ some init_data
    pub same : user.user_id ≡ id
    pub authentic :
        IsAuthentic lib web init_data settings.bot_token
          (pos_part settings.init_data_max_age_seconds)
          now
          user

  key_of-tg :
      (client : String) (id : ℤ) (v : Checked TelegramInitData)
      → key_of lib web settings now client v ≡ tg id
      → (u : TelegramInitData) × (v ≡ accepted u) × (u.user_id ≡ id)
  unfolding key_of
  key_of-tg client id (accepted u) h = (u, refl, cc)
  key_of-tg client id (refused e) h = absurd (cc)

  rate_limit_key-IsOwner :
      (r : Request) (id : ℤ)
      → 0 < pos_part settings.init_data_max_age_seconds
      → rate_limit_key lib web settings now r ≡ tg id
      → IsOwner r id
  unfolding rate_limit_key
  rate_limit_key-IsOwner r id p h = elim (Option-cases r.init_data) [
    | inl e ↦ absurd (ground (arith, e))
    | inr (d, e) ↦
        let verdict =
          verify_telegram_init_data lib web d settings.bot_token settings.init_data_max_age_seconds
            now in
        let keyed : key_of lib web settings now r.client verdict ≡ tg id = ground (arith, e) in
        let (u, proof, same) = key_of-tg r.client id verdict keyed in
        record {
          init_data = d;
          user = u;
          sent = e;
          same = same;
          authentic =
              verify_telegram_init_data-IsAuthentic lib web d settings.bot_token
                settings.init_data_max_age_seconds now u p proof;
        }
  ]

  -- The middleware asks the limiter for the budget of a Telegram user only for a request whose init
  -- data is that user's: signed with the bot's token, and, the age limit being positive, no older than
  -- the limit. Forged or expired init data charges no user.
  pub handle-IsOwner :
      (enabled : Bool) (hit : ℕ → Key → Option Bool) (r : Request) (id : ℤ)
      → 0 < pos_part settings.init_data_max_age_seconds
      → (handle lib web settings now enabled hit r).charged ≡ tg id ∷ []
      → IsOwner r id
  unfolding handle
  handle-IsOwner enabled hit r id p h = elim (Bool-cases (r.is_http && (r.is_api && enabled))) [
    | inl e ↦ rate_limit_key-IsOwner r id p (ground (arith, e))
    | inr e ↦ absurd (ground (arith, e))
  ]
