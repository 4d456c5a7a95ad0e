-- ===== src/Auth/Checks.antt =====
-- What init data that is accepted shows, and the two places that read its user.
use rafuk.Base.{
  ℕ, suc, String, ◌+◌, ◌≤◌, ◌<◌, ◌≡◌, refl, sym, ap, ◌∙◌, Option, none, some, List, [], arith, ite,
  str_dec, Option-cases, inl, inr, if_neg,
}
use rafuk.Base.Int.{ℤ, pos, negsuc, pos_part}
use rafuk.Base.Time.{seconds}
use rafuk.Base.OrderedDict.{find, without}
use rafuk.Json.{Value, object, end, get_or}
use rafuk.Market.TextLib.{TextLib}
use rafuk.Auth.{
  WebLib, TelegramInitData, Checked, accepted, refused, ◌>>=◌, dict, max_skew, check_date,
  is_future, is_expired, is_older, expected_hash, check_hash, verify_telegram_signature,
  check_auth_date, read_user, parse_user, user_field, int_value, username_of,
  verify_telegram_init_data, init_data_username, unreadable_user,
}

-- At most a minute ahead of the clock, and no older than the age.
abbrev pub InWindow : ℤ → ℕ → ℕ → Type 0
InWindow (pos n) age now = (seconds n ≤ now + seconds max_skew) × (now ≤ seconds n + seconds age)
InWindow (negsuc n) age now = now + seconds (suc n) ≤ seconds age

check_date-accepted :
    (date : ℤ) (max_age : ℤ) (now : ℕ) (d : ℤ)
    → 0 < pos_part max_age
    → check_date date max_age now ≡ accepted d
    → (d ≡ date) × InWindow date (pos_part max_age) now
unfolding check_date is_future is_expired is_older
check_date-accepted (pos n) max_age now d p h = ground arith
check_date-accepted (negsuc n) max_age now d p h = ground arith

module _ (lib : TextLib) (web : WebLib) where
  -- The fields are signed by the token, their date is inside the window, and the user is read from
  -- them.
  pub record IsAuthentic (init_data bot_token : String) (age now : ℕ) (u : TelegramInitData)
      : Type 0 where
    pub received : String
    pub given : find str_dec "hash" (dict (web.parse_qsl init_data) []) ≡ some received
    pub matches : expected_hash lib web bot_token u.raw ≡ received
    pub fields : u.raw ≡ without str_dec "hash" (dict (web.parse_qsl init_data) [])
    pub date_text : String
    pub dated : find str_dec "auth_date" u.raw ≡ some date_text
    pub date_value : lib.int_of date_text ≡ some u.auth_date
    pub window : InWindow u.auth_date age now
    pub user : parse_user lib web u.raw u.auth_date ≡ accepted u

  check_hash-accepted :
      (token : String) (parsed fields : List (String × String)) (found : Option String)
      → check_hash lib web token parsed found ≡ accepted fields
      → (fields ≡ parsed) × (found ≡ some (expected_hash lib web token parsed))
  unfolding check_hash
  check_hash-accepted token parsed fields none h = cc
  check_hash-accepted token parsed fields (some r) h = ground arith

  check_auth_date-accepted :
      (found : Option String) (max_age : ℤ) (now : ℕ) (date : ℤ)
      → 0 < pos_part max_age
      → check_auth_date lib web found max_age now ≡ accepted date
      → (raw : String) × (found ≡ some raw)
        × (lib.int_of raw ≡ some date)
        × InWindow date (pos_part max_age) now
  unfolding check_auth_date
  check_auth_date-accepted none max_age now date p h = cc
  check_auth_date-accepted (some raw) max_age now date p h = elim (Option-cases (lib.int_of raw)) [
    | inl e ↦ absurd (ground (arith, e))
    | inr (d, e) ↦
        let checked : check_date d max_age now ≡ accepted date = ground (arith, e) in
        let (same, window) = check_date-accepted d max_age now date p checked in
        (raw, refl, rw same e, rw same window)
  ]

  read_user-accepted :
      (parsed : List (String × String)) (date : ℤ) (v : Value) (u : TelegramInitData)
      → read_user lib web parsed date v ≡ accepted u
      → (u.raw ≡ parsed) × (u.auth_date ≡ date)
  unfolding read_user
  read_user-accepted parsed date (object fields) u h = ground arith
  read_user-accepted parsed date v u h = cc

  parse_user-accepted :
      (parsed : List (String × String)) (date : ℤ) (u : TelegramInitData)
      → parse_user lib web parsed date ≡ accepted u
      → (u.raw ≡ parsed) × (u.auth_date ≡ date)
  unfolding parse_user
  parse_user-accepted parsed date u h =
      elim (Option-cases (user_field lib web (find str_dec "user" parsed))) [
        | inl e ↦ ground (arith, e)
        | inr (v, e) ↦ read_user-accepted parsed date v u (ground (arith, e))
      ]

  signature-accepted :
      (init_data token : String) (parsed : List (String × String))
      → verify_telegram_signature lib web init_data token ≡ accepted parsed
      → (parsed ≡ without str_dec "hash" (dict (web.parse_qsl init_data) []))
        × (find str_dec "hash" (dict (web.parse_qsl init_data) [])
            ≡ some (expected_hash lib web token parsed))
  unfolding verify_telegram_signature
  signature-accepted init_data token parsed h =
      let d = dict (web.parse_qsl init_data) [] in
      let checked : check_hash lib web token (without str_dec "hash" d) (find str_dec "hash" d)
          ≡ accepted parsed =
        ground arith in
      let (same, found) =
        check_hash-accepted token (without str_dec "hash" d) parsed (find str_dec "hash" d)
          checked in
      (same, rw same found)

  dated_parts :
      (parsed : List (String × String)) (u : TelegramInitData) (dated : Checked ℤ)
      → (dated >>= parse_user lib web parsed) ≡ accepted u
      → (date : ℤ) × (dated ≡ accepted date) × (parse_user lib web parsed date ≡ accepted u)
  dated_parts parsed u (accepted date) h = (date, refl, h)
  dated_parts parsed u (refused e) h = absurd (cc)

  signed_parts :
      (max_age : ℤ) (now : ℕ) (u : TelegramInitData) (signed : Checked (List (String × String)))
      → (signed >>= λ parsed.
          check_auth_date lib web (find str_dec "auth_date" parsed) max_age now
          >>= parse_user lib web parsed)
        ≡ accepted u
      → (parsed : List (String × String)) × (date : ℤ) × (signed ≡ accepted parsed)
        × (check_auth_date lib web (find str_dec "auth_date" parsed) max_age now ≡ accepted date)
        × (parse_user lib web parsed date ≡ accepted u)
  signed_parts max_age now u (accepted parsed) h =
      let (date, dated, read) =
        dated_parts parsed u (check_auth_date lib web (find str_dec "auth_date" parsed) max_age now)
          h in
      (parsed, date, refl, dated, read)
  signed_parts max_age now u (refused e) h = absurd (cc)

  verify-parts :
      (init_data token : String) (max_age : ℤ) (now : ℕ) (u : TelegramInitData)
      → verify_telegram_init_data lib web init_data token max_age now ≡ accepted u
      → (parsed : List (String × String)) × (date : ℤ) × (verify_telegram_signature lib web
            init_data token
          ≡ accepted parsed)
        × (check_auth_date lib web (find str_dec "auth_date" parsed) max_age now ≡ accepted date)
        × (parse_user lib web parsed date ≡ accepted u)
  unfolding verify_telegram_init_data
  verify-parts init_data token max_age now u h =
      signed_parts max_age now u (verify_telegram_signature lib web init_data token) h

  window_kept : {d e : ℤ} (age now : ℕ) → d ≡ e → InWindow e age now → InWindow d age now
  window_kept age now h w = rw h w

  user_kept :
      (parsed : List (String × String)) (date : ℤ) (u : TelegramInitData)
      → u.raw ≡ parsed
      → u.auth_date ≡ date
      → parse_user lib web parsed date ≡ accepted u
      → parse_user lib web u.raw u.auth_date ≡ accepted u
  user_kept parsed date u e f h =
      ap (λ p. parse_user lib web p u.auth_date) e ∙ (ap (parse_user lib web parsed) f ∙ h)

  -- Init data that `verify_telegram_init_data` accepts carries as `hash` the HMAC of its other fields
  -- under the bot's token, and these are the fields of the result; its `auth_date` is an integer, at
  -- most a minute ahead of the clock and, the age limit being positive, no older than the limit; and
  -- the user is the one of its field `user`.
  pub verify_telegram_init_data-IsAuthentic :
      (init_data token : String) (max_age : ℤ) (now : ℕ) (u : TelegramInitData)
      → 0 < pos_part max_age
      → verify_telegram_init_data lib web init_data token max_age now ≡ accepted u
      → IsAuthentic init_data token (pos_part max_age) now u
  verify_telegram_init_data-IsAuthentic init_data token max_age now u p h =
      let (parsed, date, signed, checked, read) = verify-parts init_data token max_age now u h in
      let (fields, found) = signature-accepted init_data token parsed signed in
      let (raw, dated, value, window) =
        check_auth_date-accepted (find str_dec "auth_date" parsed) max_age now date p checked in
      let (kept, same) = parse_user-accepted parsed date u read in
      record {
        received = expected_hash lib web token parsed;
        given = found;
        matches = ap (expected_hash lib web token) kept;
        fields = kept ∙ fields;
        date_text = raw;
        dated = ap (find str_dec "auth_date") kept ∙ dated;
        date_value = value ∙ ap some (sym same);
        window = window_kept (pos_part max_age) now same window;
        user = user_kept parsed date u kept same read;
      }

  read_user-username :
      (parsed : List (String × String)) (date : ℤ) (v : Value) (u : TelegramInitData)
      → read_user lib web parsed date v ≡ accepted u
      → username_of lib web (some v) ≡ u.username
  unfolding read_user username_of
  read_user-username parsed date (object fields) u h = ground arith
  read_user-username parsed date v u h = cc

  loaded_username :
      (parsed : List (String × String)) (date : ℤ) (u : TelegramInitData) (loaded : Option Value)
      → elim loaded [ none ↦ refused unreadable_user | some v ↦ read_user lib web parsed date v ]
        ≡ accepted u
      → username_of lib web loaded ≡ u.username
  loaded_username parsed date u none h = cc
  loaded_username parsed date u (some v) h = read_user-username parsed date v u h

  found_username :
      (parsed : List (String × String)) (date : ℤ) (u : TelegramInitData) (found : Option String)
      → web.loads "" ≡ none
      → web.loads "{}" ≡ some (object end)
      → elim (user_field lib web found) [
        | none ↦ refused unreadable_user
        | some v ↦ read_user lib web parsed date v
      ]
        ≡ accepted u
      → elim found [
        | none ↦ none
        | some raw ↦ ite (str_dec raw "") none (username_of lib web (web.loads raw))
      ]
        ≡ u.username
  unfolding user_field read_user int_value get_or
  found_username parsed date u none blank braces h = absurd (let bad = rw braces at h in (cc))
  found_username parsed date u (some raw) blank braces h = elim (str_dec raw "") [
    | yes e ↦ absurd (let bad = rw (e, blank) at h in (cc))
    | no n ↦ rw (if_neg _ n) (loaded_username parsed date u (web.loads raw) h)
  ]

  parsed_username :
      (parsed : List (String × String)) (date : ℤ) (u : TelegramInitData)
      → web.loads "" ≡ none
      → web.loads "{}" ≡ some (object end)
      → u.raw ≡ parsed
      → parse_user lib web parsed date ≡ accepted u
      → init_data_username lib web u ≡ u.username
  unfolding init_data_username parse_user
  parsed_username parsed date u blank braces kept h =
      rw kept (found_username parsed date u (find str_dec "user" parsed) blank braces h)

  -- The user name that `init_data_username` reads from accepted init data is the one that the check
  -- read, if the decoder refuses the empty text and reads `{}` as the empty dictionary.
  pub init_data_username-verify :
      (init_data token : String) (max_age : ℤ) (now : ℕ) (u : TelegramInitData)
      → web.loads "" ≡ none
      → web.loads "{}" ≡ some (object end)
      → verify_telegram_init_data lib web init_data token max_age now ≡ accepted u
      → init_data_username lib web u ≡ u.username
  init_data_username-verify init_data token max_age now u blank braces h =
      let (parsed, date, signed, checked, read) = verify-parts init_data token max_age now u h in
      parsed_username parsed date u blank braces (parse_user-accepted parsed date u read).0 read
