-- ===== src/Auth/Tests.antt =====
-- A signed request, with a toy query parser and a toy HMAC.
use rafuk.Base.{◌≡◌, refl, true, none, some, [], ◌∷◌, arith, str_dec, ite}
use rafuk.Base.Int.{pos}
use rafuk.Base.OrderedDict.{find, without, assign}
use rafuk.Base.Time.{seconds}
use rafuk.Json.{Value, text, int, object, end, field}
use rafuk.Market.TextLib.{TextLib}
use rafuk.Market.Sample.{plain_texts}
use rafuk.Auth.{
  WebLib, TelegramInitData, accepted, verify_telegram_init_data, verify_telegram_signature, dict,
  check_auth_date, parse_user, expected_hash,
}
use rafuk.Auth.Limits.{Settings, Request, tg, IsOwner, handle, rate_limit_key, handle-IsOwner}

abbrev texts : TextLib
texts = record plain_texts { int_of = λ s. ite (str_dec s "1000") (some (pos 1000)) none }

abbrev user_json : Value
user_json = object (field "id" (int (pos 7)) (field "username" (text "ann") end))

abbrev toy : WebLib
toy = record {
  parse_qsl = λ s. ("auth_date", "1000") ∷ ("user", "u") ∷ ("hash", "signed") ∷ [];
  sorted = λ items. items;
  join = λ lines. "lines";
  hmac_digest = λ key message. "secret";
  hmac_hexdigest = λ key message. "signed";
  loads = λ s. ite (str_dec s "u") (some user_json) (ite (str_dec s "{}") (some (object end)) none);
  str = λ v. elim v [ text s ↦ s | _ ↦ "?" ];
}

abbrev ann : TelegramInitData
ann = record {
  user_id = pos 7;
  first_name = "";
  raw = ("auth_date", "1000") ∷ ("user", "u") ∷ [];
  username = some "ann";
  auth_date = pos 1000;
}

ann_accepted :
    verify_telegram_init_data texts toy "q" "token" (pos 86400) (seconds 1010) ≡ accepted ann
unfolding expected_hash verify_telegram_init_data verify_telegram_signature check_auth_date
    parse_user str_dec find without assign dict
ann_accepted = refl

abbrev settings : Settings
settings = record {
  bot_token = "token";
  init_data_max_age_seconds = pos 86400;
  api_rate_limit_per_minute = pos 0;
  kufar_request_delay = pos 500_000;
}

abbrev request : Request
request = record { is_http = true; is_api = true; init_data = some "q"; client = "10.0.0.1" }

charged_test :
    (handle texts toy settings (seconds 1010) true (λ limit key. none) request).charged
    ≡ tg (pos 7) ∷ []
unfolding handle rate_limit_key str_dec verify_telegram_init_data verify_telegram_signature
    check_auth_date parse_user find without assign dict expected_hash
charged_test = refl

handle-IsOwner_example : IsOwner texts toy settings (seconds 1010) request (pos 7)
handle-IsOwner_example =
    handle-IsOwner texts toy settings (seconds 1010) true (λ limit key. none) request (pos 7)
      (omega arith) charged_test
