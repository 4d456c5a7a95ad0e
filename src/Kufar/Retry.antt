-- ===== src/Kufar/Retry.antt =====
-- `KufarClient.search`: three attempts behind the pacer. Times are microseconds; how long the pacer
-- itself waits is left out.
pub mod Attempts
use rafuk.Base.{
  ℕ, zero, suc, ◌-◌, ◌++◌, ◌*◌, ◌==◌, min, max, Bool, true, false, ◌||◌, Option, none, some, List,
  [], ◌∷◌, leb, if◌then◌else◌,
}
use rafuk.Base.Time.{second, seconds}
use rafuk.Json.{Value, is_object}

-- The errors of `KufarAPIError` and `KufarBusyError`; the last is that of `search_all_ads`.
pub data KufarError : Type 0 where
  busy : KufarError
  http_status : Option ℕ → KufarError
  non_json : KufarError
  unexpected_payload : KufarError
  attempts_exhausted : KufarError
  deadline_passed : KufarError

pub data Result (A : Type 0) : Type 0 where
  ok : A → Result A
  err : KufarError → Result A

-- What one attempt ends in: the pacer refuses it, Kufar answers with an error status (which may be
-- missing) and a Retry-After, the network fails, or there is an answer, whose body may be no JSON.
pub data Attempt : Type 0 where
  refused : Attempt
  status : Option ℕ → Option ℕ → Attempt
  network_error : Attempt
  answered : Option Value → Attempt

-- `MAX_RETRIES`
abbrev pub max_retries : ℕ
max_retries = 3

-- `_is_retryable_status`
unfoldable pub is_retryable_status : Option ℕ → Bool
is_retryable_status none = false
is_retryable_status (some code) = code == 429 || leb 500 code

-- `MAX_RETRY_AFTER_SECONDS`; the header's delay is one that is finite and not negative
unfoldable pub retry_after : Option ℕ → Option ℕ
retry_after none = none
retry_after (some delay) = some (min delay (seconds 10))

-- `BACKOFF_BASE_SECONDS * (2**attempt)`
unfoldable pub backoff : ℕ → ℕ
backoff zero = second
backoff (suc attempt) = 2 * backoff attempt

-- `_decode_payload`
unfoldable pub decode_payload : Option Value → Result Value
decode_payload none = err non_json
decode_payload (some payload) = if is_object payload then ok payload else err unexpected_payload

-- The result, with the pauses that the pacer is asked for and the sleeps between attempts.
pub record Search : Type 0 where
  pub result : Result Value
  pub requests : ℕ
  pub pauses : List ℕ
  pub sleeps : List ℕ

abbrev stop : Result Value → ℕ → List ℕ → Search
stop result requests pauses = record {
  result = result;
  requests = requests;
  pauses = pauses;
  sleeps = [];
}

-- The pacer's pause after a retryable status.
asked_pauses : ℕ → Option ℕ → Option ℕ → List ℕ
unfolding backoff
asked_pauses attempt code (some delay) = delay ∷ []
asked_pauses attempt none none = []
asked_pauses attempt (some code) none = if code == 429 then backoff attempt ∷ [] else []

sleep_time : ℕ → Option ℕ → ℕ
unfolding backoff
sleep_time attempt none = backoff attempt
sleep_time attempt (some delay) = max (backoff attempt) delay

-- What follows a failure that is retried: the last attempt ends in the error.
go_on : ℕ → List ℕ → Option ℕ → Option Search → Search
unfolding sleep_time
go_on attempt pauses delay none = stop (err attempts_exhausted) 1 pauses
go_on attempt pauses delay (some rest) = record rest {
  requests = suc rest.requests;
  pauses = pauses ++ rest.pauses;
  sleeps = sleep_time attempt delay ∷ rest.sleeps;
}

-- One attempt; `rest` is what the next one does, if there is one.
unfoldable pub attempt_once : ℕ → Attempt → Option Search → Search
unfolding is_retryable_status retry_after decode_payload asked_pauses go_on
attempt_once attempt refused rest = stop (err busy) 0 []
attempt_once attempt (status code header) rest =
    if is_retryable_status code
    then go_on attempt (asked_pauses attempt code (retry_after header)) (retry_after header) rest
    else stop (err (http_status code)) 1 []
attempt_once attempt network_error rest = go_on attempt [] none rest
attempt_once attempt (answered body) rest = stop (decode_payload body) 1 []

-- `for attempt in range(MAX_RETRIES)`, with the attempts that are left after this one.
unfoldable pub search_from : ℕ → ℕ → (ℕ → Attempt) → Search
unfolding attempt_once
search_from zero attempt script = attempt_once attempt (script attempt) none
search_from (suc left) attempt script =
    let rest = search_from left (suc attempt) script in
    attempt_once attempt (script attempt) (some rest)

unfoldable pub search : (ℕ → Attempt) → Search
unfolding search_from
search script = search_from (max_retries - 1) 0 script
