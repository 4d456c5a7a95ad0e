-- ===== src/Kufar/Retry/Attempts.antt =====
-- What a search ends in, and when.
use rafuk.Base.{ℕ, zero, suc, ◌≤◌, Bool, true, false, Option, none, some, List, if◌then◌else◌, All}
use rafuk.Base.Time.{seconds}
use rafuk.Json.{Value}
use rafuk.Kufar.Retry.{
  busy, http_status, attempts_exhausted, Result, err, Attempt, refused, status, network_error,
  answered, Search, is_retryable_status, decode_payload,
}

-- Network errors, HTTP 429 and the server's errors are worth another attempt.
unfoldable pub is_transient : Attempt → Bool
unfolding is_retryable_status
is_transient refused = false
is_transient (status code header) = is_retryable_status code
is_transient network_error = true
is_transient (answered body) = false

-- What an attempt that is not tried again means.
unfoldable pub final_result : Attempt → Result Value
unfolding decode_payload
final_result refused = err busy
final_result (status code header) = err (http_status code)
final_result network_error = err attempts_exhausted
final_result (answered body) = decode_payload body

-- The first attempt that is not transient, of those from `attempt` on.
unfoldable pub first_final : ℕ → ℕ → (ℕ → Attempt) → Option ℕ
first_final zero attempt script = none
first_final (suc n) attempt script =
    if is_transient (script attempt) then first_final n (suc attempt) script else some attempt

abbrev pub result_of : Option ℕ → (ℕ → Attempt) → Result Value
result_of none script = err attempts_exhausted
result_of (some attempt) script = final_result (script attempt)

-- Times of at most `MAX_RETRY_AFTER_SECONDS`.
abbrev pub AreShort : List ℕ → Type 0
AreShort times = All (λ t. t ≤ seconds 10) times

-- Few requests, short waits.
abbrev IsBounded : ℕ → Search → Type 0
IsBounded n s = (s.requests ≤ n) × AreShort s.sleeps × AreShort s.pauses
