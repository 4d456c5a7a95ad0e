-- ===== src/Scheduler/Alerts.antt =====
-- Sending alerts: `AlertSender` of scheduler/collector.py. What Telegram answers to a message, and
-- the readings of the clock, are arguments. Times are microseconds.
pub mod Bounds
pub mod Spacing
use rafuk.Base.{
  ℕ, zero, suc, ◌+◌, ◌-◌, ◌*◌, ◌≤◌, Bool, true, false, ◌&&◌, Option, none, some, List, [], ◌∷◌,
  ◌++◌, leb, ltb, max, has, if◌then◌else◌,
}
use rafuk.Base.Time.{second, seconds}
use rafuk.Tracker.{Tracker}
use rafuk.Tracker.Activation.{deactivate_user_trackers}

-- `SEND_MIN_INTERVAL_SECONDS`, `MAX_RETRY_AFTER_SECONDS`, `MAX_SEND_ATTEMPTS`,
-- `MAX_CONSECUTIVE_TRANSIENT_FAILURES`
abbrev pub send_min_interval : ℕ
send_min_interval = 50_000

abbrev pub max_retry_after_seconds : ℕ
max_retry_after_seconds = 60

abbrev pub max_send_attempts : ℕ
max_send_attempts = 3

abbrev pub max_consecutive_transient_failures : ℕ
max_consecutive_transient_failures = 3

-- What `send_message` does: it returns, or raises one of the errors that `send` tells apart. After
-- TelegramForbiddenError the deactivation commits (`true`) or fails.
pub data Reply : Type 0 where
  delivered : Reply
  retry_after : ℕ → Reply
  forbidden : Bool → Reply
  entity_too_large : Reply
  transient_error : Reply
  api_error : Reply
  unexpected_error : Reply

-- One attempt: the clock before it, how much later than asked the throttle wakes, and the answer.
pub record Attempt : Type 0 where
  pub now : ℕ
  pub late : ℕ
  pub reply : Reply

-- The object, and the table that `_deactivate` changes.
pub record Sender : Type 0 where
  pub last_sent_at : Option ℕ
  pub blocked_users : List ℕ
  pub transient_failures : ℕ
  pub trackers : List Tracker

-- The result of `send`, with the times of its calls of `send_message` and its pauses.
pub record Sending : Type 0 where
  pub sender : Sender
  pub is_delivered : Bool
  pub calls : List ℕ
  pub pauses : List ℕ

-- When `_throttle` returns.
unfoldable pub wake : Option ℕ → ℕ → ℕ → ℕ
wake none now late = now + late
wake (some last) now late = max now (last + send_min_interval) + late

unfoldable pub throttle : Attempt → Sender → Sender
unfolding wake
throttle a s = record s { last_sent_at = some (wake s.last_sent_at a.now a.late) }

-- `self._blocked_users.add(alert.user_id)` and `_deactivate`
unfoldable pub block_user : ℕ → Bool → Sender → Sender
block_user user_id committed s = record s {
  blocked_users = user_id ∷ s.blocked_users;
  trackers = if committed then deactivate_user_trackers user_id s.trackers else s.trackers;
}

unfoldable pub drop_alert : Sender → Sender
drop_alert s = record s { transient_failures = suc s.transient_failures }

unfoldable pub stop : Sender → Bool → ℕ → Sending
stop s is_delivered at = record {
  sender = s;
  is_delivered = is_delivered;
  calls = at ∷ [];
  pauses = [];
}

unfoldable pub again : ℕ → ℕ → Sending → Sending
again at pause rest = record rest { calls = at ∷ rest.calls; pauses = pause ∷ rest.pauses }

-- `SEND_BACKOFF_BASE_SECONDS * 2 ** (attempt - 1)`, of the attempts before
backoff : ℕ → ℕ
backoff zero = seconds 2
backoff (suc attempts) = 2 * backoff attempts

-- The body of the loop behind the throttle; `rest` is what the next attempt does, if there is one.
unfoldable pub attempt_once : ℕ → ℕ → Reply → ℕ → Sender → Option Sending → Sending
unfolding stop again block_user drop_alert backoff
attempt_once user_id before delivered at s rest = stop (record s { transient_failures = 0 }) true at
attempt_once user_id before (retry_after delay) at s none = stop (drop_alert s) false at
attempt_once user_id before (retry_after delay) at s (some rest) =
    if leb delay max_retry_after_seconds
    then again at (seconds delay) rest
    else stop (drop_alert s) false at
attempt_once user_id before (forbidden committed) at s rest =
    stop (block_user user_id committed s) false at
attempt_once user_id before entity_too_large at s rest = stop s false at
attempt_once user_id before transient_error at s none = stop (drop_alert s) false at
attempt_once user_id before transient_error at s (some rest) = again at (backoff before) rest
attempt_once user_id before api_error at s rest = stop s false at
attempt_once user_id before unexpected_error at s rest = stop s false at

-- The attempts that are left after the one of now, and those before it.
unfoldable pub attempts_loop : ℕ → ℕ → (ℕ → Attempt) → ℕ → Sender → Sending
unfolding attempt_once throttle
attempts_loop zero before script user_id s =
    let a = script before in
    attempt_once user_id before a.reply (wake s.last_sent_at a.now a.late) (throttle a s) none
attempts_loop (suc left) before script user_id s =
    let a = script before in
    let rest = attempts_loop left (suc before) script user_id (throttle a s) in
    attempt_once user_id before a.reply (wake s.last_sent_at a.now a.late) (throttle a s)
      (some rest)

-- The attempts after the first one.
unfoldable pub more_attempts : Sender → ℕ
more_attempts s =
    if leb max_consecutive_transient_failures s.transient_failures
    then 0
    else max max_send_attempts 1 - 1

unfoldable pub send : (ℕ → Attempt) → ℕ → Sender → Sending
unfolding attempts_loop more_attempts
send script user_id s =
    if has user_id s.blocked_users
    then record { sender = s; is_delivered = false; calls = []; pauses = [] }
    else attempts_loop (more_attempts s) 0 script user_id s

-- The alerts of a run, one after another, from any state of the sender; `check_trackers` begins each
-- run with a new one.
unfoldable pub send_all : List (ℕ × (ℕ → Attempt)) → Sender → Sender × List (ℕ × Sending)
unfolding send
send_all [] s = (s, [])
send_all ((user_id, script) ∷ alerts) s =
    let sent = send script user_id s in
    let rest = send_all alerts sent.sender in (rest.0, (user_id, sent) ∷ rest.1)
