-- ===== src/Scheduler/Alerts/Bounds.antt =====
-- How often an alert is tried, and what happens when the user has blocked the bot.
use rafuk.Base.{
  ℕ, zero, suc, ◌+◌, ◌==◌, ◌≤◌, ◌<◌, Bool, true, false, ◌≡◌, refl, none, some, List, [], ◌∷◌, leb,
  has, length, All, if◌then◌else◌, arith, Bool-cases, inl, inr,
}
use native.Mathlib.Numerals.{unary_clauses}
use native.Mathlib.Nat.{zero-add}
use rafuk.Base.Time.{seconds}
use rafuk.Tracker.{Tracker}
use rafuk.Tracker.Service.{is_active_of, list_active_trackers}
use rafuk.Tracker.Activation.{deactivate_user_trackers, pause}
use rafuk.Tracker.Rows.{how_many}
use rafuk.Tracker.Invariant.{length-list_active}
use rafuk.Tracker.Stops.{fewer-paused}
use rafuk.Scheduler.Alerts.{
  Reply, Attempt, Sender, Sending, delivered, retry_after, forbidden, entity_too_large,
  transient_error, api_error, unexpected_error, throttle, block_user, drop_alert, stop, again,
  attempt_once, attempts_loop, more_attempts, send, send_all, backoff,
  max_consecutive_transient_failures, max_send_attempts, max_retry_after_seconds, wake,
}

-- Pauses of at most a minute.
abbrev pub AreShort : List ℕ → Type 0
AreShort pauses = All (λ p. p ≤ seconds max_retry_after_seconds) pauses

last-bounds :
    (u before at : ℕ) (reply : Reply) (s : Sender)
    → (length (attempt_once u before reply at s none).calls ≤ 1)
      × AreShort (attempt_once u before reply at s none).pauses
unfolding attempt_once stop
last-bounds u before at delivered s = (omega arith, tt)
last-bounds u before at (retry_after d) s = (omega arith, tt)
last-bounds u before at (forbidden c) s = (omega arith, tt)
last-bounds u before at entity_too_large s = (omega arith, tt)
last-bounds u before at transient_error s = (omega arith, tt)
last-bounds u before at api_error s = (omega arith, tt)
last-bounds u before at unexpected_error s = (omega arith, tt)

once-bounds :
    (u before at n : ℕ) (reply : Reply) (s : Sender) (rest : Sending)
    → backoff before ≤ seconds max_retry_after_seconds
    → length rest.calls ≤ n
    → AreShort rest.pauses
    → (length (attempt_once u before reply at s (some rest)).calls ≤ suc n)
      × AreShort (attempt_once u before reply at s (some rest)).pauses
unfolding attempt_once stop again
once-bounds u before at n delivered s rest b l a = (omega arith, tt)
once-bounds u before at n (retry_after d) s rest b l a = ground arith
once-bounds u before at n (forbidden c) s rest b l a = (omega arith, tt)
once-bounds u before at n entity_too_large s rest b l a = (omega arith, tt)
once-bounds u before at n transient_error s rest b l a = ground arith
once-bounds u before at n api_error s rest b l a = (omega arith, tt)
once-bounds u before at n unexpected_error s rest b l a = (omega arith, tt)

backoff_short : (before : ℕ) → before ≤ 2 → backoff before ≤ seconds max_retry_after_seconds
unfolding backoff
backoff_short zero h = omega arith
backoff_short (suc zero) h = omega arith
backoff_short (suc (suc zero)) h = omega arith
backoff_short (suc (suc (suc n))) h = absurd (omega arith)

loop-bounds :
    (left before : ℕ) (script : ℕ → Attempt) (user_id : ℕ) (s : Sender)
    → left + before ≤ 2
    → (length (attempts_loop left before script user_id s).calls ≤ suc left)
      × AreShort (attempts_loop left before script user_id s).pauses
unfolding attempts_loop
loop-bounds zero before script user_id s h =
    let a = script before in
    last-bounds user_id before (wake s.last_sent_at a.now a.late) a.reply (throttle a s)
loop-bounds (suc left) before script user_id s h =
    let a = script before in
    let rest = attempts_loop left (suc before) script user_id (throttle a s) in
    let (few, short) = loop-bounds left (suc before) script user_id (throttle a s) (omega arith) in
    once-bounds user_id before (wake s.last_sent_at a.now a.late) (suc left) a.reply (throttle a s)
      rest (backoff_short before (omega arith)) few short

-- An alert is tried at most three times, only once while Telegram looks down, and never for a user who
-- is known to have blocked the bot; no pause between two tries is longer than a minute.
pub send-bounds :
    (script : ℕ → Attempt) (user_id : ℕ) (s : Sender)
    → (length (send script user_id s).calls ≤ (
        if has user_id s.blocked_users
        then 0
        else (if leb max_consecutive_transient_failures s.transient_failures
            then 1
            else max_send_attempts)))
      × AreShort (send script user_id s).pauses
unfolding send more_attempts backoff
send-bounds script user_id s =
    ground (arith, loop-bounds 0 0 script user_id s, loop-bounds 2 0 script user_id s)

-- The calls of `send_message` for a user.
abbrev pub calls_to : ℕ → List (ℕ × Sending) → ℕ
calls_to user_id [] = 0
calls_to user_id ((other, sent) ∷ sendings) =
    (if other == user_id then length sent.calls else 0) + calls_to user_id sendings

-- What an attempt may do to the blocked users and to the trackers.
block-keeps :
    (u v : ℕ) (trackers : List Tracker)
    → how_many (is_active_of u) (deactivate_user_trackers v trackers)
      ≤ how_many (is_active_of u) trackers
unfolding deactivate_user_trackers is_active_of
block-keeps u v trackers = fewer-paused (is_active_of u) v trackers (λ t h. ground arith)

-- The users that are blocked stay so, and no tracker becomes active.
abbrev pub Keeps : ℕ → Sender → Sender → Type 0
Keeps u s r =
    (has u s.blocked_users ≡ true → has u r.blocked_users ≡ true)
    × (how_many (is_active_of u) r.trackers ≤ how_many (is_active_of u) s.trackers)

blocking-Keeps : (u v : ℕ) (committed : Bool) (s : Sender) → Keeps u s (block_user v committed s)
unfolding block_user
blocking-Keeps u v true s = (λ h. ground arith, block-keeps u v s.trackers)
blocking-Keeps u v false s = (λ h. ground arith, omega arith)

last-Keeps :
    (u v before at : ℕ) (reply : Reply) (s : Sender)
    → Keeps u s (attempt_once v before reply at s none).sender
unfolding attempt_once stop drop_alert
last-Keeps u v before at delivered s = (λ h. h, omega arith)
last-Keeps u v before at (retry_after d) s = (λ h. h, omega arith)
last-Keeps u v before at (forbidden c) s = blocking-Keeps u v c s
last-Keeps u v before at entity_too_large s = (λ h. h, omega arith)
last-Keeps u v before at transient_error s = (λ h. h, omega arith)
last-Keeps u v before at api_error s = (λ h. h, omega arith)
last-Keeps u v before at unexpected_error s = (λ h. h, omega arith)

once-Keeps :
    (u v before at : ℕ) (reply : Reply) (s : Sender) (rest : Sending)
    → Keeps u s rest.sender
    → Keeps u s (attempt_once v before reply at s (some rest)).sender
unfolding attempt_once stop again drop_alert
once-Keeps u v before at delivered s rest k = (λ h. h, omega arith)
once-Keeps u v before at (retry_after d) s rest k =
    elim (Bool-cases (leb d max_retry_after_seconds)) [
      | inl soon ↦ rw soon k
      | inr late ↦ rw late (λ h. h, omega arith)
    ]
once-Keeps u v before at (forbidden c) s rest k = blocking-Keeps u v c s
once-Keeps u v before at entity_too_large s rest k = (λ h. h, omega arith)
once-Keeps u v before at transient_error s rest k = k
once-Keeps u v before at api_error s rest k = (λ h. h, omega arith)
once-Keeps u v before at unexpected_error s rest k = (λ h. h, omega arith)

loop-Keeps :
    (u v left before : ℕ) (script : ℕ → Attempt) (s : Sender)
    → Keeps u s (attempts_loop left before script v s).sender
unfolding attempts_loop throttle
loop-Keeps u v zero before script s =
    let a = script before in
    last-Keeps u v before (wake s.last_sent_at a.now a.late) a.reply (throttle a s)
loop-Keeps u v (suc left) before script s =
    let a = script before in
    let rest = attempts_loop left (suc before) script v (throttle a s) in
    once-Keeps u v before (wake s.last_sent_at a.now a.late) a.reply (throttle a s) rest
      (loop-Keeps u v left (suc before) script (throttle a s))

send-Keeps : (u v : ℕ) (script : ℕ → Attempt) (s : Sender) → Keeps u s (send script v s).sender
unfolding send
send-Keeps u v script s = elim (Bool-cases (has v s.blocked_users)) [
  | inl silent ↦ rw silent (λ h. h, omega arith)
  | inr known ↦ rw known (loop-Keeps u v (more_attempts s) 0 script s)
]

send-silent :
    (script : ℕ → Attempt) (v : ℕ) (s : Sender)
    → has v s.blocked_users ≡ true
    → length (send script v s).calls ≡ 0
unfolding send
send-silent script v s h = rw h refl

-- After a user's block is known, a run calls nothing for the user and activates nothing.
send_all-silent :
    (u : ℕ) (alerts : List (ℕ × (ℕ → Attempt))) (s : Sender)
    → has u s.blocked_users ≡ true
    → (calls_to u (send_all alerts s).1 ≡ 0)
      × (how_many (is_active_of u) (send_all alerts s).0.trackers
          ≤ how_many (is_active_of u) s.trackers)
unfolding send_all
send_all-silent u [] s h = (refl, omega arith)
send_all-silent u ((v, script) ∷ alerts) s h =
    let sent = send script v s in
    let (stays, fewer) = send-Keeps u v script s in
    let (none_left, rest) = send_all-silent u alerts sent.sender (stays h) in
    ground (arith, fewer, none_left, rest, send-silent script v s)

none_active :
    (u : ℕ) (trackers : List Tracker)
    → how_many (is_active_of u) (deactivate_user_trackers u trackers) ≡ 0
unfolding deactivate_user_trackers pause is_active_of
none_active u [] = refl
none_active u (t ∷ trackers) = ground (arith, none_active u trackers)

-- An answer after which the sender waits and tries the alert again.
abbrev pub IsRetried : Reply → Type 0
IsRetried (retry_after delay) = delay ≤ 60
IsRetried transient_error = Unit
IsRetried reply = ⊥

retried_sender :
    (u before at : ℕ) (reply : Reply) (s : Sender) (rest : Sending)
    → IsRetried reply
    → (attempt_once u before reply at s (some rest)).sender ≡ rest.sender
unfolding attempt_once again
retried_sender u before at (retry_after d) s rest h = ground (arith, h)
retried_sender u before at transient_error s rest h = refl
retried_sender u before at delivered s rest h = absurd h
retried_sender u before at (forbidden c) s rest h = absurd h
retried_sender u before at entity_too_large s rest h = absurd h
retried_sender u before at api_error s rest h = absurd h
retried_sender u before at unexpected_error s rest h = absurd h

shifted : (a b : ℕ) → suc a + b ≡ a + suc b
shifted a b = omega arith

loop-forbidden :
    (u left n before : ℕ) (script : ℕ → Attempt) (s : Sender)
    → n ≤ left
    → ((m : ℕ) → m < n → IsRetried (script (before + m)).reply)
    → (script (before + n)).reply ≡ forbidden true
    → (has u (attempts_loop left before script u s).sender.blocked_users ≡ true)
      × (how_many (is_active_of u) (attempts_loop left before script u s).sender.trackers ≡ 0)
unfolding attempts_loop attempt_once block_user stop throttle
loop-forbidden u zero zero before script s l r h =
    let first : (script before).reply ≡ forbidden true = simp unary_clauses at h in
    rw first (ground arith, none_active u s.trackers)
loop-forbidden u (suc left) zero before script s l r h =
    let first : (script before).reply ≡ forbidden true = simp unary_clauses at h in
    rw first (ground arith, none_active u s.trackers)
loop-forbidden u zero (suc n) before script s l r h = absurd (omega arith)
loop-forbidden u (suc left) (suc n) before script s l r h =
    let a = script before in
    let rest = attempts_loop left (suc before) script u (throttle a s) in
    let next =
      retried_sender u before (wake s.last_sent_at a.now a.late) a.reply (throttle a s) rest
        (simp unary_clauses at (r 0 (omega arith))) in
    rw next (
      loop-forbidden u left n (suc before) script (throttle a s) (omega arith)
        (λ m p. rw (shifted before m) (r (suc m) (omega arith))) (rw (shifted before n) h))

-- When Telegram answers that a user has blocked the bot, at the first try of an alert or at a later one
-- that the answers before lead to (flood control of at most 60 seconds, or transient errors; three tries,
-- or one while Telegram looks down), and the deactivation commits, the other alerts of the run call
-- Telegram no more for this user, and after the run the user has no active tracker.
pub send_all-forbidden :
    (u n : ℕ) (script : ℕ → Attempt) (alerts : List (ℕ × (ℕ → Attempt))) (s : Sender)
    → has u s.blocked_users ≡ false
    → n < (if leb 3 s.transient_failures then 1 else 3)
    → ((m : ℕ) → m < n → IsRetried (script m).reply)
    → (script n).reply ≡ forbidden true
    → (calls_to u (send_all alerts (send script u s).sender).1 ≡ 0)
      × (length (list_active_trackers u (send_all alerts (send script u s).sender).0.trackers) ≡ 0)
unfolding send more_attempts
send_all-forbidden u n script alerts s fresh few r h =
    let after = (send script u s).sender in
    let (known, stopped) =
      loop-forbidden u (more_attempts s) n 0 script s (ground (arith, few))
        (λ m p. rw zero-add (r m p)) (rw zero-add h) in
    let blocked : has u after.blocked_users ≡ true = rw fresh known in
    let idle : how_many (is_active_of u) after.trackers ≡ 0 = rw fresh stopped in
    let (silent, fewer) = send_all-silent u alerts after blocked in
    let count = length-list_active u (send_all alerts after).0.trackers in
    (silent, omega (arith, idle, fewer, count))
