-- ===== src/Scheduler/Alerts/Spacing.antt =====
-- The throttle.
use rafuk.Base.{
  ℕ, zero, suc, ◌+◌, ◌≤◌, ◌≡◌, refl, Option, none, some, List, [], ◌∷◌, ◌++◌, leb, has, Bool-cases,
  arith, inl, inr,
}
use rafuk.Scheduler.Alerts.{
  Reply, Attempt, Sender, Sending, delivered, retry_after, forbidden, entity_too_large,
  transient_error, api_error, unexpected_error, throttle, block_user, drop_alert, stop, again,
  attempt_once, attempts_loop, more_attempts, send, send_all, max_retry_after_seconds, wake,
  send_min_interval,
}

-- Every time is at least the interval after the one before, and the last one is that of the record.
abbrev pub IsSpaced : Option ℕ → List ℕ → Option ℕ → Type 0
IsSpaced last [] end = last ≡ end
IsSpaced none (at ∷ calls) end = IsSpaced (some at) calls end
IsSpaced (some last) (at ∷ calls) end =
    (last + send_min_interval ≤ at) × IsSpaced (some at) calls end

one-IsSpaced :
    (last : Option ℕ) (now late : ℕ) (calls : List ℕ) (end : Option ℕ)
    → IsSpaced (some (wake last now late)) calls end
    → IsSpaced last (wake last now late ∷ calls) end
unfolding wake
one-IsSpaced none now late calls end h = h
one-IsSpaced (some last) now late calls end h = (omega arith, h)

append-IsSpaced :
    (first middle last : Option ℕ) (xs ys : List ℕ)
    → IsSpaced first xs middle
    → IsSpaced middle ys last
    → IsSpaced first (xs ++ ys) last
append-IsSpaced first middle last [] ys h k = rw h k
append-IsSpaced none middle last (x ∷ xs) ys h k = append-IsSpaced (some x) middle last xs ys h k
append-IsSpaced (some f) middle last (x ∷ xs) ys (l, h) k =
    (l, append-IsSpaced (some x) middle last xs ys h k)

-- The last attempt calls once, and so does each that is not tried again.
last-IsSpaced :
    (u before at : ℕ) (first : Option ℕ) (reply : Reply) (s : Sender)
    → IsSpaced first (at ∷ []) s.last_sent_at
    → IsSpaced first
        (attempt_once u before reply at s none).calls
        (attempt_once u before reply at s none).sender.last_sent_at
unfolding attempt_once stop drop_alert block_user
last-IsSpaced u before at first delivered s h = h
last-IsSpaced u before at first (retry_after d) s h = h
last-IsSpaced u before at first (forbidden c) s h = h
last-IsSpaced u before at first entity_too_large s h = h
last-IsSpaced u before at first transient_error s h = h
last-IsSpaced u before at first api_error s h = h
last-IsSpaced u before at first unexpected_error s h = h

once-IsSpaced :
    (u before at : ℕ) (first : Option ℕ) (reply : Reply) (s : Sender) (rest : Sending)
    → IsSpaced first (at ∷ []) s.last_sent_at
    → IsSpaced first (at ∷ rest.calls) rest.sender.last_sent_at
    → IsSpaced first
        (attempt_once u before reply at s (some rest)).calls
        (attempt_once u before reply at s (some rest)).sender.last_sent_at
unfolding attempt_once stop again drop_alert block_user
once-IsSpaced u before at first delivered s rest h k = h
once-IsSpaced u before at first (retry_after d) s rest h k =
    elim (Bool-cases (leb d max_retry_after_seconds)) [
      | inl soon ↦ rw soon k
      | inr late ↦ rw late h
    ]
once-IsSpaced u before at first (forbidden c) s rest h k = h
once-IsSpaced u before at first entity_too_large s rest h k = h
once-IsSpaced u before at first transient_error s rest h k = k
once-IsSpaced u before at first api_error s rest h k = h
once-IsSpaced u before at first unexpected_error s rest h k = h

loop-IsSpaced :
    (u left before : ℕ) (script : ℕ → Attempt) (s : Sender)
    → IsSpaced s.last_sent_at
        (attempts_loop left before script u s).calls
        (attempts_loop left before script u s).sender.last_sent_at
unfolding attempts_loop throttle
loop-IsSpaced u zero before script s =
    let a = script before in
    let at = wake s.last_sent_at a.now a.late in
    last-IsSpaced u before at s.last_sent_at a.reply (throttle a s)
      (one-IsSpaced s.last_sent_at a.now a.late [] (some at) refl)
loop-IsSpaced u (suc left) before script s =
    let a = script before in
    let at = wake s.last_sent_at a.now a.late in
    let rest = attempts_loop left (suc before) script u (throttle a s) in
    once-IsSpaced u before at s.last_sent_at a.reply (throttle a s) rest
      (one-IsSpaced s.last_sent_at a.now a.late [] (some at) refl)
      (one-IsSpaced s.last_sent_at a.now a.late rest.calls rest.sender.last_sent_at
        (loop-IsSpaced u left (suc before) script (throttle a s)))

send-IsSpaced :
    (script : ℕ → Attempt) (u : ℕ) (s : Sender)
    → IsSpaced s.last_sent_at (send script u s).calls (send script u s).sender.last_sent_at
unfolding send
send-IsSpaced script u s = elim (Bool-cases (has u s.blocked_users)) [
  | inl silent ↦ rw silent refl
  | inr known ↦ rw known (loop-IsSpaced u (more_attempts s) 0 script s)
]

-- The calls of a run, in their order.
abbrev pub all_calls : List (ℕ × Sending) → List ℕ
all_calls [] = []
all_calls ((u, sent) ∷ sendings) = sent.calls ++ all_calls sendings

-- The calls of Telegram for a list of alerts, retries and failures included, are each at least
-- `SEND_MIN_INTERVAL_SECONDS` after the one before. The first is so after the last call of the sender, if
-- the sender has made one: the new sender of each run has not.
pub send_all-IsSpaced :
    (alerts : List (ℕ × (ℕ → Attempt))) (s : Sender)
    → IsSpaced s.last_sent_at (all_calls (send_all alerts s).1) (send_all alerts s).0.last_sent_at
unfolding send_all
send_all-IsSpaced [] s = refl
send_all-IsSpaced ((u, script) ∷ alerts) s =
    let sent = send script u s in
    append-IsSpaced s.last_sent_at sent.sender.last_sent_at
      (send_all alerts sent.sender).0.last_sent_at sent.calls
      (all_calls (send_all alerts sent.sender).1) (send-IsSpaced script u s)
      (send_all-IsSpaced alerts sent.sender)
