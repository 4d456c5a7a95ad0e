-- ===== src/Bot/Throttling/Capacity.antt =====
-- The limits on the commands that run and wait.
use rafuk.Base.{
  ℕ, suc, ◌+◌, ◌≤◌, ◌<◌, ◌==◌, Bool, true, false, ◌≡◌, refl, Option, none, some, List, [], ◌∷◌,
  ◌++◌, leb, has, length, keep, if◌then◌else◌, arith, Bool-cases, inl, inr, length-append,
  false≢true,
}
use rafuk.Bot.Throttling.{
  Throttling, discard, admit, start, enqueue, is_locked, join_flight, same_user, is_running,
  remove_first,
}

-- How many commands of a list are the user's.
abbrev pub commands_of : ℕ → List (Option ℕ) → ℕ
commands_of u [] = 0
commands_of u (none ∷ commands) = commands_of u commands
commands_of u (some v ∷ commands) =
    if v == u then suc (commands_of u commands) else commands_of u commands

abbrev pub one_if : Bool → ℕ
one_if true = 1
one_if false = 0

-- The limits, and that `_waiting` and `_in_flight` say the truth.
pub record IsValid (s : Throttling) : Type 0 where
  pub counted : s.waiting ≡ length s.queue
  pub within_waiting : length s.queue ≤ s.max_waiting
  pub within_slots : (m : ℕ) → s.max_concurrent ≡ some m → length s.running ≤ m
  pub flying :
      (u : ℕ) → commands_of u s.running + commands_of u s.queue ≡ one_if (has u s.in_flight)

pub has-discard :
    (u v : ℕ) (users : List ℕ) → has u (discard v users) ≡ (if v == u then false else has u users)
unfolding discard keep
has-discard u v [] = ground arith
has-discard u v (w ∷ users) = ground (arith, has-discard u v users)

pub commands-append :
    (u : ℕ) (c : Option ℕ) (commands : List (Option ℕ))
    → commands_of u (commands ++ c ∷ []) ≡ commands_of u commands + commands_of u (c ∷ [])
commands-append u none [] = refl
commands-append u (some v) [] = ground arith
commands-append u c (none ∷ commands) = commands-append u c commands
commands-append u c (some w ∷ commands) = ground (arith, commands-append u c commands)

pub removed :
    (u : ℕ) (c : Option ℕ) (commands : List (Option ℕ))
    → is_running c commands ≡ true
    → (commands_of u commands ≡ commands_of u (remove_first c commands) + commands_of u (c ∷ []))
      × (suc (length (remove_first c commands)) ≡ length commands)
unfolding is_running remove_first same_user
removed u c [] h = absurd (false≢true h)
removed u none (none ∷ commands) h = (omega arith, refl)
removed u none (some w ∷ commands) h = ground (arith, removed u none commands)
removed u (some v) (none ∷ commands) h = ground (arith, removed u (some v) commands)
removed u (some v) (some w ∷ commands) h = ground (arith, removed u (some v) commands)

-- The user has no command in flight.
abbrev IsIdle : Option ℕ → Throttling → Type 0
IsIdle none s = Unit
IsIdle (some u) s = has u s.in_flight ≡ false

joined-flying :
    (u : ℕ) (s : Throttling) (user : Option ℕ)
    → IsIdle user s
    → one_if (has u (join_flight user s.in_flight))
      ≡ one_if (has u s.in_flight) + commands_of u (user ∷ [])
unfolding join_flight
joined-flying u s none i = omega arith
joined-flying u s (some v) i = ground arith

pub commands-cons :
    (u : ℕ) (c : Option ℕ) (commands : List (Option ℕ))
    → commands_of u (c ∷ commands) ≡ commands_of u commands + commands_of u (c ∷ [])
commands-cons u none commands = omega arith
commands-cons u (some v) commands = ground arith

enqueue-IsValid :
    (s : Throttling) (user : Option ℕ)
    → s.waiting < s.max_waiting
    → IsIdle user s
    → IsValid s
    → IsValid (enqueue s user).0
unfolding enqueue
enqueue-IsValid s user l i h = record {
  counted = omega (arith, h.counted, length-append s.queue (user ∷ []));
  within_waiting = omega (arith, l, h.counted, length-append s.queue (user ∷ []));
  within_slots = h.within_slots;
  flying = λ u. omega (arith, h.flying u, commands-append u user s.queue, joined-flying u s user i);
}

start-IsValid :
    (s : Throttling) (user : Option ℕ)
    → ((m : ℕ) → s.max_concurrent ≡ some m → length s.running < m)
    → IsIdle user s
    → IsValid s
    → IsValid (start s user).0
unfolding start
start-IsValid s user l i h = record {
  counted = h.counted;
  within_waiting = h.within_waiting;
  within_slots = λ m e. omega (arith, l m e);
  flying = λ u. omega (arith, h.flying u, commands-cons u user s.running, joined-flying u s user i);
}

unlocked :
    (s : Throttling) (m : ℕ)
    → is_locked s ≡ false
    → s.max_concurrent ≡ some m
    → length s.running < m
unfolding is_locked
unlocked s m f e = ground (arith, f, e)

pub admit-IsValid :
    (s : Throttling) (user : Option ℕ) → IsIdle user s → IsValid s → IsValid (admit s user).0
unfolding admit
admit-IsValid s user i h = elim (Bool-cases (is_locked s)) [
  | inl locked ↦ elim (Bool-cases (leb s.max_waiting s.waiting)) [
    | inl full ↦ rw (locked, full) h
    | inr room ↦ rw (locked, room) (enqueue-IsValid s user (ground arith) i h)
  ]
  | inr free ↦ rw free (start-IsValid s user (λ m e. unlocked s m free e) i h)
]
