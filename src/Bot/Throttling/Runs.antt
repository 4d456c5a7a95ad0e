-- ===== src/Bot/Throttling/Runs.antt =====
-- Any sequence of commands and ends of handlers.
use rafuk.Base.{
  ℕ, suc, ◌+◌, ◌≤◌, ◌<◌, Bool, true, false, ◌≡◌, refl, ◌∙◌, Option, none, some, List, [], ◌∷◌, ltb,
  has, length, ℕ_discrete, arith, Bool-cases, Option-cases, inl, inr,
}
use rafuk.Base.OrderedDict.{find}
use rafuk.Bot.Throttling.{
  Throttling, init, arrive, finish, within_window, check_window, record_call, prune, admit, start,
  enqueue, warn, after_window, leave_flight, is_running, remove_first, grant,
}
use rafuk.Bot.Throttling.Capacity.{
  IsValid, commands_of, one_if, has-discard, removed, admit-IsValid, commands-cons,
}

-- The windows and the warnings do not matter for the limits.
moved-IsValid :
    (s : Throttling) (last_call : List (ℕ × ℕ)) (warned : List ℕ)
    → IsValid s
    → IsValid (record s { last_call = last_call; warned = warned })
moved-IsValid s last_call warned h = record {
  counted = h.counted;
  within_waiting = h.within_waiting;
  within_slots = h.within_slots;
  flying = h.flying;
}

pruned-IsValid : (s : Throttling) (now : ℕ) → IsValid s → IsValid (prune s now)
unfolding prune
pruned-IsValid s now h = moved-IsValid s (prune s now).last_call (prune s now).warned h

recorded-IsValid : (s : Throttling) (u now : ℕ) → IsValid s → IsValid (record_call s u now).0
unfolding record_call
recorded-IsValid s u now h =
    moved-IsValid s (record_call s u now).0.last_call (record_call s u now).0.warned h

check-IsValid : (s : Throttling) (u now : ℕ) → IsValid s → IsValid (check_window s u now).0
unfolding check_window
check-IsValid s u now h = elim (Option-cases (find ℕ_discrete u s.last_call)) [
  | inl n ↦ rw (n, check_window) (recorded-IsValid s u now h)
  | inr (last, e) ↦ elim (Bool-cases (ltb now (last + s.rate))) [
    | inl inside ↦ rw (e, check_window, inside) h
    | inr outside ↦ rw (e, check_window, outside) (recorded-IsValid s u now h)
  ]
]

window-IsValid : (s : Throttling) (u now : ℕ) → IsValid s → IsValid (within_window s u now).0
unfolding within_window
window-IsValid s u now h = elim (Bool-cases (ltb 1024 (length s.last_call))) [
  | inl many ↦ rw (many, within_window) (check-IsValid (prune s now) u now (pruned-IsValid s now h))
  | inr few ↦ rw (few, within_window) (check-IsValid s u now h)
]

warned-IsValid : (s : Throttling) (u : ℕ) → IsValid s → IsValid (warn s u).0
unfolding warn
warned-IsValid s u h = elim (Bool-cases (has u s.warned)) [
  | inl told ↦ rw told h
  | inr fresh ↦ rw fresh (moved-IsValid s s.last_call (u ∷ s.warned) h)
]

after-IsValid :
    (u : ℕ) (s : Throttling) (inside : Bool) → IsValid s → IsValid (after_window u (s, inside)).0
unfolding after_window
after-IsValid u s true h = warned-IsValid s u h
after-IsValid u s false h = elim (Bool-cases (has u s.in_flight)) [
  | inl flying ↦ rw flying h
  | inr idle ↦ rw idle (admit-IsValid s (some u) idle h)
]

arrive-IsValid :
    (s : Throttling) (user : Option ℕ) (now : ℕ) → IsValid s → IsValid (arrive s user now).0
unfolding arrive
arrive-IsValid s none now h = admit-IsValid s none tt h
arrive-IsValid s (some u) now h =
    after-IsValid u (within_window s u now).0 (within_window s u now).1 (window-IsValid s u now h)

left-flying :
    (u : ℕ) (s : Throttling) (user : Option ℕ)
    → IsValid s
    → is_running user s.running ≡ true
    → commands_of u (remove_first user s.running) + commands_of u s.queue
      ≡ one_if (has u (leave_flight user s.in_flight))
unfolding leave_flight
left-flying u s none h r = ground (arith, h.flying u, removed u none s.running)
left-flying u s (some v) h r =
    ground (arith, h.flying u, removed u (some v) s.running, has-discard u v s.in_flight)

left-IsValid :
    (s : Throttling) (user : Option ℕ)
    → IsValid s
    → is_running user s.running ≡ true
    → IsValid (record s {
      in_flight = leave_flight user s.in_flight;
      running = remove_first user s.running;
    })
      × ((m : ℕ) → s.max_concurrent ≡ some m → length (remove_first user s.running) < m)
left-IsValid s user h r =
    let shorter = (removed 0 user s.running r).1 in
    (
      record {
        counted = h.counted;
        within_waiting = h.within_waiting;
        within_slots = λ m e. omega (arith, h.within_slots m e, shorter);
        flying = λ u. left-flying u s user h r;
      },
      λ m e. omega (arith, h.within_slots m e, shorter),
    )

granted-IsValid :
    (s : Throttling) (queue : List (Option ℕ))
    → s.queue ≡ queue
    → IsValid s
    → ((m : ℕ) → s.max_concurrent ≡ some m → length s.running < m)
    → IsValid (grant s)
unfolding grant
granted-IsValid s [] e h l = rw (e, grant) h
granted-IsValid s (next ∷ queue) e h l =
    let size : length s.queue ≡ suc (length queue) = rw e refl in
    rw (e, grant)
      (record {
        counted = omega (arith, h.counted, size);
        within_waiting = omega (arith, h.within_waiting, size);
        within_slots = λ m e. omega (arith, l m e);
        flying = λ u.
            let shift : commands_of u s.queue ≡ commands_of u (next ∷ queue) = rw e refl in
            omega (
              arith,
              h.flying u,
              shift,
              commands-cons u next s.running,
              commands-cons u next queue,
            );
      })

finish-IsValid : (s : Throttling) (user : Option ℕ) → IsValid s → IsValid (finish s user)
unfolding finish
finish-IsValid s user h = elim (Bool-cases (is_running user s.running)) [
  | inr gone ↦ rw gone h
  | inl there ↦
      let (left, free) = left-IsValid s user h there in
      rw there (
        granted-IsValid
          (record s {
            in_flight = leave_flight user s.in_flight;
            running = remove_first user s.running;
          })
          s.queue refl left free)
]

-- What happens to the middleware.
pub data Event : Type 0 where
  command : Option ℕ → ℕ → Event
  done : Option ℕ → Event

unfoldable pub react : Throttling → Event → Throttling
react s (command user now) = (arrive s user now).0
react s (done user) = finish s user

unfoldable pub run : List Event → Throttling → Throttling
unfolding react
run [] s = s
run (e ∷ events) s = run events (react s e)

run-keeps_IsValid : (events : List Event) (s : Throttling) → IsValid s → IsValid (run events s)
unfolding run
run-keeps_IsValid [] s h = h
run-keeps_IsValid (command user now ∷ events) s h =
    run-keeps_IsValid events (arrive s user now).0 (arrive-IsValid s user now h)
run-keeps_IsValid (done user ∷ events) s h =
    run-keeps_IsValid events (finish s user) (finish-IsValid s user h)

one_at_most : {n : ℕ} (b : Bool) → n ≡ one_if b → n ≤ 1
one_at_most true e = omega (arith, e)
one_at_most false e = omega (arith, e)

-- The limits of the configuration stay.
abbrev IsConfigured : Throttling → Throttling → Type 0
IsConfigured s r = (r.max_concurrent ≡ s.max_concurrent) × (r.max_waiting ≡ s.max_waiting)

check-IsConfigured : (s : Throttling) (u now : ℕ) → IsConfigured s (check_window s u now).0
unfolding check_window record_call
check-IsConfigured s u now = (ground arith, ground arith)

window-IsConfigured : (s : Throttling) (u now : ℕ) → IsConfigured s (within_window s u now).0
unfolding within_window prune
window-IsConfigured s u now = elim (Bool-cases (ltb 1024 (length s.last_call))) [
  | inl many ↦ rw (many, within_window) (check-IsConfigured (prune s now) u now)
  | inr few ↦ rw (few, within_window) (check-IsConfigured s u now)
]

admit-IsConfigured : (s : Throttling) (user : Option ℕ) → IsConfigured s (admit s user).0
unfolding admit start enqueue
admit-IsConfigured s user = (ground arith, ground arith)

after-IsConfigured :
    (u : ℕ) (s : Throttling) (inside : Bool) → IsConfigured s (after_window u (s, inside)).0
unfolding after_window warn
after-IsConfigured u s true = (ground arith, ground arith)
after-IsConfigured u s false = elim (Bool-cases (has u s.in_flight)) [
  | inl flying ↦ rw flying (refl, refl)
  | inr idle ↦ rw idle (admit-IsConfigured s (some u))
]

react-IsConfigured : (s : Throttling) (e : Event) → IsConfigured s (react s e)
unfolding react arrive finish grant
react-IsConfigured s (command none now) = admit-IsConfigured s none
react-IsConfigured s (command (some u) now) =
    let (a, b) = window-IsConfigured s u now in
    let (c, d) = after-IsConfigured u (within_window s u now).0 (within_window s u now).1 in
    (c ∙ a, d ∙ b)
react-IsConfigured s (done user) = (ground arith, ground arith)

run-IsConfigured : (events : List Event) (s : Throttling) → IsConfigured s (run events s)
unfolding run
run-IsConfigured [] s = (refl, refl)
run-IsConfigured (e ∷ events) s =
    let (a, b) = react-IsConfigured s e in
    let (c, d) = run-IsConfigured events (react s e) in (c ∙ a, d ∙ b)

-- Whatever commands arrive and end, in any order from the start: at most `max_concurrent` of them run
-- at once when there is such a limit, at most `max_waiting` wait for a slot, and no user has more than
-- one command that runs or waits.
pub run-capacity :
    (events : List Event) (rate max_waiting : ℕ) (max_concurrent : Option ℕ)
    → let s = run events (init rate max_concurrent max_waiting) in
      ((m : ℕ) → max_concurrent ≡ some m → length s.running ≤ m)
      × (length s.queue ≤ max_waiting)
      × ((u : ℕ) → commands_of u s.running + commands_of u s.queue ≤ 1)
unfolding init
run-capacity events rate max_waiting max_concurrent =
    let first = init rate max_concurrent max_waiting in
    let (slots, room) = run-IsConfigured events first in
    let valid = run-keeps_IsValid events first (record {
      counted = refl;
      within_waiting = omega arith;
      within_slots = λ m e. omega arith;
      flying = λ u. refl;
    }) in
    (
      λ m e. valid.within_slots m (slots ∙ e),
      omega (arith, valid.within_waiting, room),
      λ u. one_at_most (has u (run events first).in_flight) (valid.flying u),
    )
