-- ===== src/Bot/Throttling/Window.antt =====
-- The window of a user.
use rafuk.Base.{
  ℕ, ◌+◌, Bool, false, not, ◌≡◌, refl, Option, none, some, leb, ltb, length, if◌then◌else◌,
  ℕ_discrete, arith, Bool-cases, inl, inr,
}
use rafuk.Base.OrderedDict.{find, find-assign, Distinct}
use rafuk.Base.OrderedDict.Deletion.{without_all-keys_where, find-keep}
use rafuk.Bot.Throttling.{Throttling, within_window, check_window, record_call, prune}

-- Whether the last call of a user is less than the window ago.
unfoldable pub is_recent : ℕ → ℕ → Option ℕ → Bool
is_recent rate now none = false
is_recent rate now (some last) = ltb now (last + rate)

find-prune :
    (s : Throttling) (u now : ℕ)
    → Distinct ℕ_discrete s.last_call
    → find ℕ_discrete u (prune s now).last_call ≡ (
        if is_recent s.rate now (find ℕ_discrete u s.last_call)
        then find ℕ_discrete u s.last_call
        else none)
unfolding prune is_recent
find-prune s u now h =
    let stale = λ (last : ℕ). leb (last + s.rate) now in
    rw (without_all-keys_where ℕ_discrete stale s.last_call h)
      (ground (arith, find-keep ℕ_discrete (λ e. not (stale e.1)) u s.last_call h))

-- What the check does to the window of the user.
Checked : Throttling → ℕ → ℕ → Throttling × Bool → Type 0
Checked s u now (after, inside) =
    (inside ≡ is_recent s.rate now (find ℕ_discrete u s.last_call))
    × (find ℕ_discrete u after.last_call ≡ (
        if is_recent s.rate now (find ℕ_discrete u s.last_call)
        then find ℕ_discrete u s.last_call
        else some now))

check-Checked : (s : Throttling) (u now : ℕ) → Checked s u now (check_window s u now)
unfolding Checked check_window record_call is_recent
check-Checked s u now = ground (arith, find-assign ℕ_discrete u u now s.last_call)

rate-prune : (s : Throttling) (now : ℕ) → (prune s now).rate ≡ s.rate
unfolding prune
rate-prune s now = refl

pruned-Checked :
    (s : Throttling) (u now : ℕ)
    → Distinct ℕ_discrete s.last_call
    → Checked s u now (check_window (prune s now) u now)
unfolding Checked is_recent
pruned-Checked s u now h =
    let checked = check-Checked (prune s now) u now in
    ground (arith, checked, find-prune s u now h, rate-prune s now)

-- A command is dropped exactly if the last command of the user that was let through is less than the
-- window ago, also when the old windows are pruned; then the windows do not move, and otherwise the
-- command opens the user's new window.
pub within_window-recent :
    (s : Throttling) (u now : ℕ)
    → Distinct ℕ_discrete s.last_call
    → ((within_window s u now).1 ≡ is_recent s.rate now (find ℕ_discrete u s.last_call))
      × (find ℕ_discrete u (within_window s u now).0.last_call ≡ (
          if is_recent s.rate now (find ℕ_discrete u s.last_call)
          then find ℕ_discrete u s.last_call
          else some now))
unfolding within_window Checked
within_window-recent s u now h = elim (Bool-cases (ltb 1024 (length s.last_call))) [
  | inl many ↦ rw (many, within_window) (pruned-Checked s u now h)
  | inr few ↦ rw (few, within_window) (check-Checked s u now)
]
