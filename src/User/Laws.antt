-- ===== src/User/Laws.antt =====
-- Registering a user keeps what is known of everybody.
use rafuk.Base.{ℕ, ◌==◌, String, ◌≡◌, Option, none, some, List, [], ◌∷◌, arith, if◌then◌else◌}
use rafuk.Market.TextLib.{TextLib}
use rafuk.User.{User, new_user, renewed, clip, ensure_user, user_row}

-- `ensure_user` gives the user a row, with the names that were passed, clipped; a name that is empty
-- or was not passed leaves the known one in place. The rows of the other users stay as they are.
pub ensure_user-row :
    (lib : TextLib) (id other : ℕ) (first_name username : Option String) (now : ℕ)
    (users : List User)
    → user_row other (ensure_user lib id first_name username now users) ≡ (
        if id == other
        then some (elim (user_row id users) [
          | none ↦ new_user id (clip lib first_name) (clip lib username) now
          | some u ↦ renewed (clip lib first_name) (clip lib username) now u
        ])
        else user_row other users)
unfolding ensure_user user_row
ensure_user-row lib id other first_name username now [] = ground arith
ensure_user-row lib id other first_name username now (u ∷ users) =
    ground (arith, ensure_user-row lib id other first_name username now users)
