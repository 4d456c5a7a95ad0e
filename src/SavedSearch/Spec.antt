-- ===== src/SavedSearch/Spec.antt =====
-- What the saved searches promise: every user has a list of searches, newest first. That the rows are
-- in one table, that a deletion only marks them and that the names of the users are kept is hidden.
pub mod Refinement
pub mod Quota
use rafuk.Base.{
  ℕ, suc, ◌+◌, ◌≤◌, ◌==◌, ◌&&◌, ◌||◌, ◌≡◌, refl, sym, ◌∙◌, ap, String, Bool, true, false, not,
  Option, none, some, List, [], ◌∷◌, ◌++◌, ite, if_pos, if_neg, str_dec, leb, length, length-append,
  keep, keep-append, any, map, if◌then◌else◌, arith, Bool-cases, Option-cases, inl, inr,
}
use mathlib.Core.List.{reverse, reverse-append, reverse-cons, append-nil}
use rafuk.Market.TextLib.{TextLib}
use rafuk.Market.Insights.{PatternLib}
use rafuk.Tracker.Service.{max_db_id}
use rafuk.User.{max_saved_searches}
use rafuk.SavedSearch.{
  SavedSearch, Payload, Caller, Db, Answer, created, listed, deleted, not_found, limit_reached,
  unprocessable, Request, create, delete, list, is_active_of, get_saved_searches, active_count,
  find_active, deactivate, row_of, insert_row, create_saved_search, delete_row, delete_saved_search,
  handle, run,
}

pub record Lists : Type 0 where
  pub of : ℕ → List SavedSearch
  pub next_id : ℕ

pub has_id : ℕ → SavedSearch → Bool
has_id id s = s.id == id

-- A creation beyond the quota changes nothing; otherwise the search is put first.
pub add_row : SavedSearch → Lists → Lists × Answer
add_row row l = if leb max_saved_searches (length (l.of row.user_id)) then (l, limit_reached) else (
  record { of = λ u. if row.user_id == u then row ∷ l.of u else l.of u; next_id = suc l.next_id },
  created row,
)

-- A deletion takes a search off the list of its user.
pub remove : ℕ → ℕ → Lists → Lists × Answer
unfolding has_id
remove user_id id l =
    if leb 1 id && leb id max_db_id
    then (if any (has_id id) (l.of user_id)
        then (
          record l {
            of = λ u. if user_id == u then keep (λ s. not (has_id id s)) (l.of u) else l.of u;
          },
          deleted,
        )
        else (l, not_found))
    else (l, unprocessable)

module _ (lib : TextLib) (patterns : PatternLib) where
  pub add : Caller → Payload → Lists → Lists × Answer
  unfolding add_row
  add caller p l =
      ite (str_dec (lib.strip p.query) "") (l, unprocessable)
        (add_row (row_of lib patterns l.next_id caller.user_id (lib.strip p.query) p) l)

  pub promised : Request → Lists → Lists × Answer
  unfolding add remove
  promised (create caller p now) l = add caller p l
  promised (delete user_id id now) l = remove user_id id l
  promised (list user_id) l = (l, listed (l.of user_id))

  pub run_promised : List Request → Lists → Lists × List Answer
  unfolding promised
  run_promised [] l = (l, [])
  run_promised (r ∷ requests) l =
      let (next, answer) = promised r l in
      let (last, answers) = run_promised requests next in (last, answer ∷ answers)

-- The lists are those that the table shows.
pub record Refines (db : Db) (l : Lists) : Type 0 where
  pub shown : (u : ℕ) → get_saved_searches u db.searches ≡ l.of u
  pub next : db.next_id ≡ l.next_id
