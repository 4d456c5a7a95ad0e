-- ===== src/SavedSearch/Spec/Refinement.antt =====
-- The table of saved searches refines the lists.
use rafuk.Base.{
  ℕ, ◌==◌, ◌&&◌, ◌||◌, ◌≡◌, refl, sym, ◌∙◌, ap, String, Bool, true, false, not, Option, none, some,
  List, [], ◌∷◌, ◌++◌, ite, str_dec, leb, length, length-append, keep, keep-append, any, map,
  if◌then◌else◌, arith, Bool-cases, inl, inr,
}
use mathlib.Core.List.{reverse, reverse-append, reverse-cons, append-nil}
use rafuk.Market.TextLib.{TextLib}
use rafuk.Market.Insights.{PatternLib}
use rafuk.Tracker.Service.{max_db_id}
use rafuk.User.{max_saved_searches}
use rafuk.SavedSearch.{
  SavedSearch, Payload, Caller, Db, Answer, listed, deleted, not_found, unprocessable, Request,
  create, delete, list, is_active_of, get_saved_searches, active_count, find_active, deactivate,
  row_of, insert_row, create_saved_search, delete_row, delete_saved_search, handle, run,
}
use rafuk.SavedSearch.Spec.{Lists, has_id, add_row, remove, add, promised, run_promised, Refines}

length-reverse {ℓ} : {A : Type ℓ} (xs : List A) → length (reverse xs) ≡ length xs
length-reverse [] = refl
length-reverse (x ∷ xs) =
    rw (reverse-cons x xs) (omega (arith, length-append (reverse xs) (x ∷ []), length-reverse xs))

keep-reverse {ℓ} :
    {A : Type ℓ} (p : A → Bool) (xs : List A) → keep p (reverse xs) ≡ reverse (keep p xs)
unfolding keep
keep-reverse p [] = refl
keep-reverse p (x ∷ xs) = elim (Bool-cases (p x)) [
  | inl e ↦
      rw (reverse-cons x xs, keep-append p (reverse xs) (x ∷ []), keep-reverse p xs, e)
        (sym (reverse-cons x (keep p xs)))
  | inr e ↦
      rw (reverse-cons x xs, keep-append p (reverse xs) (x ∷ []), keep-reverse p xs, e)
        (append-nil (reverse (keep p xs)))
]

any-append {ℓ} :
    {A : Type ℓ} (p : A → Bool) (xs ys : List A) → any p (xs ++ ys) ≡ (any p xs || any p ys)
unfolding any
any-append p [] ys = refl
any-append p (x ∷ xs) ys = ground (arith, any-append p xs ys)

any-reverse {ℓ} : {A : Type ℓ} (p : A → Bool) (xs : List A) → any p (reverse xs) ≡ any p xs
unfolding any
any-reverse p [] = refl
any-reverse p (x ∷ xs) =
    rw (reverse-cons x xs, any-append p (reverse xs) (x ∷ []), any-reverse p xs) (ground arith)

found : Option SavedSearch → Bool
found none = false
found (some s) = true

any-kept :
    (u id : ℕ) (rows : List SavedSearch)
    → any (has_id id) (keep (is_active_of u) rows) ≡ found (find_active u id rows)
unfolding find_active has_id any keep found
any-kept u id [] = refl
any-kept u id (s ∷ rows) = ground (arith, any-kept u id rows)

any-listed :
    (u id : ℕ) (rows : List SavedSearch)
    → any (has_id id) (get_saved_searches u rows) ≡ found (find_active u id rows)
unfolding get_saved_searches
any-listed u id rows = any-reverse (has_id id) (keep (is_active_of u) rows) ∙ any-kept u id rows

kept_rows :
    (u v id now : ℕ) (rows : List SavedSearch)
    → keep (is_active_of v) (map (deactivate u id now) rows) ≡ (
        if u == v
        then keep (λ s. not (has_id id s)) (keep (is_active_of v) rows)
        else keep (is_active_of v) rows)
unfolding keep is_active_of deactivate has_id
kept_rows u v id now [] = ground arith
kept_rows u v id now (s ∷ rows) = ground (arith, kept_rows u v id now rows)

shown_after_delete :
    (u v id now : ℕ) (rows : List SavedSearch)
    → get_saved_searches v (map (deactivate u id now) rows) ≡ (
        if u == v
        then keep (λ s. not (has_id id s)) (get_saved_searches v rows)
        else get_saved_searches v rows)
unfolding get_saved_searches
shown_after_delete u v id now rows = rw (kept_rows u v id now rows) (elim (Bool-cases (u == v)) [
  | inl e ↦ rw e (sym (keep-reverse (λ s. not (has_id id s)) (keep (is_active_of v) rows)))
  | inr e ↦ rw e refl
])

shown_after_create :
    (v : ℕ) (s : SavedSearch) (rows : List SavedSearch)
    → get_saved_searches v (rows ++ s ∷ [])
      ≡ (if is_active_of v s then s ∷ get_saved_searches v rows else get_saved_searches v rows)
unfolding get_saved_searches keep
shown_after_create v s rows =
    rw (keep-append (is_active_of v) rows (s ∷ [])) (elim (Bool-cases (is_active_of v s)) [
      | inl e ↦ rw e (reverse-append (keep (is_active_of v) rows) (s ∷ []))
      | inr e ↦ rw e (ap reverse (append-nil (keep (is_active_of v) rows)))
    ])

put_first :
    (u : ℕ) (s : SavedSearch) (xs ys : List SavedSearch)
    → xs ≡ ys
    → s.active ≡ true
    → (if is_active_of u s then s ∷ xs else xs) ≡ (if s.user_id == u then s ∷ ys else ys)
unfolding is_active_of
put_first u s xs ys e a = ground arith

pub counted :
    (u : ℕ) (rows : List SavedSearch) → active_count u rows ≡ length (get_saved_searches u rows)
unfolding active_count get_saved_searches
counted u rows = sym (length-reverse (keep (is_active_of u) rows))

-- The same answer, and lists that the table shows.
abbrev Agrees : Db × Answer → Lists × Answer → Type 0
Agrees (db, a) (l, b) = (a ≡ b) × Refines db l

Agrees-ite :
    {P : Type 0} (d : Dec P) (a b : Db × Answer) (x y : Lists × Answer)
    → Agrees a x
    → Agrees b y
    → Agrees (ite d a b) (ite d x y)
Agrees-ite (yes p) a b x y h k = h
Agrees-ite (no n) a b x y h k = k

taken_off :
    (u id now : ℕ) (db : Db) (l : Lists) (o : Option SavedSearch)
    → Refines db l
    → any (has_id id) (l.of u) ≡ found o
    → Agrees (delete_row u id now db o) (
        if any (has_id id) (l.of u)
        then (
          record l { of = λ v. if u == v then keep (λ s. not (has_id id s)) (l.of v) else l.of v },
          deleted,
        )
        else (l, not_found))
unfolding delete_row found
taken_off u id now db l none r h = rw h (refl, r)
taken_off u id now db l (some s) r h = rw h (
  refl,
  record {
    shown = λ v. rw (← r.shown v) (shown_after_delete u v id now db.searches);
    next = r.next;
  },
)

removed :
    (u id now : ℕ) (db : Db) (l : Lists)
    → Refines db l
    → Agrees (delete_saved_search u id now db) (remove u id l)
unfolding delete_saved_search remove
removed u id now db l r = elim (Bool-cases (leb 1 id && leb id max_db_id)) [
  | inl e ↦ rw e (
      taken_off u id now db l (find_active u id db.searches) r
        (ap (any (has_id id)) (sym (r.shown u)) ∙ any-listed u id db.searches))
  | inr e ↦ rw e (refl, r)
]

module _ (lib : TextLib) (patterns : PatternLib) where
  inserted :
      (caller : Caller) (p : Payload) (now : ℕ) (query : String) (db : Db) (l : Lists)
      → Refines db l
      → Agrees
          (insert_row lib patterns caller p now query db)
          (add_row (row_of lib patterns l.next_id caller.user_id query p) l)
  unfolding insert_row add_row row_of
  inserted caller p now query db l r =
      let n : active_count caller.user_id db.searches ≡ length (l.of caller.user_id) =
        counted caller.user_id db.searches ∙ ap length (r.shown caller.user_id) in
      let row : SavedSearch = row_of lib patterns db.next_id caller.user_id query p in
      elim (Bool-cases (leb max_saved_searches (length (l.of caller.user_id)))) [
        | inl full ↦ rw (n, full) (refl, r)
        | inr free ↦
            rw (n, free, ← r.next)
              (
                refl,
                record {
                  shown = λ u.
                      shown_after_create u row db.searches
                      ∙ put_first u row (get_saved_searches u db.searches) (l.of u) (r.shown u)
                          refl;
                  next = refl;
                },
              )
      ]

  handle-Refines :
      (r : Request) (db : Db) (l : Lists)
      → Refines db l
      → Agrees (handle lib patterns r db) (promised lib patterns r l)
  unfolding handle promised create_saved_search add
  handle-Refines (create caller p now) db l h =
      Agrees-ite (str_dec (lib.strip p.query) "") (db, unprocessable)
        (insert_row lib patterns caller p now (lib.strip p.query) db) (l, unprocessable)
        (add_row (row_of lib patterns l.next_id caller.user_id (lib.strip p.query) p) l) (refl, h)
        (inserted caller p now (lib.strip p.query) db l h)
  handle-Refines (delete u id now) db l h = removed u id now db l h
  handle-Refines (list u) db l h = (ap listed (h.shown u), h)

  -- The saved searches refine lists of searches, one for each user, newest first: any sequence of
  -- creations, deletions and listings, of any users, gives answer by answer what it gives on the
  -- lists, where a creation puts the search first unless its query is blank or the list is full, a
  -- deletion refuses an id out of range, takes a search off its own user's list and finds no other,
  -- and a listing is the list; and afterwards the table shows the lists again.
  pub run-Refines :
      (requests : List Request) (db : Db) (l : Lists)
      → Refines db l
      → ((run lib patterns requests db).1 ≡ (run_promised lib patterns requests l).1)
        × Refines (run lib patterns requests db).0 (run_promised lib patterns requests l).0
  unfolding run run_promised
  run-Refines [] db l h = (refl, h)
  run-Refines (r ∷ requests) db l h =
      let (same, next) = handle-Refines r db l h in
      let (answers, last) =
        run-Refines requests (handle lib patterns r db).0 (promised lib patterns r l).0 next in
      (cc, last)
