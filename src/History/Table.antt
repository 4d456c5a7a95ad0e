-- ===== src/History/Table.antt =====
-- The table `query_listing_states` (`QueryListingState` of api/models.py), and how
-- api/services/history_service.py reads it.
use rafuk.Base.{
  ℕ, String, Bool, true, false, ◌≡◌, ◌≢◌, refl, ite, Option, none, some, List, [], ◌∷◌, ◌++◌, arith,
  str_dec, ◌==◌, ltb, ◌&&◌, if◌then◌else◌, map,
}

pub record State : Type 0 where
  pub query : String
  pub ad_id : ℕ
  pub title : String
  pub link : String
  pub last_price_byn : Option ℕ
  pub list_time : Option String
  pub active : Bool
  pub first_seen_at : ℕ
  pub last_seen_at : ℕ

abbrev pub Table : Type 0
Table = List State

-- `QueryListingState.query == query, QueryListingState.ad_id == ad_id`
unfoldable pub is_state : String → ℕ → State → Bool
is_state query ad_id s = ite (str_dec s.query query) (s.ad_id == ad_id) false

-- The row of a query and an ad; the table has at most one (`uq_query_listing_state`).
unfoldable pub row : String → ℕ → Table → Option State
unfolding is_state
row query ad_id [] = none
row query ad_id (s ∷ t) = if is_state query ad_id s then some s else row query ad_id t

-- `session.add`
unfoldable pub insert : State → Table → Table
insert s t = t ++ s ∷ []

-- The flush of an object that was changed.
unfoldable pub update : State → Table → Table
unfolding is_state
update s [] = []
update s (r ∷ t) = if is_state s.query s.ad_id r then s ∷ update s t else r ∷ update s t

-- The bulk update at the end of a sync.
unfoldable pub deactivate : String → ℕ → State → State
deactivate query observed_at s =
    ite (str_dec s.query query)
      (if s.active && ltb s.last_seen_at observed_at then record s { active = false } else s) s

-- `has_listing_states`
unfoldable pub has_listing_states : Table → String → Bool
has_listing_states [] query = false
has_listing_states (s ∷ t) query = ite (str_dec s.query query) true (has_listing_states t query)

module _ (query : String) (ad_id : ℕ) where
  pub row-insert :
      (s : State) (t : Table)
      → row query ad_id (insert s t) ≡ elim (row query ad_id t) [
        | some r ↦ some r
        | none ↦ if is_state query ad_id s then some s else none
      ]
  unfolding row insert
  row-insert s [] = refl
  row-insert s (r ∷ t) = ground (arith, row-insert s t)

  pub row-update :
      (s : State) (t : Table)
      → row query ad_id (update s t) ≡ elim (row query ad_id t) [
        | none ↦ none
        | some r ↦ if is_state query ad_id s then some s else some r
      ]
  unfolding row update
  row-update s [] = refl
  row-update s (r ∷ t) = ground (arith, row-update s t)

  pub row-deactivate :
      (q : String) (observed_at : ℕ) (t : Table)
      → row query ad_id (map (deactivate q observed_at) t)
        ≡ elim (row query ad_id t) [ none ↦ none | some r ↦ some (deactivate q observed_at r) ]
  unfolding row deactivate
  row-deactivate q observed_at [] = refl
  row-deactivate q observed_at (r ∷ t) = ground (arith, row-deactivate q observed_at t)

  pub row-is_state :
      (s : State) (t : Table) → row query ad_id t ≡ some s → (s.query ≡ query) × (s.ad_id ≡ ad_id)
  unfolding row
  row-is_state s [] h = cc
  row-is_state s (r ∷ t) h = ground (arith, row-is_state s t)

  pub row-deactivate_other :
      (q : String) (observed_at : ℕ) (t : Table)
      → query ≢ q
      → row query ad_id (map (deactivate q observed_at) t) ≡ row query ad_id t
  unfolding row deactivate
  row-deactivate_other q observed_at [] h = refl
  row-deactivate_other q observed_at (r ∷ t) h =
      ground (arith, row-deactivate_other q observed_at t h)
