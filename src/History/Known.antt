-- ===== src/History/Known.antt =====
-- Which listings of a query are known: `load_known_ad_ids` and `mark_query_baseline` of
-- api/services/history_service.py.
use rafuk.Base.{
  ℕ, ◌||◌, ◌&&◌, String, Bool, true, false, ◌≡◌, refl, Option, none, some, List, [], ◌∷◌, ◌++◌, map,
  keep, has, arith, length, Option-cases, inl, inr, has-append,
}
use rafuk.History.Table.{State, Table, row, insert, is_state, row-insert}
use rafuk.History.Sync.Stability.{IsUnique-insert}
use rafuk.History.Lookup.{
  IsUnique, selected, chunks, unique_ids, lookup_chunk, has_any, has_any-chunks, has-unique_ids,
}

-- The ids of the rows that a chunk selects.
chunk_ids : Table → String → List ℕ → List ℕ
unfolding selected
chunk_ids t query chunk = map (λ s. s.ad_id) (keep (selected query chunk) t)

known_in : Table → String → List (List ℕ) → List ℕ → List ℕ
unfolding chunk_ids
known_in t query [] known = known
known_in t query (chunk ∷ rest) known = known_in t query rest (known ++ chunk_ids t query chunk)

-- `load_known_ad_ids`
unfoldable pub load_known_ad_ids : Table → String → List ℕ → List ℕ
unfolding known_in chunks unique_ids
load_known_ad_ids t query ad_ids = known_in t query (chunks lookup_chunk (unique_ids ad_ids)) []

-- `BASELINE_MARKER_AD_ID`, and the row of the marker
abbrev pub baseline_marker_ad_id : ℕ
baseline_marker_ad_id = 0

baseline_marker : String → ℕ → State
baseline_marker query observed_at = record {
  query = query;
  ad_id = baseline_marker_ad_id;
  title = "";
  link = "";
  last_price_byn = none;
  list_time = none;
  active = false;
  first_seen_at = observed_at;
  last_seen_at = observed_at;
}

-- `if exists is not None: return`
unfoldable pub add_marker : Option State → State → Table → Table
add_marker (some s) marker t = t
add_marker none marker t = insert marker t

-- `mark_query_baseline`
unfoldable pub mark_query_baseline : String → ℕ → Table → Table
unfolding baseline_marker add_marker
mark_query_baseline query observed_at t =
    add_marker (row query baseline_marker_ad_id t) (baseline_marker query observed_at) t

abbrev pub is_some {ℓ} : {A : Type ℓ} → Option A → Bool
is_some none = false
is_some (some a) = true

abbrev pub is_known : Table → String → ℕ → Bool
is_known t query n = is_some (row query n t)

has-chunk_ids :
    (t : Table) (query : String) (n : ℕ) (chunk : List ℕ)
    → has n (chunk_ids t query chunk) ≡ (has n chunk && is_known t query n)
unfolding chunk_ids keep row is_state
has-chunk_ids [] query n chunk = ground arith
has-chunk_ids (s ∷ t) query n chunk = ground (arith, has-chunk_ids t query n chunk)

has-known_in :
    (t : Table) (query : String) (n : ℕ) (cs : List (List ℕ)) (known : List ℕ)
    → has n (known_in t query cs known) ≡ (has n known || (has_any n cs && is_known t query n))
unfolding known_in
has-known_in t query n [] known = ground arith
has-known_in t query n (c ∷ cs) known =
    rw
      (
        has-known_in t query n cs (known ++ chunk_ids t query c),
        has-append n known (chunk_ids t query c),
        has-chunk_ids t query n c,
      )
      (ground arith)

-- The lookup in chunks finds the ids that have a row of the query, and no others.
pub has-load_known_ad_ids :
    (t : Table) (query : String) (ad_ids : List ℕ) (n : ℕ)
    → has n (load_known_ad_ids t query ad_ids) ≡ (has n ad_ids && is_known t query n)
unfolding load_known_ad_ids
has-load_known_ad_ids t query ad_ids n =
    let ids = unique_ids ad_ids in
    rw
      (
        has-known_in t query n (chunks lookup_chunk ids) [],
        has_any-chunks n lookup_chunk (length ids) ids (omega arith) (omega arith),
        has-unique_ids n ad_ids,
      )
      refl

-- The marker forgets no listing.
pub mark-known :
    (key : String) (now : ℕ) (t : Table) (q : String) (j : ℕ)
    → is_known t q j ≡ true
    → is_known (mark_query_baseline key now t) q j ≡ true
unfolding mark_query_baseline
mark-known key now t q j h = added (row key baseline_marker_ad_id t) (baseline_marker key now)
  where
    added : (o : Option State) (marker : State) → is_known (add_marker o marker t) q j ≡ true
    added none marker = ground (arith, row-insert q j marker t)
    added (some s) marker = h

pub mark-IsUnique :
    (key : String) (now : ℕ) (t : Table) → IsUnique t → IsUnique (mark_query_baseline key now t)
unfolding mark_query_baseline baseline_marker
mark-IsUnique key now t u = elim (Option-cases (row key baseline_marker_ad_id t)) [
  | inl e ↦ rw (e, add_marker) (IsUnique-insert _ t u e)
  | inr (s, e) ↦ rw (e, add_marker) u
]
