-- ===== src/History/Lookup.antt =====
-- `load_listing_states` and `load_known_ad_ids` of api/services/history_service.py: lookups by many
-- ids, in chunks.
use rafuk.Base.{
  ℕ, zero, suc, ◌≤◌, ◌<◌, String, Bool, true, false, ◌||◌, ◌≡◌, refl, ite, none, some, List, [],
  ◌∷◌, arith, str_dec, ℕ_discrete, ltb, ◌==◌, if◌then◌else◌, length, take, drop, has,
}
use rafuk.Base.OrderedDict.{find, assign, find-assign}
use rafuk.History.Table.{State, Table, row}

-- `_unique_ids`: sorted, without repetitions
add_sorted : ℕ → List ℕ → List ℕ
add_sorted n [] = n ∷ []
add_sorted n (x ∷ xs) =
    if n == x then x ∷ xs else if ltb n x then n ∷ x ∷ xs else x ∷ add_sorted n xs

unfoldable pub unique_ids : List ℕ → List ℕ
unfolding add_sorted
unique_ids [] = []
unique_ids (n ∷ ns) = add_sorted n (unique_ids ns)

-- `_chunks`: one round for each chunk; a list of `n` values has at most `n` chunks.
unfoldable pub chunks_from : ℕ → ℕ → List ℕ → List (List ℕ)
chunks_from zero size values = []
chunks_from (suc rounds) size [] = []
chunks_from (suc rounds) size (v ∷ values) =
    take size (v ∷ values) ∷ chunks_from rounds size (drop size (v ∷ values))

unfoldable pub chunks : ℕ → List ℕ → List (List ℕ)
unfolding chunks_from
chunks size values = chunks_from (length values) size values

-- `AD_ID_LOOKUP_CHUNK`
abbrev pub lookup_chunk : ℕ
lookup_chunk = 500

-- `query == query, ad_id.in_(chunk)`
unfoldable pub selected : String → List ℕ → State → Bool
selected query chunk s = ite (str_dec s.query query) (has s.ad_id chunk) false

-- `states.update({row.ad_id: row for row in result.scalars()})`
update_from : String → List ℕ → Table → List (ℕ × State) → List (ℕ × State)
unfolding selected
update_from query chunk [] states = states
update_from query chunk (s ∷ t) states =
    update_from query chunk t
      (if selected query chunk s then assign ℕ_discrete s.ad_id s states else states)

load_chunks : Table → String → List (List ℕ) → List (ℕ × State) → List (ℕ × State)
unfolding update_from
load_chunks t query [] states = states
load_chunks t query (chunk ∷ rest) states =
    load_chunks t query rest (update_from query chunk t states)

unfoldable pub load_listing_states : Table → String → List ℕ → List (ℕ × State)
unfolding load_chunks chunks unique_ids
load_listing_states t query ad_ids =
    load_chunks t query (chunks lookup_chunk (unique_ids ad_ids)) []

-- No query and ad stand twice (`uq_query_listing_state`).
abbrev pub IsUnique : Table → Type 0
IsUnique [] = Unit
IsUnique (s ∷ t) = (row s.query s.ad_id t ≡ none) × IsUnique t

pub has-unique_ids : (n : ℕ) (ns : List ℕ) → has n (unique_ids ns) ≡ has n ns
unfolding unique_ids
has-unique_ids n [] = refl
has-unique_ids n (m ∷ ns) = rw (has-add n m (unique_ids ns), has-unique_ids n ns)
  where
    has-add :
        (n m : ℕ) (ns : List ℕ) → has n (add_sorted m ns) ≡ (if m == n then true else has n ns)
    has-add n m [] = refl
    has-add n m (x ∷ xs) = ground (arith, has-add n m xs)

abbrev pub has_any : ℕ → List (List ℕ) → Bool
has_any n [] = false
has_any n (c ∷ cs) = has n c || has_any n cs

has-take-drop : (n k : ℕ) (xs : List ℕ) → (has n (take k xs) || has n (drop k xs)) ≡ has n xs
has-take-drop n zero xs = refl
has-take-drop n (suc k) [] = refl
has-take-drop n (suc k) (x ∷ xs) = ground (arith, has-take-drop n k xs)

length-drop-le : (k : ℕ) (xs : List ℕ) → length (drop k xs) ≤ length xs
length-drop-le zero xs = omega arith
length-drop-le (suc k) [] = omega arith
length-drop-le (suc k) (x ∷ xs) = omega (arith, length-drop-le k xs)

-- The chunks together have the values: one round for each value is enough.
pub has_any-chunks :
    (n size rounds : ℕ) (values : List ℕ)
    → 0 < size
    → length values ≤ rounds
    → has_any n (chunks_from rounds size values) ≡ has n values
unfolding chunks_from
has_any-chunks n size zero [] p h = refl
has_any-chunks n size zero (v ∷ values) p h = absurd (omega arith)
has_any-chunks n size (suc rounds) [] p h = refl
has_any-chunks n zero (suc rounds) (v ∷ values) p h = absurd (omega arith)
has_any-chunks n (suc size) (suc rounds) (v ∷ values) p h = ground (
  arith,
  has_any-chunks n (suc size) rounds (drop size values),
  length-drop-le size values,
  has-take-drop n size values,
)

find-update_from :
    (query : String) (chunk : List ℕ) (j : ℕ) (t : Table) (states : List (ℕ × State))
    → IsUnique t
    → find ℕ_discrete j (update_from query chunk t states) ≡ elim (row query j t) [
      | none ↦ find ℕ_discrete j states
      | some r ↦ if has j chunk then some r else find ℕ_discrete j states
    ]
unfolding update_from row
find-update_from query chunk j [] states u = refl
find-update_from query chunk j (s ∷ t) states u = ground (
  arith,
  find-update_from query chunk j t states,
  find-update_from query chunk j t (assign ℕ_discrete s.ad_id s states),
  find-assign ℕ_discrete s.ad_id j s states,
)

find-load_chunks :
    (t : Table) (query : String) (j : ℕ) (cs : List (List ℕ)) (states : List (ℕ × State))
    → IsUnique t
    → find ℕ_discrete j (load_chunks t query cs states) ≡ elim (row query j t) [
      | none ↦ find ℕ_discrete j states
      | some r ↦ if has_any j cs then some r else find ℕ_discrete j states
    ]
unfolding load_chunks
find-load_chunks t query j [] states u = ground arith
find-load_chunks t query j (c ∷ cs) states u = ground (
  arith,
  find-load_chunks t query j cs (update_from query c t states),
  find-update_from query c j t states,
)

-- The chunked lookup returns exactly the rows of the query with a wanted id.
pub find-load_listing_states :
    (t : Table) (query : String) (ad_ids : List ℕ) (j : ℕ)
    → IsUnique t
    → find ℕ_discrete j (load_listing_states t query ad_ids)
      ≡ (if has j ad_ids then row query j t else none)
unfolding load_listing_states find chunks
find-load_listing_states t query ad_ids j u =
    let ids = unique_ids ad_ids in
    ground (
      arith,
      find-load_chunks t query j (chunks lookup_chunk ids) [] u,
      has_any-chunks j lookup_chunk (length ids) ids,
      has-unique_ids j ad_ids,
    )
