-- ===== src/Cache/Memory/Laws.antt =====
-- What `MemoryCache` keeps: its bound, its recency order and its expiry.
use rafuk.Base.{
  ℕ, ◌+◌, ◌≤◌, ◌<◌, String, false, not, ◌≡◌, ◌≢◌, inl, inr, Option, none, some, List, [], ◌∷◌, ◌++◌,
  arith, length, length-append, keep, keep-append, str_dec, ltb, leb, if◌then◌else◌, Bool-cases, ap,
}
use rafuk.Base.Int.{ℤ, pos_part}
use rafuk.Base.Time.{seconds}
use rafuk.Base.OrderedDict.{
  Distinct, find, without, move_to_end-assign, without-Distinct, append-Distinct, find-without_self,
  find-without_ne, find-append, length-without-le, move_to_end-Distinct, length-move_to_end-le,
}
use rafuk.Base.OrderedDict.Deletion.{without_all-keys_where, keep-Distinct, find-keep_absent}
use rafuk.Cache.Memory.{
  Entry, MemoryCache, expired, pop_oldest, evict, deadline, rejected, get, set,
}

length-pop_oldest-le : (m : ℕ) (d : List (String × Entry)) → length (pop_oldest m d) ≤ m
unfolding pop_oldest
length-pop_oldest-le m [] = omega arith
length-pop_oldest-le m (e ∷ d) = ground (arith, length-pop_oldest-le m d)

pop_oldest-Distinct :
    (m : ℕ) (d : List (String × Entry)) → Distinct str_dec d → Distinct str_dec (pop_oldest m d)
unfolding pop_oldest
pop_oldest-Distinct m [] h = tt
pop_oldest-Distinct m (e ∷ d) h = ground (arith, pop_oldest-Distinct m d)

find-pop_oldest_last :
    (m : ℕ) (k : String) (e : Entry) (d : List (String × Entry))
    → 1 ≤ m
    → find str_dec k d ≡ none
    → find str_dec k (pop_oldest m (d ++ (k, e) ∷ [])) ≡ some e
unfolding pop_oldest find
find-pop_oldest_last m k e [] h n = ground arith
find-pop_oldest_last m k e ((j, v) ∷ d) h n =
    ground (arith, find-pop_oldest_last m k e d, find-append str_dec k k e d)

-- The entries in their order of use after `set` stored one, before anything is evicted.
abbrev pub renewed : MemoryCache → ℕ → String → String → Option ℤ → List (String × Entry)
renewed c now key value ttl =
    without str_dec key c.storage
    ++ (key, record { expires_at = deadline now ttl; value = value }) ∷ []

abbrev pub unexpired : ℕ → List (String × Entry) → List (String × Entry)
unexpired now = keep (λ e. not (expired now e.1))

pub record IsValid (c : MemoryCache) : Type 0 where
  pub positive : 1 ≤ c.max_entries
  pub bounded : length c.storage ≤ c.max_entries
  pub distinct : Distinct str_dec c.storage

renewed-Distinct :
    (c : MemoryCache) (now : ℕ) (key value : String) (ttl : Option ℤ)
    → Distinct str_dec c.storage
    → Distinct str_dec (renewed c now key value ttl)
renewed-Distinct c now key value ttl h =
    append-Distinct str_dec key _ _ (find-without_self str_dec key c.storage)
      (without-Distinct str_dec key c.storage h)

-- `set` in one equation: the renewed entries, without the expired ones and then without the least
-- recently used ones, if they are too many.
pub set_lem :
    (c : MemoryCache) (now later : ℕ) (key value : String) (ttl : Option ℤ)
    → IsValid c
    → rejected ttl ≡ false
    → (set c now later key value ttl).storage ≡ (
        if leb (length (renewed c now key value ttl)) c.max_entries
        then renewed c now key value ttl
        else pop_oldest c.max_entries (unexpired later (renewed c now key value ttl)))
unfolding set
set_lem c now later key value ttl h ok =
    let entry : Entry = record { expires_at = deadline now ttl; value = value } in
    rw (ok, move_to_end-assign str_dec key entry c.storage h.distinct)
      (ground (
        arith,
        without_all-keys_where str_dec (expired later) (renewed c now key value ttl)
            (renewed-Distinct c now key value ttl h.distinct),
      ))

max_entries-set :
    (c : MemoryCache) (now later : ℕ) (key value : String) (ttl : Option ℤ)
    → (set c now later key value ttl).max_entries ≡ c.max_entries
unfolding set evict
max_entries-set c now later key value ttl = ground arith

pub set-IsValid :
    (c : MemoryCache) (now later : ℕ) (key value : String) (ttl : Option ℤ)
    → IsValid c
    → IsValid (set c now later key value ttl)
unfolding set evict
set-IsValid c now later key value ttl h = elim (Bool-cases (rejected ttl)) [
  | inl bad ↦ rw bad (record {
    positive = h.positive;
    bounded = omega (arith, length-without-le str_dec key c.storage, h.bounded);
    distinct = without-Distinct str_dec key c.storage h.distinct;
  })
  | inr ok ↦ stored ok
]
  where
    entries : List (String × Entry)
    entries = renewed c now key value ttl

    one_key : Distinct str_dec entries
    one_key = renewed-Distinct c now key value ttl h.distinct

    stored : rejected ttl ≡ false → IsValid (set c now later key value ttl)
    stored ok = record {
      positive = rw max_entries-set h.positive;
      bounded =
          rw (max_entries-set, set_lem c now later key value ttl h ok)
            (ground (arith, length-pop_oldest-le c.max_entries (unexpired later entries)));
      distinct = rw (set_lem c now later key value ttl h ok) (
          ground (
            arith,
            one_key,
            pop_oldest-Distinct c.max_entries (unexpired later entries)
                (keep-Distinct str_dec (λ e. not (expired later e.1)) entries one_key),
          ));
    }

pub get-IsValid : (c : MemoryCache) (now : ℕ) (key : String) → IsValid c → IsValid (get c now key).0
unfolding get
get-IsValid c now key h = ground (
  arith,
  without-Distinct str_dec key c.storage h.distinct,
  move_to_end-Distinct str_dec key c.storage h.distinct,
  length-without-le str_dec key c.storage,
  length-move_to_end-le str_dec key c.storage,
)

-- What `get` returns at time `t` for an entry that it finds.
abbrev read : ℕ → Option Entry → Option String
read t none = none
read t (some e) = if expired t e then none else some e.value

get-read :
    (c : MemoryCache) (t : ℕ) (key : String) → (get c t key).1 ≡ read t (find str_dec key c.storage)
unfolding get
get-read c t key = ground arith

find-set :
    (c : MemoryCache) (now later : ℕ) (key value : String) (ttl : ℤ)
    → IsValid c
    → 0 < pos_part ttl
    → later < now + seconds (pos_part ttl)
    → find str_dec key (set c now later key value (some ttl)).storage
      ≡ some (record { expires_at = some (now + seconds (pos_part ttl)); value = value })
unfolding expired rejected deadline keep
find-set c now later key value ttl h positive quick =
    let old = without str_dec key c.storage in
    let gone = find-without_self str_dec key c.storage in
    let entry : Entry = record {
      expires_at = some (now + seconds (pos_part ttl));
      value = value;
    } in
    rw (set_lem c now later key value (some ttl) h (ground arith)) (
      ground (
        arith,
        find-append str_dec key key entry old,
        gone,
        keep-append (λ (e : String × Entry). not (expired later e.1)) old ((key, entry) ∷ []),
        find-keep_absent str_dec (λ (e : String × Entry). not (expired later e.1)) key old gone,
        find-pop_oldest_last c.max_entries key entry (unexpired later old),
      ))

-- An entry that was just stored is found until its time to live has passed, and not after that.
pub get-set :
    (c : MemoryCache) (now later t : ℕ) (key value : String) (ttl : ℤ)
    → IsValid c
    → 0 < pos_part ttl
    → later < now + seconds (pos_part ttl)
    → (get (set c now later key value (some ttl)) t key).1
      ≡ (if ltb t (now + seconds (pos_part ttl)) then some value else none)
unfolding expired
get-set c now later t key value ttl h positive quick =
    rw (get-read, find-set c now later key value ttl h positive quick) (ground arith)

-- Storing one key into a cache that has room for it does not change what any other key returns.
pub get-set_ne :
    (c : MemoryCache) (now later t : ℕ) (key j value : String) (ttl : Option ℤ)
    → IsValid c
    → length (without str_dec key c.storage) < c.max_entries
    → j ≢ key
    → (get (set c now later key value ttl) t j).1 ≡ (get c t j).1
unfolding set
get-set_ne c now later t key j value ttl h room other = simp get-read (ap (read t) same)
  where
    same : find str_dec j (set c now later key value ttl).storage ≡ find str_dec j c.storage
    same = elim (Bool-cases (rejected ttl)) [
      | inl bad ↦ rw bad (find-without_ne str_dec key j c.storage other)
      | inr ok ↦ rw (set_lem c now later key value ttl h ok) (
          ground (
            arith,
            length-append (without str_dec key c.storage)
                ((key, record { expires_at = deadline now ttl; value = value }) ∷ []),
            find-append str_dec j key (record { expires_at = deadline now ttl; value = value })
                (without str_dec key c.storage),
            find-without_ne str_dec key j c.storage other,
          ))
    ]
