-- ===== src/Cache/Memory.antt =====
-- `MemoryCache` of api/services/cache.py. Each method takes the readings of the clock that it makes
-- and returns the new cache beside its result.
pub mod Laws
pub mod Recency
mod Tests
use rafuk.Base.{
  ℕ, ◌+◌, ◌≤◌, String, ite, Option, none, some, Bool, false, List, [], ◌∷◌, max, length, leb,
  if◌then◌else◌, str_dec,
}
use rafuk.Base.Int.{ℤ, pos_part}
use rafuk.Base.Time.{seconds}
use rafuk.Base.OrderedDict.{find, without, assign, move_to_end}
use rafuk.Base.OrderedDict.Deletion.{keys_where, without_all}

pub record Entry : Type 0 where
  pub expires_at : Option ℕ
  pub value : String

pub record MemoryCache : Type 0 where
  pub max_entries : ℕ
  pub storage : List (String × Entry)

pub init : ℕ → MemoryCache
init max_entries = record { max_entries = max 1 max_entries; storage = [] }

-- `expires_at is not None and expires_at <= now`
pub expired : ℕ → Entry → Bool
expired now e = elim e.expires_at [ none ↦ false | some t ↦ leb t now ]

pub get : MemoryCache → ℕ → String → MemoryCache × Option String
unfolding expired
get c now key = elim (find str_dec key c.storage) [
  | none ↦ (c, none)
  | some e ↦
      if expired now e
      then (record c { storage = without str_dec key c.storage }, none)
      else (record c { storage = move_to_end str_dec key c.storage }, some e.value)
]

-- `while len(self._storage) > self._max_entries: self._storage.popitem(last=False)`
pub pop_oldest : ℕ → List (String × Entry) → List (String × Entry)
pop_oldest room [] = []
pop_oldest room (e ∷ d) = if leb (length (e ∷ d)) room then e ∷ d else pop_oldest room d

pub evict : MemoryCache → ℕ → MemoryCache
unfolding expired pop_oldest
evict c now =
    if leb (length c.storage) c.max_entries
    then c
    else (let live = without_all str_dec (keys_where (expired now) c.storage) c.storage in
        record c { storage = pop_oldest c.max_entries live })

-- `self._clock() + ttl if ttl is not None else None`
pub deadline : ℕ → Option ℤ → Option ℕ
deadline now none = none
deadline now (some ttl) = some (now + seconds (pos_part ttl))

-- `ttl is not None and ttl <= 0`
pub rejected : Option ℤ → Bool
rejected none = false
rejected (some ttl) = leb (pos_part ttl) 0

-- `now` is the reading for the expiry, `later` the one that `_evict` makes.
pub set : MemoryCache → ℕ → ℕ → String → String → Option ℤ → MemoryCache
unfolding evict deadline rejected
set c now later key value ttl =
    if rejected ttl
    then record c { storage = without str_dec key c.storage }
    else (let entry : Entry = record { expires_at = deadline now ttl; value = value } in
        let stored = move_to_end str_dec key (assign str_dec key entry c.storage) in
        evict (record c { storage = stored }) later)

-- `aclose`
pub clear : MemoryCache → MemoryCache
clear c = record c { storage = [] }
