-- ===== src/Pipeline/DatasetCache.antt =====
-- `DatasetCache` of api/services/query_pipeline.py, over the responses that it holds. Times to live
-- and readings of the clock are in microseconds.
pub mod Invariant
pub mod Lookup
mod Tests
use rafuk.Base.{
  ℕ, ◌+◌, ◌-◌, ◌≤◌, String, Bool, true, false, ◌||◌, ◌≡◌, Option, none, some, List, [], ◌∷◌, ◌++◌,
  min, max, length, ltb, leb, if◌then◌else◌, str_dec,
}
use rafuk.Base.OrderedDict.{find, without, assign, move_to_end}
use rafuk.Base.OrderedDict.Deletion.{keys_where}

-- A normalized response: its ads, and whether the pagination stopped early.
pub record Response (Ad : Type 0) : Type 0 where
  pub ads : List Ad
  pub truncated : Bool

pub record Entry (Ad : Type 0) : Type 0 where
  pub expires_at : ℕ
  pub size : ℕ
  pub value : Response Ad

pub record DatasetCache (Ad : Type 0) : Type 0 where
  pub ttl_seconds : ℕ
  pub truncated_ttl_seconds : ℕ
  pub max_entries : ℕ
  pub max_ads : ℕ
  pub entries : List (String × Entry Ad)
  pub total_ads : ℕ

module _ {Ad : Type 0} where
  pub init : ℕ → ℕ → ℕ → ℕ → DatasetCache Ad
  init ttl_seconds truncated_ttl_seconds max_entries max_ads = record {
    ttl_seconds = ttl_seconds;
    truncated_ttl_seconds = min truncated_ttl_seconds ttl_seconds;
    max_entries = max 1 max_entries;
    max_ads = max_ads;
    entries = [];
    total_ads = 0;
  }

  pub clear : DatasetCache Ad → DatasetCache Ad
  clear c = record c { entries = []; total_ads = 0 }

  -- `_count_ads`
  unfoldable pub count_ads : Response Ad → ℕ
  count_ads r = length r.ads

  -- `_remove`
  pub remove : DatasetCache Ad → String → DatasetCache Ad
  remove c key = elim (find str_dec key c.entries) [
    | none ↦ c
    | some e ↦ record c {
      entries = without str_dec key c.entries;
      total_ads = c.total_ads - e.size;
    }
  ]

  pub expired : ℕ → Entry Ad → Bool
  expired now e = leb e.expires_at now

  pub remove_all : DatasetCache Ad → List String → DatasetCache Ad
  unfolding remove
  remove_all c [] = c
  remove_all c (key ∷ keys) = remove_all (remove c key) keys

  pub purge_expired : DatasetCache Ad → ℕ → DatasetCache Ad × ℕ
  unfolding expired remove_all
  purge_expired c now =
      let keys = keys_where (expired now) c.entries in (remove_all c keys, length keys)

  -- The part of `get` behind the purge.
  pub touch : DatasetCache Ad → String → DatasetCache Ad × Option (Response Ad)
  touch c key = elim (find str_dec key c.entries) [
    | none ↦ (c, none)
    | some e ↦ (record c { entries = move_to_end str_dec key c.entries }, some e.value)
  ]

  unfoldable pub get : DatasetCache Ad → ℕ → String → DatasetCache Ad × Option (Response Ad)
  unfolding purge_expired touch
  get c now key = touch (purge_expired c now).0 key

  unfoldable pub ttl_for : DatasetCache Ad → Response Ad → ℕ
  ttl_for c value = if value.truncated then c.truncated_ttl_seconds else c.ttl_seconds

  -- The loop over `_evict_oldest`: the entries that stay and the ads that they hold.
  pub evict : ℕ → ℕ → List (String × Entry Ad) → ℕ → List (String × Entry Ad) × ℕ
  evict max_entries max_ads [] total = ([], total)
  evict max_entries max_ads ((k, e) ∷ d) total =
      if ltb max_entries (length ((k, e) ∷ d)) || ltb max_ads total
      then evict max_entries max_ads d (total - e.size)
      else ((k, e) ∷ d, total)

  -- `self._entries[key] = entry; self._total_ads += size`, and the loop
  store : DatasetCache Ad → String → Entry Ad → DatasetCache Ad
  unfolding evict
  store c key e =
      let (kept, total) =
        evict c.max_entries c.max_ads (assign str_dec key e c.entries) (c.total_ads + e.size) in
      record c { entries = kept; total_ads = total }

  -- `now` is the reading by `purge_expired`, `later` the one for the expiry.
  unfoldable pub put : DatasetCache Ad → ℕ → ℕ → String → Response Ad → DatasetCache Ad
  unfolding remove purge_expired ttl_for count_ads store
  put c now later key value =
      let purged = (purge_expired (remove c key) now).0 in
      let ttl = ttl_for c value in
      let size = count_ads value in
      if leb ttl 0 || ltb c.max_ads size
      then purged
      else store purged key (record { expires_at = later + ttl; size = size; value = value })
