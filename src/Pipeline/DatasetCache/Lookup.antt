-- ===== src/Pipeline/DatasetCache/Lookup.antt =====
-- What a dataset that was put into `DatasetCache` can be read back as, and for how long.
use rafuk.Base.{
  ℕ, ◌+◌, ◌-◌, ◌≤◌, ◌<◌, String, not, ◌&&◌, ◌≡◌, refl, Option, none, some, List, [], ◌∷◌, ◌++◌,
  arith, str_dec, ltb, leb, if◌then◌else◌, keep,
}
use rafuk.Base.OrderedDict.{Distinct, find, assign_absent, find-append}
use rafuk.Base.OrderedDict.Sum.{total}
use rafuk.Base.OrderedDict.Deletion.{keys_where, without_all, without_all-keys_where, find-keep}
use rafuk.Pipeline.DatasetCache.{
  Response, Entry, DatasetCache, remove, remove_all, expired, purge_expired, touch, get, count_ads,
  ttl_for, evict, store, put,
}
use rafuk.Pipeline.DatasetCache.Invariant.{
  IsValid, AreSized, entry_size, entries-remove, remove-IsValid, purge-IsValid, purged-absent,
  put-IsValid,
}

module _ {Ad : Type 0} where
  entries-remove_all :
      (keys : List String) (c : DatasetCache Ad)
      → (remove_all c keys).entries ≡ without_all str_dec keys c.entries
  unfolding remove_all without_all
  entries-remove_all [] c = refl
  entries-remove_all (key ∷ keys) c =
      rw (entries-remove_all keys (remove c key), entries-remove c key)

  -- A purge keeps exactly the entries that have not expired, in their order.
  pub entries-purge_expired :
      (c : DatasetCache Ad) (now : ℕ)
      → Distinct str_dec c.entries
      → (purge_expired c now).0.entries ≡ keep (λ e. not (expired now e.1)) c.entries
  unfolding purge_expired
  entries-purge_expired c now h =
      rw (entries-remove_all (keys_where (expired now) c.entries) c)
        (without_all-keys_where str_dec (expired now) c.entries h)

  abbrev read : Option (Entry Ad) → Option (Response Ad)
  read none = none
  read (some e) = some e.value

  touch-read :
      (c : DatasetCache Ad) (key : String) → (touch c key).1 ≡ read (find str_dec key c.entries)
  unfolding touch
  touch-read c key = ground arith

  -- The last entry is within both limits on its own, so the loop stops before it.
  find-evict_last :
      (me ma n : ℕ) (k : String) (e : Entry Ad) (d : List (String × Entry Ad))
      → 1 ≤ me
      → e.size ≤ ma
      → n ≡ total entry_size d + e.size
      → AreSized d
      → find str_dec k d ≡ none
      → find str_dec k (evict me ma (d ++ (k, e) ∷ []) n).0 ≡ some e
  unfolding evict find
  find-evict_last me ma n k e [] p q c a h = ground arith
  find-evict_last me ma n k e ((j, v) ∷ d) p q c (sized, a) h =
      ground
        (arith, find-evict_last me ma (n - v.size) k e d, sized, a, find-append str_dec k k e d)

  find-store :
      (c : DatasetCache Ad) (key : String) (e : Entry Ad)
      → IsValid c
      → find str_dec key c.entries ≡ none
      → e.size ≤ c.max_ads
      → find str_dec key (store c key e).entries ≡ some e
  unfolding store
  find-store c key e h new fits = rw (assign_absent str_dec key e c.entries new) (
      find-evict_last c.max_entries c.max_ads (c.total_ads + e.size) key e c.entries h.positive fits
        (omega (arith, h.counted)) h.sized new)

  get-find :
      (c : DatasetCache Ad) (t : ℕ) (key : String)
      → IsValid c
      → (get c t key).1 ≡ elim (find str_dec key c.entries) [
        | none ↦ none
        | some e ↦ if ltb t e.expires_at then some e.value else none
      ]
  unfolding get expired
  get-find c t key h =
      rw (touch-read, entries-purge_expired c t h.distinct)
        (ground (
          arith,
          find-keep str_dec (λ (e : String × Entry Ad). not (expired t e.1)) key c.entries
              h.distinct,
        ))

  max_ads-remove_all :
      (keys : List String) (c : DatasetCache Ad) → (remove_all c keys).max_ads ≡ c.max_ads
  unfolding remove_all remove
  max_ads-remove_all [] c = refl
  max_ads-remove_all (key ∷ keys) c = ground (arith, max_ads-remove_all keys (remove c key))

  max_ads-purged :
      (c : DatasetCache Ad) (now : ℕ) (key : String)
      → (purge_expired (remove c key) now).0.max_ads ≡ c.max_ads
  unfolding purge_expired
  max_ads-purged c now key =
      max_ads-remove_all (key ∷ keys_where (expired now) (remove c key).entries) c

  -- A dataset that fits the cache is read back until its time to live has passed and not after that;
  -- one that is too large is not cached, and the older dataset of its key is gone too.
  pub get-put :
      (c : DatasetCache Ad) (now later t : ℕ) (key : String) (value : Response Ad)
      → IsValid c
      → 0 < ttl_for c value
      → (get (put c now later key value) t key).1 ≡ (
          if leb (count_ads value) c.max_ads && ltb t (later + ttl_for c value)
          then some value
          else none)
  unfolding put
  get-put c now later t key value h alive =
      rw (get-find (put c now later key value) t key (put-IsValid c now later key value h)) stored
    where
      purged : DatasetCache Ad
      purged = (purge_expired (remove c key) now).0

      entry : Entry Ad
      entry = record { expires_at = later + ttl_for c value; size = count_ads value; value = value }

      stored :
          (elim (find str_dec key (put c now later key value).entries) [
            | none ↦ none
            | some e ↦ if ltb t e.expires_at then some e.value else none
          ])
          ≡ (if leb (count_ads value) c.max_ads && ltb t (later + ttl_for c value)
              then some value
              else none)
      stored = ground (
        arith,
        purged-absent c now key,
        max_ads-purged c now key,
        find-store purged key entry (purge-IsValid (remove c key) now (remove-IsValid c key h))
            (purged-absent c now key),
      )
