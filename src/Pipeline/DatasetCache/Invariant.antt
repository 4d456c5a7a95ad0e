-- ===== src/Pipeline/DatasetCache/Invariant.antt =====
-- The bounds of `DatasetCache` hold in every cache that calls can produce.
use rafuk.Base.{
  ℕ, ◌+◌, ◌-◌, ◌≤◌, String, ◌≡◌, refl, inl, inr, none, some, All, List, [], ◌∷◌, ◌++◌, arith,
  length, str_dec, Option-cases,
}
use rafuk.Base.OrderedDict.{
  Distinct, find, without, without_absent, without-Distinct, length-without-le, assign_absent,
  append-Distinct, move_to_end, move_to_end-Distinct, length-move_to_end-le, find-without_self,
  find-without_absent,
}
use rafuk.Base.OrderedDict.Sum.{total, total-append, total-without, total-move_to_end}
use rafuk.Base.OrderedDict.Deletion.{keys_where}
use rafuk.Pipeline.DatasetCache.{
  Response, Entry, DatasetCache, init, clear, remove, remove_all, expired, purge_expired, touch,
  get, count_ads, ttl_for, evict, store, put,
}

module _ {Ad : Type 0} where
  abbrev pub entry_size : Entry Ad → ℕ
  entry_size e = length e.value.ads

  -- Every entry stores the number of its ads.
  abbrev pub AreSized : List (String × Entry Ad) → Type 0
  AreSized d = All (λ p. p.1.size ≡ entry_size p.1) d

  -- Both limits hold, the running total is the number of ads held, which every entry has right for its
  -- own ads, and no key stands twice.
  pub record IsValid (c : DatasetCache Ad) : Type 0 where
    pub positive : 1 ≤ c.max_entries
    pub entries_bounded : length c.entries ≤ c.max_entries
    pub ads_bounded : c.total_ads ≤ c.max_ads
    pub counted : c.total_ads ≡ total entry_size c.entries
    pub sized : AreSized c.entries
    pub distinct : Distinct str_dec c.entries

  find-AreSized :
      (key : String) (e : Entry Ad) (d : List (String × Entry Ad))
      → find str_dec key d ≡ some e
      → AreSized d
      → e.size ≡ entry_size e
  unfolding find
  find-AreSized key e [] f h = absurd cc
  find-AreSized key e ((k, v) ∷ d) f (here, h) = ground (arith, find-AreSized key e d, here, f)

  without-AreSized :
      (key : String) (d : List (String × Entry Ad)) → AreSized d → AreSized (without str_dec key d)
  unfolding without
  without-AreSized key [] h = tt
  without-AreSized key ((k, v) ∷ d) (here, h) = ground (arith, here, without-AreSized key d h)

  append-AreSized :
      (key : String) (e : Entry Ad) (d : List (String × Entry Ad))
      → e.size ≡ entry_size e
      → AreSized d
      → AreSized (d ++ (key, e) ∷ [])
  append-AreSized key e [] s h = (s, tt)
  append-AreSized key e (p ∷ d) s (here, h) = (here, append-AreSized key e d s h)

  move_to_end-AreSized :
      (key : String) (d : List (String × Entry Ad))
      → AreSized d
      → AreSized (move_to_end str_dec key d)
  unfolding move_to_end
  move_to_end-AreSized key d h = elim (Option-cases (find str_dec key d)) [
    | inl n ↦ rw (n, move_to_end) h
    | inr (e, found) ↦
        rw (found, move_to_end)
          (append-AreSized key e (without str_dec key d) (find-AreSized key e d found h)
            (without-AreSized key d h))
  ]

  pub entries-remove :
      (c : DatasetCache Ad) (key : String) → (remove c key).entries ≡ without str_dec key c.entries
  unfolding remove
  entries-remove c key = ground (arith, without_absent str_dec key c.entries)

  pub remove-IsValid : (c : DatasetCache Ad) (key : String) → IsValid c → IsValid (remove c key)
  unfolding remove
  remove-IsValid c key h = elim (Option-cases (find str_dec key c.entries)) [
    | inl n ↦ rw (n, remove) h
    | inr (e, found) ↦
        rw (found, remove)
          (record {
            positive = h.positive;
            entries_bounded =
                omega (arith, length-without-le str_dec key c.entries, h.entries_bounded);
            ads_bounded = omega (arith, h.ads_bounded);
            counted = omega (
              arith,
              h.counted,
              find-AreSized key e c.entries found h.sized,
              total-without str_dec entry_size key e c.entries h.distinct found,
            );
            sized = without-AreSized key c.entries h.sized;
            distinct = without-Distinct str_dec key c.entries h.distinct;
          })
  ]

  remove_all-IsValid :
      (keys : List String) (c : DatasetCache Ad) → IsValid c → IsValid (remove_all c keys)
  unfolding remove_all
  remove_all-IsValid [] c h = h
  remove_all-IsValid (key ∷ keys) c h =
      remove_all-IsValid keys (remove c key) (remove-IsValid c key h)

  pub purge-IsValid : (c : DatasetCache Ad) (now : ℕ) → IsValid c → IsValid (purge_expired c now).0
  unfolding purge_expired
  purge-IsValid c now h = remove_all-IsValid (keys_where (expired now) c.entries) c h

  touch-IsValid : (c : DatasetCache Ad) (key : String) → IsValid c → IsValid (touch c key).0
  unfolding touch
  touch-IsValid c key h = ground (
    arith,
    length-move_to_end-le str_dec key c.entries,
    total-move_to_end str_dec entry_size key c.entries h.distinct,
    move_to_end-Distinct str_dec key c.entries h.distinct,
    move_to_end-AreSized key c.entries h.sized,
  )

  pub get-IsValid :
      (c : DatasetCache Ad) (now : ℕ) (key : String) → IsValid c → IsValid (get c now key).0
  unfolding get
  get-IsValid c now key h = touch-IsValid (purge_expired c now).0 key (purge-IsValid c now h)

  -- What the eviction loop leaves respects both limits and counts the ads that it holds.
  pub record IsEvicted (max_entries max_ads : ℕ) (r : List (String × Entry Ad) × ℕ) : Type 0 where
    pub short : length r.0 ≤ max_entries
    pub small : r.1 ≤ max_ads
    pub exact : r.1 ≡ total entry_size r.0
    pub counts : AreSized r.0
    pub once : Distinct str_dec r.0

  evict-IsEvicted :
      (max_entries max_ads : ℕ) (d : List (String × Entry Ad)) (n : ℕ)
      → n ≡ total entry_size d
      → AreSized d
      → Distinct str_dec d
      → IsEvicted max_entries max_ads (evict max_entries max_ads d n)
  unfolding evict
  evict-IsEvicted me ma [] n e a h = record {
    short = omega arith;
    small = omega arith;
    exact = e;
    counts = a;
    once = tt;
  }
  evict-IsEvicted me ma ((k, v) ∷ d) n e a h = ground (arith, evict-IsEvicted me ma d (n - v.size))

  store-IsValid :
      (c : DatasetCache Ad) (key : String) (e : Entry Ad)
      → IsValid c
      → find str_dec key c.entries ≡ none
      → e.size ≡ entry_size e
      → IsValid (store c key e)
  unfolding store
  store-IsValid c key e h new sized =
      let kept =
        evict-IsEvicted c.max_entries c.max_ads (c.entries ++ (key, e) ∷ []) (c.total_ads + e.size)
          (omega (arith, total-append entry_size c.entries key e, h.counted, sized))
          (append-AreSized key e c.entries sized h.sized)
          (append-Distinct str_dec key e c.entries new h.distinct) in
      rw (assign_absent str_dec key e c.entries new) (record {
        positive = h.positive;
        entries_bounded = kept.short;
        ads_bounded = kept.small;
        counted = kept.exact;
        sized = kept.counts;
        distinct = kept.once;
      })

  remove_all-absent :
      (keys : List String) (c : DatasetCache Ad) (key : String)
      → find str_dec key c.entries ≡ none
      → find str_dec key (remove_all c keys).entries ≡ none
  unfolding remove_all
  remove_all-absent [] c key h = h
  remove_all-absent (k ∷ keys) c key h =
      remove_all-absent keys (remove c k) key
        (rw entries-remove (find-without_absent str_dec k key c.entries h))

  pub purged-absent :
      (c : DatasetCache Ad) (now : ℕ) (key : String)
      → find str_dec key (purge_expired (remove c key) now).0.entries ≡ none
  unfolding purge_expired
  purged-absent c now key =
      remove_all-absent (keys_where (expired now) (remove c key).entries) (remove c key) key
        (rw entries-remove (find-without_self str_dec key c.entries))

  pub put-IsValid :
      (c : DatasetCache Ad) (now later : ℕ) (key : String) (value : Response Ad)
      → IsValid c
      → IsValid (put c now later key value)
  unfolding put count_ads
  put-IsValid c now later key value h =
      let purged = purge-IsValid (remove c key) now (remove-IsValid c key h) in
      ground (
        arith,
        purged,
        store-IsValid (purge_expired (remove c key) now).0 key
            (record { expires_at = later + ttl_for c value; size = count_ads value; value = value })
            purged (purged-absent c now key) refl,
      )

-- A call of the cache with the readings of the clock that it makes.
pub data Call (Ad : Type 0) : Type 0 where
  get_at : ℕ → String → Call Ad
  put_at : ℕ → ℕ → String → Response Ad → Call Ad
  clear_all : Call Ad

module _ {Ad : Type 0} where
  unfoldable pub run_calls : List (Call Ad) → DatasetCache Ad → DatasetCache Ad
  run_calls [] c = c
  run_calls (get_at now key ∷ calls) c = run_calls calls (get c now key).0
  run_calls (put_at now later key value ∷ calls) c = run_calls calls (put c now later key value)
  run_calls (clear_all ∷ calls) c = run_calls calls (clear c)

  run_keeps :
      (calls : List (Call Ad)) (c : DatasetCache Ad) → IsValid c → IsValid (run_calls calls c)
  unfolding run_calls clear
  run_keeps [] c h = h
  run_keeps (get_at now key ∷ calls) c h = run_keeps calls _ (get-IsValid c now key h)
  run_keeps (put_at now later key value ∷ calls) c h =
      run_keeps calls _ (put-IsValid c now later key value h)
  run_keeps (clear_all ∷ calls) c h = run_keeps calls (clear c) (record {
    positive = h.positive;
    entries_bounded = omega arith;
    ads_bounded = omega arith;
    counted = refl;
    sized = tt;
    distinct = tt;
  })

  -- After any calls the cache respects its limits on entries and on ads, every entry stores the length
  -- of its list of ads, the running total is the sum of these lengths, and no key stands twice.
  pub run_calls-IsValid :
      (calls : List (Call Ad)) (ttl truncated_ttl max_entries max_ads : ℕ)
      → IsValid (run_calls calls (init ttl truncated_ttl max_entries max_ads))
  unfolding init
  run_calls-IsValid calls ttl truncated_ttl max_entries max_ads =
      run_keeps calls (init ttl truncated_ttl max_entries max_ads) (record {
        positive = omega arith;
        entries_bounded = omega arith;
        ads_bounded = omega arith;
        counted = refl;
        sized = tt;
        distinct = tt;
      })
