-- ===== src/Cache/Memory/Recency.antt =====
-- Every cache that calls can produce is valid, and a full one gives up its least recently used entry.
use rafuk.Base.{
  ℕ, suc, String, false, not, ◌≡◌, refl, Option, none, List, [], ◌∷◌, ◌++◌, arith, length,
  length-append, keep, keep-append, str_dec,
}
use rafuk.Base.Int.{ℤ}
use rafuk.Base.OrderedDict.{find, without_absent}
use rafuk.Cache.Memory.{
  Entry, MemoryCache, init, expired, pop_oldest, deadline, rejected, get, set, clear,
}
use rafuk.Cache.Memory.Laws.{IsValid, set-IsValid, get-IsValid, set_lem, unexpired}

-- A call of the cache with the readings of the clock that it makes.
pub data Call : Type 0 where
  get_at : ℕ → String → Call
  set_at : ℕ → ℕ → String → String → Option ℤ → Call
  close : Call

unfoldable pub run : List Call → MemoryCache → MemoryCache
run [] c = c
run (get_at now key ∷ calls) c = run calls (get c now key).0
run (set_at now later key value ttl ∷ calls) c = run calls (set c now later key value ttl)
run (close ∷ calls) c = run calls (clear c)

run_keeps : (calls : List Call) (c : MemoryCache) → IsValid c → IsValid (run calls c)
unfolding run clear
run_keeps [] c h = h
run_keeps (get_at now key ∷ calls) c h = run_keeps calls _ (get-IsValid c now key h)
run_keeps (set_at now later key value ttl ∷ calls) c h =
    run_keeps calls _ (set-IsValid c now later key value ttl h)
run_keeps (close ∷ calls) c h =
    run_keeps calls (clear c)
      (record { positive = h.positive; bounded = omega arith; distinct = tt })

-- After any calls, a cache never holds more entries than its limit, and no key twice.
pub run-IsValid : (calls : List Call) (limit : ℕ) → IsValid (run calls (init limit))
unfolding init
run-IsValid calls limit =
    run_keeps calls (init limit)
      (record { positive = omega arith; bounded = omega arith; distinct = tt })

pop_oldest_full : (m : ℕ) (d : List (String × Entry)) → length d ≡ m → pop_oldest m d ≡ d
unfolding pop_oldest
pop_oldest_full m [] h = refl
pop_oldest_full m (e ∷ d) h = ground arith

append_live :
    (later : ℕ) (x : String × Entry) (d : List (String × Entry))
    → unexpired later d ≡ d
    → expired later x.1 ≡ false
    → unexpired later (d ++ x ∷ []) ≡ d ++ x ∷ []
unfolding keep
append_live later x d live fresh =
    ground (arith, keep-append (λ (e : String × Entry). not (expired later e.1)) d (x ∷ []))

pop_first :
    (m : ℕ) (x y : String × Entry) (d : List (String × Entry))
    → suc (length d) ≡ m
    → pop_oldest m (y ∷ (d ++ x ∷ [])) ≡ d ++ x ∷ []
unfolding pop_oldest
pop_first m x y d h = ground (arith, length-append d (x ∷ []), pop_oldest_full m (d ++ x ∷ []))

-- Storing a new key into a full cache without expired entries drops exactly the entry that was
-- used longest ago, and keeps the others in their order.
pub set-evicts_oldest :
    (c : MemoryCache) (now later : ℕ) (key value : String) (ttl : Option ℤ)
    (oldest : String × Entry) (rest : List (String × Entry))
    → IsValid c
    → c.storage ≡ oldest ∷ rest
    → length c.storage ≡ c.max_entries
    → find str_dec key c.storage ≡ none
    → unexpired later c.storage ≡ c.storage
    → rejected ttl ≡ false
    → expired later (record { expires_at = deadline now ttl; value = value }) ≡ false
    → (set c now later key value ttl).storage
      ≡ rest ++ (key, record { expires_at = deadline now ttl; value = value }) ∷ []
set-evicts_oldest c now later key value ttl oldest rest h order full new live ok fresh =
    let entry : Entry = record { expires_at = deadline now ttl; value = value } in
    rw
      (
        set_lem c now later key value ttl h ok,
        without_absent str_dec key c.storage new,
        append_live later (key, entry) c.storage live fresh,
        order,
      )
      (ground (
        arith,
        length-append rest ((key, entry) ∷ []),
        pop_first c.max_entries (key, entry) oldest rest,
      ))
