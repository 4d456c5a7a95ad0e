-- ===== src/Cache/Memory/Tests.antt =====
-- Concrete runs of the memory cache.
use rafuk.Base.{ℕ, String, ◌≡◌, refl, Option, none, some, List, [], ◌∷◌, keep, str_dec, arith}
use rafuk.Base.Int.{pos, negsuc}
use rafuk.Base.OrderedDict.{find, without, assign, move_to_end}
use rafuk.Base.OrderedDict.Deletion.{keys_where, without_all}
use rafuk.Cache.Memory.{MemoryCache, Entry, init, get, set}
use rafuk.Cache.Memory.Laws.{IsValid, get-set}
use rafuk.Cache.Memory.Recency.{Call, get_at, set_at, run, run-IsValid}

-- One line that opens the cache and the dictionary below it.
program : Unit {0}
unfolding init get set find without assign move_to_end keys_where without_all str_dec run keep
program = tt

abbrev script : List Call
script = set_at 0 0 "a" "1" (some (pos 5)) ∷ set_at 1 1 "b" "2" none ∷ get_at 2 "a" ∷ []

abbrev full : MemoryCache
full = run script (init 2)

abbrev entry : String → Option ℕ → String × Entry
entry value expires_at = (value, record { expires_at = expires_at; value = value })

storage_full :
    full.storage
    ≡ ("b", record { expires_at = none; value = "2" })
      ∷ ("a", record { expires_at = some 5_000_000; value = "1" })
      ∷ []
unfolding program
storage_full = refl

-- A negative time to live removes the entry.
set_negative :
    (set full 3 3 "b" "9" (some (negsuc 0))).storage
    ≡ ("a", record { expires_at = some 5_000_000; value = "1" }) ∷ []
unfolding program
set_negative = refl

run-IsValid_example : IsValid full
run-IsValid_example = run-IsValid script 2

get-set_example : (get (set full 7 8 "c" "3" (some (pos 1))) 1_000_007 "c").1 ≡ none
get-set_example =
    get-set full 7 8 1_000_007 "c" "3" (pos 1) run-IsValid_example (omega arith) (omega arith)

half : MemoryCache
half = run script (init 3)
