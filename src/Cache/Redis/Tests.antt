-- ===== src/Cache/Redis/Tests.antt =====
-- A run of the Redis cache through an outage.
use rafuk.Base.{◌≡◌, some, none, [], arith, false}
use rafuk.Base.Int.{pos}
use rafuk.Cache.Memory
use rafuk.Cache.Memory.Recency.{run, run-IsValid}
use rafuk.Cache.Redis.{RedisCache, get, set, get-set_outage}

abbrev fresh : RedisCache
fresh = record {
  fallback = run [] (Memory.init 4);
  fallback_seconds = 30_000_000;
  fallback_until = 0;
}

get-set_outage_example :
    (get (set fresh 10 11 12 13 "k" "v" (some (pos 60)) false) 100 101 102 "k" (some none)).1
    ≡ some "v"
get-set_outage_example =
    get-set_outage fresh 10 11 12 13 100 101 102 "k" "v" (pos 60) (some none) (run-IsValid [] 4)
      (omega arith) (omega arith) (omega arith)
