-- ===== src/Cache/Redis.antt =====
-- `RedisCache` of api/services/cache.py. What the Redis client answers is an argument of each call:
-- `none` is a `RedisError`.
mod Tests
use rafuk.Base.{
  ℕ, ◌+◌, ◌<◌, String, Bool, true, false, ◌≡◌, Option, none, some, arith, ltb, if◌then◌else◌,
}
use rafuk.Base.Int.{ℤ, pos_part}
use rafuk.Base.Time.{seconds}
use rafuk.Cache.Memory
use rafuk.Cache.Memory.{MemoryCache}
use rafuk.Cache.Memory.Laws.{IsValid, get-set}

pub record RedisCache : Type 0 where
  pub fallback : MemoryCache
  pub fallback_seconds : ℕ
  pub fallback_until : ℕ

pub using_fallback : RedisCache → ℕ → Bool
using_fallback c now = ltb now c.fallback_until

pub mark_failure : RedisCache → ℕ → RedisCache
mark_failure c now = record c { fallback_until = now + c.fallback_seconds }

from_fallback : RedisCache → ℕ → String → RedisCache × Option String
from_fallback c inner key =
    let (memory, value) = Memory.get c.fallback inner key in (record c { fallback = memory }, value)

-- `now`, `failed` and `inner` are the readings of the clock by `using_fallback`, by `_mark_failure`
-- and by the in-process cache.
pub get : RedisCache → ℕ → ℕ → ℕ → String → Option (Option String) → RedisCache × Option String
unfolding using_fallback mark_failure from_fallback
get c now failed inner key reply =
    if using_fallback c now then from_fallback c inner key else elim reply [
      | some value ↦ (c, value)
      | none ↦ from_fallback (mark_failure c failed) inner key
    ]

to_fallback : RedisCache → ℕ → ℕ → String → String → Option ℤ → RedisCache
to_fallback c inner later key value ttl = record c {
  fallback = Memory.set c.fallback inner later key value ttl;
}

-- `answered` says whether the client stored the value.
pub set : RedisCache → ℕ → ℕ → ℕ → ℕ → String → String → Option ℤ → Bool → RedisCache
unfolding using_fallback mark_failure to_fallback
set c now failed inner later key value ttl answered =
    if using_fallback c now
    then to_fallback c inner later key value ttl
    else if answered
    then c
    else to_fallback (mark_failure c failed) inner later key value ttl

-- A value that is written when Redis fails, or while the cache already serves from memory, is read back
-- by a read of its key that follows with no call between, as long as the cache serves from memory (until
-- the end of the outage that is open, or that the write opens) and the value lives, whatever Redis would
-- answer; after its time to live the read finds nothing.
pub get-set_outage :
    (c : RedisCache) (now failed inner later now' failed' inner' : ℕ) (key value : String) (ttl : ℤ)
    (reply : Option (Option String))
    → IsValid c.fallback
    → 0 < pos_part ttl
    → later < inner + seconds (pos_part ttl)
    → now' < (if ltb now c.fallback_until then c.fallback_until else failed + c.fallback_seconds)
    → (get
        (set c now failed inner later key value (some ttl) false)
        now'
        failed'
        inner'
        key
        reply).1
      ≡ (if ltb inner' (inner + seconds (pos_part ttl)) then some value else none)
unfolding get set
get-set_outage c now failed inner later now' failed' inner' key value ttl reply h p q within =
    ground (arith, get-set c.fallback inner later inner' key value ttl)
