-- ===== src/Kufar/Pages/Loop.antt =====
-- The loop over the pages ends, and what it collects.
use rafuk.Base.{ℕ, suc, ◌≤◌, Bool, true, false, ◌≡◌, Option, none, some, List, [], ◌∷◌, ite, length}
use rafuk.Base.Int.{ℤ, ℤ-discrete}
use rafuk.Json.{Value}
use rafuk.Market.TextLib.{TextLib}
use rafuk.Kufar.Payload.{ad_id_key}
use rafuk.Kufar.Retry.{deadline_passed, Result, ok, err}
use rafuk.Kufar.Pages.{has_id, Reply, timed_out, failed, page, Collected}

-- How many of the ads have an id.
unfoldable pub count_id : TextLib → ℤ → List Value → ℕ
count_id lib k [] = 0
count_id lib k (ad ∷ ads) = elim (ad_id_key lib ad) [
  | none ↦ count_id lib k ads
  | some j ↦ ite (ℤ-discrete j k) (suc (count_id lib k ads)) (count_id lib k ads)
]

abbrev one_if : Bool → ℕ
one_if true = 1
one_if false = 0

module _ (lib : TextLib) where
  -- Every id that was seen stands once, and no other.
  abbrev IsFresh : List Value → List ℤ → Type 0
  IsFresh ads seen_ids = (k : ℤ) → count_id lib k ads ≡ one_if (has_id k seen_ids)

  -- The loop has ended, after at most so many pages, with no id twice.
  unfoldable pub HasEnded : ℕ → Option Collected → Type 0
  HasEnded limit none = ⊥
  HasEnded limit (some c) =
      (c.pages_fetched ≤ limit)
      × ((k : ℤ) → count_id lib k c.ads ≤ 1)
      × (c.fetched_count ≡ length c.ads)

  -- What the first reply makes of the whole search.
  abbrev pub StartsWith : ℕ → Reply → Result (Option Collected) → Type 0
  StartsWith limit timed_out r = r ≡ err deadline_passed
  StartsWith limit (failed e) r = r ≡ err e
  StartsWith limit (page first) r = (c : Option Collected) × (r ≡ ok c) × HasEnded limit c
