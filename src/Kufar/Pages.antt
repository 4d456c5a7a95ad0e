-- ===== src/Kufar/Pages.antt =====
-- `KufarClient.search_all_ads`: the loop over the pages. Times are microseconds.
pub mod Loop
use rafuk.Base.{
  ℕ, zero, suc, ◌+◌, String, Bool, true, false, ◌&&◌, ◌||◌, Option, none, some, List, [], ◌∷◌, ◌++◌,
  ite, str_dec, leb, length, if◌then◌else◌,
}
use rafuk.Base.Int.{ℤ, pos, negsuc, ℤ-discrete}
use rafuk.Json.{Value}
use rafuk.Market.TextLib.{TextLib}
use rafuk.Kufar.Payload.{ad_id_key, page_ads, extract_total, extract_next_cursor}
use rafuk.Kufar.Retry.{KufarError, deadline_passed, Result, ok, err}

-- `ad_id in seen_ids`, `cursor in seen_cursors`
unfoldable pub has_id : ℤ → List ℤ → Bool
has_id k [] = false
has_id k (j ∷ ids) = ite (ℤ-discrete j k) true (has_id k ids)

unfoldable pub has_cursor : String → List String → Bool
has_cursor c [] = false
has_cursor c (d ∷ cursors) = ite (str_dec d c) true (has_cursor c cursors)

-- What a request for a page ends in: `asyncio.wait_for` gives up, `search` raises, or there is a page.
pub data Reply : Type 0 where
  timed_out : Reply
  failed : KufarError → Reply
  page : Value → Reply

-- One round: the readings of the clock by the loop and by `_search_before`, and the reply.
pub record Round : Type 0 where
  pub checked : ℕ
  pub started : ℕ
  pub reply : Reply

-- The ads, the ids that were seen, and how many of them the page has added.
pub record Pile : Type 0 where
  pub ads : List Value
  pub seen_ids : List ℤ
  pub added : ℕ

pub record Collected : Type 0 where
  pub ads : List Value
  pub total : Option ℤ
  pub fetched_count : ℕ
  pub truncated : Bool
  pub pages_fetched : ℕ

-- `deadline is not None and time >= deadline`
unfoldable pub is_over : Option ℕ → ℕ → Bool
is_over none time = false
is_over (some deadline) time = leb deadline time

-- `_search_before`
unfoldable pub search_before : Option ℕ → Round → Reply
unfolding is_over
search_before deadline r = if is_over deadline r.started then timed_out else r.reply

-- `total is not None and len(ads) >= total`
unfoldable pub is_complete : Option ℤ → ℕ → Bool
is_complete none n = false
is_complete (some (pos total)) n = leb total n
is_complete (some (negsuc total)) n = true

-- `max_pages is not None and pages_fetched >= max_pages`
unfoldable pub is_last : Option ℕ → ℕ → Bool
is_last none pages = false
is_last (some max_pages) pages = leb max_pages pages

module _ (lib : TextLib) where
  keep_ad : Value → Option ℤ → Pile → Pile
  keep_ad ad none p = record p { ads = p.ads ++ ad ∷ [] }
  keep_ad ad (some id) p =
      if has_id id p.seen_ids
      then p
      else record { ads = p.ads ++ ad ∷ []; seen_ids = id ∷ p.seen_ids; added = suc p.added }

  unfoldable pub add_ads : List Value → Pile → Pile
  unfolding keep_ad has_id ad_id_key
  add_ads [] p = p
  add_ads (ad ∷ ads) p = add_ads ads (keep_ad ad (ad_id_key lib ad) p)

  -- `add_page`
  unfoldable pub add_page : Value → List Value → List ℤ → Pile
  unfolding add_ads page_ads
  add_page p ads seen_ids =
      add_ads (page_ads p) (record { ads = ads; seen_ids = seen_ids; added = 0 })

  module _ (total : Option ℤ) (max_pages deadline : Option ℕ) (script : ℕ → Round) where
    finish : Pile → Bool → ℕ → Option Collected
    finish p truncated pages = some (record {
      ads = p.ads;
      total = total;
      fetched_count = length p.ads;
      truncated = truncated;
      pages_fetched = pages;
    })

    -- A page that adds nothing ends the loop; otherwise `go` follows the cursor of the page.
    add_or_stop : Pile → ℕ → (Pile → Option Collected) → ℕ → Option Collected
    unfolding finish
    add_or_stop q pages go zero = finish q false pages
    add_or_stop q pages go (suc added) = go q

    turn_page : Reply → Pile → ℕ → (Value → Pile → Option Collected) → Option Collected
    unfolding finish add_page add_or_stop
    turn_page timed_out p pages go = finish p true pages
    turn_page (failed e) p pages go = finish p true pages
    turn_page (page next) p pages go =
        let q = add_page next p.ads p.seen_ids in add_or_stop q (suc pages) (go next) q.added

    -- The loop after `pages` pages, with fuel; `none` means that the fuel ran out.
    unfoldable pub follow : ℕ → Option String → Pile → List String → ℕ → Option Collected
    unfolding finish is_complete has_cursor is_last search_before turn_page extract_next_cursor
    follow zero cursor p seen_cursors pages = none
    follow (suc fuel) none p seen_cursors pages = finish p false pages
    follow (suc fuel) (some cursor) p seen_cursors pages =
        let go = λ (next : Value) (q : Pile).
          follow fuel (extract_next_cursor lib next) q (cursor ∷ seen_cursors) (suc pages) in
        if is_complete total (length p.ads)
        then finish p false pages
        else if has_cursor cursor seen_cursors
        then finish p false pages
        else if is_last max_pages pages
        then finish p true pages
        else if is_over deadline (script pages).checked
        then finish p true pages
        else turn_page (search_before deadline (script pages)) p pages go

  -- What follows the first page.
  after_first : Option ℕ → Option ℕ → (ℕ → Round) → ℕ → Value → Option Collected
  unfolding follow
  after_first max_pages deadline script fuel first =
      follow (extract_total lib first) max_pages deadline script fuel
        (extract_next_cursor lib first) (add_page first [] []) [] 1

  unfoldable pub search_all_ads : Option ℕ → Option ℕ → (ℕ → Round) → ℕ → Result (Option Collected)
  unfolding search_before after_first
  search_all_ads max_pages deadline script fuel = elim (search_before deadline (script 0)) [
    | timed_out ↦ err deadline_passed
    | failed e ↦ err e
    | page first ↦ ok (after_first max_pages deadline script fuel first)
  ]
