-- ===== src/Scheduler/Fetch.antt =====
-- Fetching the listings of a group: `_page_reaches_since` and `_fetch_group_sample` of
-- scheduler/collector.py. The client's answers are an argument. Times are microseconds.
pub mod Window
use rafuk.Base.{
  ℕ, zero, suc, ◌+◌, ◌-◌, String, Bool, true, false, not, ◌&&◌, ◌||◌, Option, none, some, List, [],
  ◌∷◌, ◌++◌, ite, str_dec, leb, ltb, min, max, has, any, length, if◌then◌else◌, ◌==◌,
}
use rafuk.Base.Int.{ℤ, pos_part}
use rafuk.Base.Time.{minutes}
use rafuk.Json.{Value}
use rafuk.Market.TextLib.{TextLib}
use rafuk.Market.Ad.{Ad, listing_ad_id}
use rafuk.Market.Query.{apply_search_mode}
use rafuk.Market.Params.{parse_list_time}
use rafuk.Kufar.Payload.{extract_total, extract_next_cursor}
use rafuk.Scheduler.Groups.{TrackerGroup}

-- `MAX_PAGES_PER_GROUP`, `DEEP_SCAN_MAX_PAGES`, `LIST_TIME_SLACK_MINUTES`
abbrev pub max_pages_per_group : ℕ
max_pages_per_group = 3

abbrev pub deep_scan_max_pages : ℕ
deep_scan_max_pages = 10

abbrev pub list_time_slack_minutes : ℕ
list_time_slack_minutes = 5

-- An answer of Kufar, and the listings that `normalize_ads` makes of it.
pub record Page : Type 0 where
  pub payload : Value
  pub raw_ads : List Ad

-- The variables of the loop, with the ids of the page of now.
pub record Scan : Type 0 where
  pub ads : List Ad
  pub seen_ids : List ℕ
  pub page_ids : List ℕ
  pub silent_ids : List ℕ
  pub kufar_total : Option ℤ
  pub pages : ℕ
  pub in_window : Bool

pub record FetchedSample : Type 0 where
  pub ads : List Ad
  pub total_results : ℕ
  pub pages : ℕ
  pub silent_ad_ids : List ℕ

unfoldable pub first_scan : Scan
first_scan = record {
  ads = [];
  seen_ids = [];
  page_ids = [];
  silent_ids = [];
  kufar_total = none;
  pages = 0;
  in_window = true;
}

earlier : Option ℕ → Option ℕ → Option ℕ
earlier none b = b
earlier (some a) none = some a
earlier (some a) (some b) = some (min a b)

-- `min(parsed)`
oldest : TextLib → List Ad → Option ℕ
unfolding earlier parse_list_time
oldest lib [] = none
oldest lib (ad ∷ ads) = earlier (parse_list_time lib ad.list_time) (oldest lib ads)

-- `_page_reaches_since`
unfoldable pub page_reaches_since : TextLib → List Ad → Option ℕ → Bool
unfolding oldest
page_reaches_since lib raw_ads none = false
page_reaches_since lib raw_ads (some since) = elim (oldest lib raw_ads) [
  | none ↦ false
  | some time ↦ leb since (time + minutes list_time_slack_minutes)
]

-- `for ad in page_ads`
unfoldable pub take_ads : List Ad → Scan → Scan
take_ads [] s = s
take_ads (ad ∷ ads) s =
    let id = listing_ad_id ad in
    let taken = record s {
      ads = s.ads ++ ad ∷ [];
      seen_ids = id ∷ s.seen_ids;
      page_ids = s.page_ids ++ id ∷ [];
    } in
    take_ads ads (if id == 0 then s else if has id s.seen_ids then s else taken)

-- `kufar_total`, which the first page that has one sets
total_of : TextLib → Option ℤ → Value → Option ℤ
total_of lib none payload = extract_total lib payload
total_of lib (some total) payload = some total

-- `pages += 1`, the total, and `page_ids = []`
unfoldable pub count_page : TextLib → Page → Scan → Scan
unfolding total_of
count_page lib page s = record s {
  pages = suc s.pages;
  kufar_total = total_of lib s.kufar_total page.payload;
  page_ids = [];
}

-- `if not cursor: break`
unfoldable pub turn : Option String → (Option String → Scan → Option Scan) → Scan → Option Scan
turn none rest s = some s
turn (some cursor) rest s = rest (some cursor) s

-- `max_pages`
unfoldable pub max_pages : Bool → ℕ
max_pages deep = if deep then max deep_scan_max_pages max_pages_per_group else max_pages_per_group

unfoldable pub total_results : TrackerGroup → Scan → ℕ
total_results group s = if group.strict_mode then length s.ads else elim s.kufar_total [
  | none ↦ length s.ads
  | some total ↦ max (pos_part total) (length s.ads)
]

unfoldable pub sample_of : TrackerGroup → Option Scan → Option FetchedSample
unfolding total_results
sample_of group none = none
sample_of group (some s) = some record {
  ads = s.ads;
  total_results = total_results group s;
  pages = s.pages;
  silent_ad_ids = s.silent_ids;
}

module _ (lib : TextLib) (lookup_known : List ℕ → List ℕ) (since : Option ℕ) where
  -- `has_unknown`
  has_unknown : List ℕ → Bool
  has_unknown page_ids = any (λ id. not (has id (lookup_known page_ids))) page_ids

  -- What follows the listings of a page: the end of the window, or the silent listings.
  unfoldable pub close_page : List Ad → Scan → Scan
  unfolding has_unknown page_reaches_since
  close_page raw_ads s =
      if s.in_window
      then record s {
        in_window =
            ltb s.pages max_pages_per_group
            && (has_unknown s.page_ids || page_reaches_since lib raw_ads since);
      }
      else record s { silent_ids = s.silent_ids ++ s.page_ids }

  -- The body of the loop up to `in_window`.
  unfoldable pub read_page : TrackerGroup → Page → Scan → Scan
  unfolding take_ads count_page close_page
  read_page group page s =
      let page_ads = apply_search_mode lib page.raw_ads group.query group.strict_mode in
      close_page page.raw_ads (take_ads page_ads (count_page lib page s))

  -- The body of the loop behind the answer, which is `none` if the client raises; the result is `none`
  -- where the exception leaves the loop.
  unfoldable pub after_reply :
      TrackerGroup → Bool → Option Page → (Option String → Scan → Option Scan) → Scan → Option Scan
  unfolding read_page turn
  after_reply group deep none rest s = if s.in_window then none else some s
  after_reply group deep (some page) rest s =
      let next = read_page group page s in
      if not next.in_window && not deep
      then some next
      else turn (extract_next_cursor lib page.payload) rest next

  -- The loop, with the pages that it may still ask for. The client answers for a page and a cursor.
  unfoldable pub fetch_pages :
      TrackerGroup
      → Bool
      → (ℕ → Option String → Option Page)
      → ℕ
      → Option String
      → Scan
      → Option Scan
  unfolding after_reply
  fetch_pages group deep client zero cursor s = some s
  fetch_pages group deep client (suc left) cursor s =
      after_reply group deep (client s.pages cursor) (fetch_pages group deep client left) s

  -- `_fetch_group_sample`
  unfoldable pub fetch_group_sample :
      TrackerGroup → Bool → (ℕ → Option String → Option Page) → Option FetchedSample
  unfolding sample_of fetch_pages max_pages first_scan
  fetch_group_sample group deep client =
      sample_of group (fetch_pages group deep client (max_pages deep) none first_scan)
