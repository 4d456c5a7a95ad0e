-- ===== src/Scheduler/Fetch/Window.antt =====
-- What a fetched sample holds, of scheduler/collector.py.
use rafuk.Base.{
  ℕ, zero, suc, ◌+◌, ◌≤◌, ◌==◌, String, Bool, true, false, not, ◌&&◌, ◌≡◌, refl, ◌∙◌, Option, none,
  some, List, [], ◌∷◌, ◌++◌, has, length, if◌then◌else◌, arith, Bool-cases, Option-cases, inl, inr,
  has-append,
}
use rafuk.Market.TextLib.{TextLib}
use rafuk.Market.Ad.{Ad, listing_ad_id}
use rafuk.Market.Query.{apply_search_mode}
use rafuk.Kufar.Payload.{extract_next_cursor}
use rafuk.Scheduler.Groups.{TrackerGroup}
use rafuk.Scheduler.Fetch.{
  Page, Scan, FetchedSample, first_scan, take_ads, count_page, close_page, read_page, turn,
  after_reply, fetch_pages, max_pages, fetch_group_sample, sample_of, total_results,
}

-- How often a listing is in the sample.
unfoldable pub occurs : ℕ → List Ad → ℕ
occurs n [] = 0
occurs n (ad ∷ ads) = if listing_ad_id ad == n then suc (occurs n ads) else occurs n ads

occurs-snoc :
    (n : ℕ) (ads : List Ad) (ad : Ad)
    → occurs n (ads ++ ad ∷ [])
      ≡ (if listing_ad_id ad == n then suc (occurs n ads) else occurs n ads)
unfolding occurs
occurs-snoc n [] ad = refl
occurs-snoc n (a ∷ ads) ad = ground (arith, occurs-snoc n ads ad)

-- A listing that was seen is in the sample, once, and only those are silent.
record Fits (n : ℕ) (s : Scan) : Type 0 where
  pub seen : occurs n s.ads ≡ (if has n s.seen_ids then 1 else 0)
  pub paged : has n s.page_ids ≡ true → has n s.seen_ids ≡ true
  pub silent : has n s.silent_ids ≡ true → has n s.seen_ids ≡ true
  pub real : has 0 s.seen_ids ≡ false

take_one :
    (n : ℕ) (ad : Ad) (s : Scan)
    → listing_ad_id ad == 0 ≡ false
    → has (listing_ad_id ad) s.seen_ids ≡ false
    → Fits n s
    → Fits n (record s {
      ads = s.ads ++ ad ∷ [];
      seen_ids = listing_ad_id ad ∷ s.seen_ids;
      page_ids = s.page_ids ++ listing_ad_id ad ∷ [];
    })
take_one n ad s z e h = record {
  seen = ground (arith, occurs-snoc n s.ads ad, h.seen, e);
  paged = ground (arith, has-append n s.page_ids (listing_ad_id ad ∷ []), h.paged);
  silent = ground (arith, h.silent);
  real = ground (arith, h.real);
}

take_ads-Fits : (n : ℕ) (ads : List Ad) (s : Scan) → Fits n s → Fits n (take_ads ads s)
unfolding take_ads
take_ads-Fits n [] s h = h
take_ads-Fits n (ad ∷ ads) s h = elim (Bool-cases (listing_ad_id ad == 0)) [
  | inl none_of ↦ rw none_of (take_ads-Fits n ads s h)
  | inr real ↦ elim (Bool-cases (has (listing_ad_id ad) s.seen_ids)) [
    | inl old ↦ rw (real, old) (take_ads-Fits n ads s h)
    | inr new ↦ rw (real, new) (take_ads-Fits n ads _ (take_one n ad s real new h))
  ]
]

-- What the listings of a page leave as it is.
take_ads-keeps :
    (ads : List Ad) (s : Scan)
    → ((take_ads ads s).in_window ≡ s.in_window)
      × ((take_ads ads s).silent_ids ≡ s.silent_ids)
      × ((take_ads ads s).pages ≡ s.pages)
unfolding take_ads
take_ads-keeps [] s = (refl, refl, refl)
take_ads-keeps (ad ∷ ads) s = elim (Bool-cases (listing_ad_id ad == 0)) [
  | inl none_of ↦ rw (none_of, take_ads) (take_ads-keeps ads s)
  | inr real ↦ elim (Bool-cases (has (listing_ad_id ad) s.seen_ids)) [
    | inl old ↦ rw (real, old, take_ads) (take_ads-keeps ads s)
    | inr new ↦ rw (real, new, take_ads) (take_ads-keeps ads _)
  ]
]

-- What is to be shown of the end of the loop, unless an exception leaves it.
abbrev IsSound : ℕ → ℕ → Bool → Option Scan → Type 0
IsSound n limit deep none = Unit
IsSound n limit deep (some r) = Fits n r × (r.pages ≤ limit) × (deep ≡ false → r.silent_ids ≡ [])

-- Without a deep scan, the loop goes on only in the window.
abbrev IsQuiet : Bool → Scan → Type 0
IsQuiet deep s = deep ≡ false → (s.in_window ≡ true) × (s.silent_ids ≡ [])

raised-IsSound :
    (n limit : ℕ) (deep inside : Bool) (s : Scan)
    → IsSound n limit deep (some s)
    → IsSound n limit deep (if inside then none else some s)
raised-IsSound n limit deep true s h = tt
raised-IsSound n limit deep false s h = h

module _ (lib : TextLib) (lookup : List ℕ → List ℕ) (since : Option ℕ) where
  close_page-Fits :
      (n : ℕ) (raw : List Ad) (s : Scan) → Fits n s → Fits n (close_page lib lookup since raw s)
  unfolding close_page
  close_page-Fits n raw s h = elim (Bool-cases s.in_window) [
    | inl inside ↦
        rw inside (record { seen = h.seen; paged = h.paged; silent = h.silent; real = h.real })
    | inr outside ↦ rw outside (record {
      seen = h.seen;
      paged = h.paged;
      silent = ground (arith, has-append n s.silent_ids s.page_ids, h.silent, h.paged);
      real = h.real;
    })
  ]

  close_page-keeps :
      (raw : List Ad) (s : Scan)
      → ((close_page lib lookup since raw s).pages ≡ s.pages)
        × (s.in_window ≡ true → (close_page lib lookup since raw s).silent_ids ≡ s.silent_ids)
  unfolding close_page
  close_page-keeps raw s = elim (Bool-cases s.in_window) [
    | inl inside ↦ rw inside (refl, λ e. refl)
    | inr outside ↦ rw outside (refl, λ e. absurd (ground (arith, e)))
  ]

  module _ (group : TrackerGroup) where
    read_page-Fits :
        (n : ℕ) (page : Page) (s : Scan)
        → Fits n s
        → Fits n (read_page lib lookup since group page s)
    unfolding read_page count_page
    read_page-Fits n page s h =
        let page_ads = apply_search_mode lib page.raw_ads group.query group.strict_mode in
        close_page-Fits n page.raw_ads _ (
          take_ads-Fits n page_ads (count_page lib page s) record {
            seen = h.seen;
            paged = λ e. absurd (ground (arith, e));
            silent = h.silent;
            real = h.real;
          })

    read_page-keeps :
        (page : Page) (s : Scan)
        → ((read_page lib lookup since group page s).pages ≡ suc s.pages)
          × (s.in_window ≡ true
              → (read_page lib lookup since group page s).silent_ids ≡ s.silent_ids)
    unfolding read_page count_page
    read_page-keeps page s =
        let page_ads = apply_search_mode lib page.raw_ads group.query group.strict_mode in
        let (inside, silent, pages) = take_ads-keeps page_ads (count_page lib page s) in
        let (same, kept) =
          close_page-keeps page.raw_ads (take_ads page_ads (count_page lib page s)) in
        (same ∙ pages, λ e. kept (inside ∙ e) ∙ silent)

    after_reply-IsSound :
        (deep : Bool) (n limit : ℕ) (reply : Option Page)
        (rest : Option String → Scan → Option Scan) (s : Scan)
        → Fits n s
        → IsQuiet deep s
        → suc s.pages ≤ limit
        → ((c : Option String) (r : Scan)
            → Fits n r
            → IsQuiet deep r
            → r.pages ≡ suc s.pages
            → IsSound n limit deep (rest c r))
        → IsSound n limit deep (after_reply lib lookup since group deep reply rest s)
    unfolding after_reply turn
    after_reply-IsSound deep n limit none rest s h q l k =
        raised-IsSound n limit deep s.in_window s (h, omega arith, λ e. (q e).1)
    after_reply-IsSound deep n limit (some page) rest s h q l k =
        let next = read_page lib lookup since group page s in
        let fits : Fits n next = read_page-Fits n page s h in
        let (pages, silent) = read_page-keeps page s in
        let quiet : deep ≡ false → next.silent_ids ≡ [] = λ e. silent (q e).0 ∙ (q e).1 in
        elim (Bool-cases (not next.in_window && not deep)) [
          | inl over ↦ rw over (fits, omega (arith, pages), quiet)
          | inr on ↦ rw on (
              next_page (extract_next_cursor lib page.payload) next fits pages quiet
                (goes_on next.in_window deep on))
        ]
      where
        goes_on :
            (inside deep : Bool) → (not inside && not deep) ≡ false → deep ≡ false → inside ≡ true
        goes_on inside deep on e = ground arith

        next_page :
            (cursor : Option String) (next : Scan)
            → Fits n next
            → next.pages ≡ suc s.pages
            → (deep ≡ false → next.silent_ids ≡ [])
            → (deep ≡ false → next.in_window ≡ true)
            → IsSound n limit deep (turn cursor rest next)
        next_page none next fits pages quiet on = (fits, omega (arith, pages), quiet)
        next_page (some cursor) next fits pages quiet on =
            k (some cursor) next fits (λ e. (on e, quiet e)) pages

    module _ (deep : Bool) (client : ℕ → Option String → Option Page) where
      -- Every page that is read leaves the sample well formed, and costs one of those that are left.
      fetch_pages-IsSound :
          (n limit left : ℕ) (cursor : Option String) (s : Scan)
          → Fits n s
          → IsQuiet deep s
          → s.pages + left ≤ limit
          → IsSound n limit deep (fetch_pages lib lookup since group deep client left cursor s)
      unfolding fetch_pages
      fetch_pages-IsSound n limit zero cursor s h q l = (h, omega arith, λ e. (q e).1)
      fetch_pages-IsSound n limit (suc left) cursor s h q l =
          after_reply-IsSound deep n limit (client s.pages cursor)
            (fetch_pages lib lookup since group deep client left) s h q (omega arith)
            (λ c r fits quiet pages.
              fetch_pages-IsSound n limit left c r fits quiet (omega (arith, pages)))

-- What a sample promises of the listing `n`, unless the exception of a request leaves the function.
abbrev pub IsSample : ℕ → ℕ → Bool → Option FetchedSample → Type 0
IsSample n limit deep none = Unit
IsSample n limit deep (some sample) =
    (occurs n sample.ads ≤ 1)
    × (occurs 0 sample.ads ≡ 0)
    × (has n sample.silent_ad_ids ≡ true → occurs n sample.ads ≡ 1)
    × (deep ≡ false → sample.silent_ad_ids ≡ [])
    × (sample.pages ≤ limit)
    × (length sample.ads ≤ sample.total_results)

total_results-le : (group : TrackerGroup) (s : Scan) → length s.ads ≤ total_results group s
unfolding total_results
total_results-le group s = elim (Option-cases s.kufar_total) [
  | inl unknown ↦ rw unknown (ground arith)
  | inr (total, e) ↦ rw e (ground arith)
]

sample_of-IsSample :
    (n limit : ℕ) (deep : Bool) (group : TrackerGroup) (o : Option Scan)
    → IsSound n limit deep o
    → IsSound 0 limit deep o
    → IsSample n limit deep (sample_of group o)
unfolding sample_of
sample_of-IsSample n limit deep group none h z = tt
sample_of-IsSample n limit deep group (some r) (h, l, q) (z, _, _) = (
  ground (arith, h.seen),
  ground (arith, z.seen, z.real),
  λ e. ground (arith, h.silent, h.seen, e),
  q,
  l,
  total_results-le group r,
)

first_scan-Fits : (n : ℕ) → Fits n first_scan
unfolding first_scan occurs
first_scan-Fits n = record { seen = refl; paged = λ e. e; silent = λ e. e; real = refl }

max_pages-le : (deep : Bool) → 0 + max_pages deep ≤ (if deep then 10 else 3)
unfolding max_pages
max_pages-le true = omega arith
max_pages-le false = omega arith

-- The sample of a group, unless an exception leaves the function: each listing stands once, and has an
-- id; a silent listing is one of the sample, and there is none without a deep scan; the pages are at most
-- three, or ten in a deep scan; and the total is not less than the listings.
pub fetch_group_sample-IsSample :
    (lib : TextLib) (lookup : List ℕ → List ℕ) (since : Option ℕ) (group : TrackerGroup)
    (deep : Bool) (client : ℕ → Option String → Option Page) (n : ℕ)
    → IsSample n
        (if deep then 10 else 3)
        deep
        (fetch_group_sample lib lookup since group deep client)
unfolding fetch_group_sample first_scan max_pages occurs
fetch_group_sample-IsSample lib lookup since group deep client n =
    let limit = if deep then 10 else 3 in
    let ends = λ (m : ℕ).
      fetch_pages-IsSound lib lookup since group deep client m limit (max_pages deep) none
        first_scan (first_scan-Fits m) (λ e. (refl, refl)) (max_pages-le deep) in
    sample_of-IsSample n limit deep group _ (ends n) (ends 0)
