-- ===== src/SavedSearch/Board/Matches.antt =====
-- What stands on the board suits its search, of api/routers/saved_searches.py.
use rafuk.Base.{
  ℕ, zero, suc, ◌*◌, ◌≤◌, ◌≡◌, refl, Bool, true, false, not, arith, length, none, some, List, [],
  ◌∷◌, ◌++◌, take, keep, map, All, Bool-cases, inl, inr,
}
use rafuk.Market.TextLib.{TextLib}
use rafuk.Market.Ad.{Ad, normalize_price_byn}
use rafuk.Market.Deals.{filter_deal_ads, sort_by, insert_by}
use rafuk.Market.Deals.Sorting.{IsOrdered, IsOrdered-weaker, sort_by-IsSorted}
use rafuk.Market.Duplicates.{duplicate_counts}
use rafuk.Market.Filters.{matches_tracker_filters, is_too_dear}
use rafuk.Market.Insights.{PatternLib}
use rafuk.SavedSearch.{SavedSearch}
use rafuk.SavedSearch.Board.{
  Dataset, Opportunity, Board, filters_of, percent_bound, duplicates_in, deal_order, candidate_ads,
  opportunity_of, load_opportunities, all_items, assemble,
}

module _ {A : Type 0} (P : A → Type 0) where
  All-take : (n : ℕ) (xs : List A) → All P xs → All P (take n xs)
  All-take zero xs h = tt
  All-take (suc n) [] h = tt
  All-take (suc n) (x ∷ xs) (here, h) = (here, All-take n xs h)

  All-append : (xs ys : List A) → All P xs → All P ys → All P (xs ++ ys)
  All-append [] ys h k = k
  All-append (x ∷ xs) ys (here, h) k = (here, All-append xs ys h k)

  All-insert_by :
      (before : A → A → Bool) (x : A) (xs : List A) → P x → All P xs → All P (insert_by before x xs)
  unfolding insert_by
  All-insert_by before x [] p h = (p, tt)
  All-insert_by before x (y ∷ ys) p (here, h) = elim (Bool-cases (before x y)) [
    | inl e ↦ rw e (p, (here, h))
    | inr e ↦ rw e (here, All-insert_by before x ys p h)
  ]

  All-sort_by : (before : A → A → Bool) (xs : List A) → All P xs → All P (sort_by before xs)
  unfolding sort_by
  All-sort_by before [] h = tt
  All-sort_by before (x ∷ xs) (here, h) =
      All-insert_by before x (sort_by before xs) here (All-sort_by before xs h)

  All-keep : (p : A → Bool) (xs : List A) → All P xs → All (λ x. P x × (p x ≡ true)) (keep p xs)
  unfolding keep
  All-keep p [] h = tt
  All-keep p (x ∷ xs) (here, h) = elim (Bool-cases (p x)) [
    | inl e ↦ rw e ((here, e), All-keep p xs h)
    | inr e ↦ rw e (All-keep p xs h)
  ]

take-IsOrdered :
    {A : Type 0} (R : A → A → Type 0) (n : ℕ) (xs : List A)
    → IsOrdered R xs
    → IsOrdered R (take n xs)
take-IsOrdered R zero xs h = tt
take-IsOrdered R (suc n) [] h = tt
take-IsOrdered R (suc n) (x ∷ xs) (all, h) =
    (All-take (λ y. R x y) n xs all, take-IsOrdered R n xs h)

length-take : {A : Type 0} (n : ℕ) (xs : List A) → length (take n xs) ≤ n
length-take zero xs = omega arith
length-take (suc n) [] = omega arith
length-take (suc n) (x ∷ xs) = omega (arith, length-take n xs)

-- The better score first.
deal_order_first : (x y : Opportunity) → deal_order x y ≡ true → y.deal_score ≤ x.deal_score
unfolding deal_order
deal_order_first x y h = ground arith

deal_order_total : (x y : Opportunity) → deal_order x y ≡ false → deal_order y x ≡ true
unfolding deal_order
deal_order_total x y h = ground arith

deal_order_trans :
    (x y z : Opportunity) → deal_order x y ≡ true → deal_order y z ≡ true → deal_order x z ≡ true
unfolding deal_order
deal_order_trans x y z h k = ground arith

All-any : {A : Type 0} (xs : List A) → All (λ x. Unit {0}) xs
All-any [] = tt
All-any (x ∷ xs) = (tt, All-any xs)

All-second : {A : Type 0} (P Q : A → Type 0) (xs : List A) → All (λ x. P x × Q x) xs → All Q xs
All-second P Q [] h = tt
All-second P Q (x ∷ xs) ((p, q), h) = (q, All-second P Q xs h)

All-map :
    {A B : Type 0} (P : A → Type 0) (Q : B → Type 0) (f : A → B) (xs : List A)
    → ((x : A) → P x → Q (f x))
    → All P xs
    → All Q (map f xs)
All-map P Q f [] h all = tt
All-map P Q f (x ∷ xs) h (here, all) = (h x here, All-map P Q f xs h all)

module _ (lib : TextLib) (patterns : PatternLib) (convert : ℕ → ℕ) (now : ℕ) where
  -- The ad passes the filters with the values that the search has for them.
  abbrev pub Passes : SavedSearch → Dataset → Ad → Type 0
  Passes s d ad =
      matches_tracker_filters lib
        (record {
          query = s.query;
          strict_mode = s.strict_mode;
          min_discount_percent = some s.target_discount_percent;
          max_price_byn = s.max_price_byn;
          seller_type = s.seller_type;
          condition = s.condition;
          region_name = s.region_name;
          config_keyword = s.config_keyword;
          exclude_duplicates = s.exclude_duplicates;
        })
        d.price_stats (duplicates_in (duplicate_counts lib d.ads) ad) ad
      ≡ true

  -- An opportunity of a search: its ad passes the search's filters, is not dearer than the limit, which is
  -- in hundredths of a kopeck, and is not a repost where reposts are left out.
  abbrev pub Suits : SavedSearch → Dataset → Opportunity → Type 0
  Suits s d o =
      (o.saved_search_id ≡ s.id)
      × Passes s d o.ad
      × ((limit price : ℕ)
          → s.max_price_byn ≡ some limit
          → normalize_price_byn o.ad.price_byn ≡ some price
          → 100 * price ≤ limit)
      × (s.exclude_duplicates ≡ true → duplicates_in (duplicate_counts lib d.ads) o.ad ≡ 0)

  Passes-cheap :
      (s : SavedSearch) (d : Dataset) (ad : Ad) (limit price : ℕ)
      → Passes s d ad
      → s.max_price_byn ≡ some limit
      → normalize_price_byn ad.price_byn ≡ some price
      → 100 * price ≤ limit
  unfolding matches_tracker_filters is_too_dear
  Passes-cheap s d ad limit price h l p = ground (arith, h, l, p)

  Passes-unique :
      (s : SavedSearch) (d : Dataset) (ad : Ad)
      → Passes s d ad
      → s.exclude_duplicates ≡ true
      → duplicates_in (duplicate_counts lib d.ads) ad ≡ 0
  unfolding matches_tracker_filters
  Passes-unique s d ad h e = ground (arith, h, e)

  candidates-Passes :
      (s : SavedSearch) (d : Dataset)
      → All (Passes s d) (candidate_ads lib patterns convert now s d)
  unfolding candidate_ads filters_of
  candidates-Passes s d =
      let deals : List Ad =
        filter_deal_ads d.ads d.price_stats.median (percent_bound s) none
          (some d.price_stats.low_cutoff) in
      let kept =
        All-keep (λ ad. Unit {0})
          (λ ad.
            matches_tracker_filters lib (filters_of s) d.price_stats
              (duplicates_in (duplicate_counts lib d.ads) ad) ad)
          deals (All-any deals) in
      All-second (λ ad. Unit {0}) (Passes s d) (candidate_ads lib patterns convert now s d) kept

  -- A saved search puts at most three opportunities on the board, the better score first, and each of them
  -- bears the id of the search; its ad passes the filters with the values of the search, is not dearer
  -- than the search's limit, and is not a repost if the search leaves those out.
  pub load_opportunities-Suits :
      (s : SavedSearch) (d : Dataset)
      → All (Suits s d) (load_opportunities lib patterns convert now s d).items
        × (length (load_opportunities lib patterns convert now s d).items ≤ 3)
        × IsOrdered
            (λ (x y : Opportunity). y.deal_score ≤ x.deal_score)
            (load_opportunities lib patterns convert now s d).items
  unfolding load_opportunities opportunity_of
  load_opportunities-Suits s d =
      let candidates : List Ad = candidate_ads lib patterns convert now s d in
      let items : List Opportunity =
        map (opportunity_of lib patterns convert now s d) (take 20 candidates) in
      (
        All-take (Suits s d) 3 (sort_by deal_order items) (
            All-sort_by (Suits s d) deal_order items (
              All-map (Passes s d) (Suits s d) (opportunity_of lib patterns convert now s d)
                (take 20 candidates)
                (λ ad h. (
                  refl,
                  h,
                  λ limit price. Passes-cheap s d ad limit price h,
                  Passes-unique s d ad h,
                ))
                (All-take (Passes s d) 20 candidates (candidates-Passes s d)))),
        length-take 3 (sort_by deal_order items),
        take-IsOrdered (λ x y. y.deal_score ≤ x.deal_score) 3 (sort_by deal_order items)
            (IsOrdered-weaker deal_order_first (sort_by deal_order items)
              (sort_by-IsSorted deal_order deal_order_total deal_order_trans items)),
      )

module _ (P : Opportunity → Type 0) where
  board_items : (boards : List Board) → All (λ b. All P b.items) boards → All P (all_items boards)
  unfolding all_items
  board_items [] h = tt
  board_items (b ∷ boards) (here, h) =
      All-append P b.items (all_items boards) here (board_items boards h)

  -- Putting the boards together shows every opportunity under one heading: the items of the answer are
  -- from markets that are not rare, the rare opportunities from those that are, and what holds of the
  -- opportunities of each board holds of both.
  pub assemble-sorts :
      (boards : List Board) (partial : Bool)
      → All (λ b. All P b.items) boards
      → All (λ o. P o × (not o.is_rare ≡ true)) (assemble boards partial).items
        × All (λ o. P o × (o.is_rare ≡ true)) (assemble boards partial).rare_opportunities
  unfolding assemble
  assemble-sorts boards partial h =
      let all = board_items boards h in
      let common : List Opportunity = keep (λ o. not o.is_rare) (all_items boards) in
      let rare : List Opportunity = keep (λ o. o.is_rare) (all_items boards) in
      (
        All-take (λ o. P o × (not o.is_rare ≡ true)) 12 (sort_by deal_order common)
            (All-sort_by (λ o. P o × (not o.is_rare ≡ true)) deal_order common
              (All-keep P (λ o. not o.is_rare) (all_items boards) all)),
        All-take (λ o. P o × (o.is_rare ≡ true)) 4 (sort_by deal_order rare)
            (All-sort_by (λ o. P o × (o.is_rare ≡ true)) deal_order rare
              (All-keep P (λ o. o.is_rare) (all_items boards) all)),
      )
