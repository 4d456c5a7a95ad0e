-- ===== src/History/Sync/Report.antt =====
-- What a sync reports: exactly the unknown listings, and exactly the significant price drops.
use rafuk.Base.{
  ℕ, String, Bool, true, false, not, ◌&&◌, ◌||◌, ◌≡◌, refl, Option, none, some, List, [], ◌∷◌, ◌++◌,
  arith, ltb, if◌then◌else◌, ◌==◌, has, map, inl, inr, Bool-cases, Option-cases,
}
use rafuk.Market.Ad.{Ad, listing_ad_id}
use rafuk.History.Table.{State, Table, row, row-is_state}
use rafuk.History.Lookup.{IsUnique}
use rafuk.History.Sync.{
  Threshold, Progress, listing_candidates, new_state, refreshed, sync_ad, sync_ads, begin, sync,
  price_drop, report_drop,
}
use rafuk.History.Sync.Rows.{
  first_ad, first_ad-candidates, Agrees, AgreesOn, AgreesOn-sync_ad, AgreesOn-begin, seen-sync_ad,
  row-sync_ad,
}

abbrev pub ids : List State → List ℕ
ids = map (λ s. s.ad_id)

-- How much the price of a listing fell by a report.
abbrev pub drop_of : ℕ → List (State × ℕ) → Option ℕ
drop_of j [] = none
drop_of j ((s, delta) ∷ drops) = if s.ad_id == j then some delta else drop_of j drops

abbrev pub is_none {ℓ} : {A : Type ℓ} → Option A → Bool
is_none none = true
is_none (some a) = false

has-snoc :
    (j : ℕ) (s : State) (xs : List State)
    → has j (ids (xs ++ s ∷ [])) ≡ (has j (ids xs) || s.ad_id == j)
has-snoc j s [] = ground arith
has-snoc j s (x ∷ xs) = ground (arith, has-snoc j s xs)

drop_of-snoc :
    (j : ℕ) (s : State) (d : ℕ) (xs : List (State × ℕ))
    → drop_of j (xs ++ (s, d) ∷ [])
      ≡ elim (drop_of j xs) [ some e ↦ some e | none ↦ if s.ad_id == j then some d else none ]
drop_of-snoc j s d [] = refl
drop_of-snoc j s d ((r, e) ∷ xs) = ground (arith, drop_of-snoc j s d xs)

module _ (th : Threshold) (query : String) (now : ℕ) where
  new-sync_ad :
      (ad : Ad) (p : Progress) (j : ℕ)
      → Agrees th query now p (listing_ad_id ad)
      → has j (ids (sync_ad th query now ad p).new_listings) ≡ (
          has j (ids p.new_listings)
          || (not (has j p.seen_ids) && (listing_ad_id ad == j && is_none (row query j p.table))))
  unfolding sync_ad
  new-sync_ad ad p j h = elim (Bool-cases (has (listing_ad_id ad) p.seen_ids)) [
    | inl seen ↦ rw seen (ground arith)
    | inr unseen ↦
        rw (unseen, h unseen) (ground (arith, has-snoc j (new_state query now ad) p.new_listings))
  ]

  -- The change that a listing in the sample makes to a remembered price.
  abbrev pub drop_in : Option State → Ad → Option ℕ
  drop_in none ad = none
  drop_in (some s) ad = price_drop th s ad

  drop-report :
      (j : ℕ) (s : State) (d : Option ℕ) (xs : List (State × ℕ))
      → drop_of j (report_drop s d xs)
        ≡ elim (drop_of j xs) [ some e ↦ some e | none ↦ if s.ad_id == j then d else none ]
  unfolding report_drop
  drop-report j s none xs = ground arith
  drop-report j s (some d) xs = drop_of-snoc j s d xs

  drop-sync_ad :
      (ad : Ad) (p : Progress) (j : ℕ)
      → Agrees th query now p (listing_ad_id ad)
      → drop_of j (sync_ad th query now ad p).price_drops ≡ elim (drop_of j p.price_drops) [
        | some e ↦ some e
        | none ↦
            if not (has j p.seen_ids) && listing_ad_id ad == j
            then drop_in (row query j p.table) ad
            else none
      ]
  unfolding sync_ad
  drop-sync_ad ad p j h = elim (Bool-cases (has i p.seen_ids)) [
    | inl seen ↦ rw seen (ground arith)
    | inr unseen ↦ elim (Option-cases (row query i p.table)) [
      | inl absent ↦ rw (unseen, h unseen, absent) (ground arith)
      | inr (s, present) ↦
          let same = row-is_state query i s p.table present in
          rw (unseen, h unseen, present)
            (ground
              (arith, same, drop-report j (refreshed now ad s) (price_drop th s ad) p.price_drops))
    ]
  ]
    where
      i : ℕ
      i = listing_ad_id ad

  pub new-sync_ads :
      (ads : List Ad) (p : Progress) (j : ℕ)
      → AgreesOn th query now p ads
      → has j (ids (sync_ads th query now ads p).new_listings) ≡ (
          has j (ids p.new_listings)
          || (not (has j p.seen_ids)
              && (not (is_none (first_ad j ads)) && is_none (row query j p.table))))
  unfolding sync_ads
  new-sync_ads [] p j h = ground arith
  new-sync_ads (ad ∷ ads) p j h =
      let agrees = h (listing_ad_id ad) (ground arith) in
      ground (
        arith,
        new-sync_ads ads (sync_ad th query now ad p) j (AgreesOn-sync_ad th query now ad ads p h),
        new-sync_ad ad p j agrees,
        seen-sync_ad th query now ad p j,
        row-sync_ad th query now ad p j agrees,
      )

  drop-sync_ads :
      (ads : List Ad) (p : Progress) (j : ℕ)
      → AgreesOn th query now p ads
      → drop_of j (sync_ads th query now ads p).price_drops ≡ elim (drop_of j p.price_drops) [
        | some e ↦ some e
        | none ↦
            if has j p.seen_ids
            then none
            else elim (first_ad j ads) [ none ↦ none | some ad ↦ drop_in (row query j p.table) ad ]
      ]
  unfolding sync_ads
  drop-sync_ads [] p j h = ground arith
  drop-sync_ads (ad ∷ ads) p j h =
      let agrees = h (listing_ad_id ad) (ground arith) in
      ground (
        arith,
        drop-sync_ads ads (sync_ad th query now ad p) j (AgreesOn-sync_ad th query now ad ads p h),
        drop-sync_ad ad p j agrees,
        seen-sync_ad th query now ad p j,
        row-sync_ad th query now ad p j agrees,
      )

  -- A listing is reported as new exactly when it is in the sample, with a positive id, and the query
  -- has never seen it, active or not.
  pub new-sync :
      (ads : List Ad) (t : Table) (j : ℕ)
      → IsUnique t
      → has j (ids (sync th query ads now t).1.new_listings)
        ≡ (not (is_none (if ltb 0 j then first_ad j ads else none)) && is_none (row query j t))
  unfolding sync
  new-sync ads t j u =
      let candidates = listing_candidates ads in
      ground (
        arith,
        new-sync_ads candidates (begin t query candidates) j
            (AgreesOn-begin th query now t candidates u),
        first_ad-candidates th query now j ads,
      )

  -- The price drop reported of a listing is that of its first ad in the sample against the price
  -- remembered for it, and none is reported of a listing that is not in the sample or was unknown.
  pub drop-sync :
      (ads : List Ad) (t : Table) (j : ℕ)
      → IsUnique t
      → drop_of j (sync th query ads now t).1.price_drops
        ≡ elim (if ltb 0 j then first_ad j ads else none) [
          | none ↦ none
          | some ad ↦ drop_in (row query j t) ad
        ]
  unfolding sync
  drop-sync ads t j u =
      let candidates = listing_candidates ads in
      ground (
        arith,
        drop-sync_ads candidates (begin t query candidates) j
            (AgreesOn-begin th query now t candidates u),
        first_ad-candidates th query now j ads,
      )
