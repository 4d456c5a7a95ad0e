-- ===== src/History/Sync/Rows.antt =====
-- What a sync leaves in the row of each listing.
use rafuk.Base.{
  ℕ, String, true, false, ◌&&◌, ◌||◌, ◌≡◌, refl, ap, ◌∙◌, Option, none, some, List, [], ◌∷◌, arith,
  ltb, leb, if◌then◌else◌, ◌==◌, has, map, ℕ_discrete, inl, inr, Bool-cases, Option-cases,
}
use rafuk.Base.OrderedDict.{find, find-assign}
use rafuk.Base.Text.{truncate}
use rafuk.Market.Ad.{Ad, listing_ad_id, normalize_price_byn}
use rafuk.History.Table.{
  State, Table, is_state, row, deactivate, row-insert, row-update, row-deactivate, row-is_state,
}
use rafuk.History.Lookup.{IsUnique, find-load_listing_states}
use rafuk.History.Sync.{
  Threshold, Progress, listing_candidates, new_state, refreshed, add_new, refresh, sync_ad,
  sync_ads, begin, sync,
}

-- The first ad of a sample that carries an id: the only one that counts.
abbrev pub first_ad : ℕ → List Ad → Option Ad
first_ad j [] = none
first_ad j (ad ∷ ads) = if listing_ad_id ad == j then some ad else first_ad j ads

-- The state of a listing after it was seen.
abbrev pub seen_state : String → ℕ → Option State → Ad → State
seen_state query now none ad = new_state query now ad
seen_state query now (some s) ad = refreshed now ad s

-- What the row of the listing `j` shows once this ad of it was seen: all is from the ad, but the time of
-- the first sighting, which a remembered row keeps.
abbrev pub shown_state : String → ℕ → ℕ → Option State → Ad → State
shown_state query now j before ad = record {
  query = query;
  ad_id = j;
  title = truncate 255 (elim ad.subject [ none ↦ "" | some text ↦ text ]);
  link = truncate 512 ad.ad_link;
  last_price_byn = normalize_price_byn ad.price_byn;
  list_time = elim ad.list_time [ none ↦ none | some text ↦ some (truncate 64 text) ];
  active = true;
  first_seen_at = elim before [ none ↦ now | some s ↦ s.first_seen_at ];
  last_seen_at = now;
}

-- What a row becomes whose listing was not seen: it stays active only if it was last seen at the time of
-- the sync or later.
abbrev pub unseen_state : ℕ → State → State
unseen_state now s = record {
  query = s.query;
  ad_id = s.ad_id;
  title = s.title;
  link = s.link;
  last_price_byn = s.last_price_byn;
  list_time = s.list_time;
  active = s.active && leb now s.last_seen_at;
  first_seen_at = s.first_seen_at;
  last_seen_at = s.last_seen_at;
}

first_ad_id : (j : ℕ) (ads : List Ad) (ad : Ad) → first_ad j ads ≡ some ad → listing_ad_id ad ≡ j
first_ad_id j [] ad h = absurd cc
first_ad_id j (a ∷ ads) ad h = ground (arith, first_ad_id j ads ad)

deactivate-unseen :
    (query : String) (now : ℕ) (s : State)
    → s.query ≡ query
    → deactivate query now s ≡ unseen_state now s
unfolding deactivate
deactivate-unseen query now s e = elim (Bool-cases (s.active && ltb s.last_seen_at now)) [
  | inl gone ↦ ground (arith, gone)
  | inr stays ↦ ground (arith, stays)
]

seen-shown :
    (query : String) (now j : ℕ) (before : Option State) (ad : Ad)
    → listing_ad_id ad ≡ j
    → ((s : State) → before ≡ some s → (s.query ≡ query) × (s.ad_id ≡ j))
    → seen_state query now before ad ≡ shown_state query now j before ad
unfolding new_state refreshed
seen-shown query now j none ad e h = ground (arith, e)
seen-shown query now j (some s) ad e h = ground (arith, e, h s refl)

module _ (th : Threshold) (query : String) (now : ℕ) where
  abbrev pub Agrees : Progress → ℕ → Type 0
  Agrees p j = has j p.seen_ids ≡ false → find ℕ_discrete j p.existing_by_id ≡ row query j p.table

  pub seen-sync_ad :
      (ad : Ad) (p : Progress) (j : ℕ)
      → has j (sync_ad th query now ad p).seen_ids ≡ (listing_ad_id ad == j || has j p.seen_ids)
  unfolding sync_ad
  seen-sync_ad ad p j = ground arith

  row-add_new :
      (ad : Ad) (p : Progress) (j : ℕ)
      → row query j (add_new query now ad p).table ≡ elim (row query j p.table) [
        | some r ↦ some r
        | none ↦ if listing_ad_id ad == j then some (new_state query now ad) else none
      ]
  unfolding add_new is_state
  row-add_new ad p j = ground (arith, row-insert query j (new_state query now ad) p.table)

  row-refresh :
      (ad : Ad) (s : State) (p : Progress) (j : ℕ)
      → s.query ≡ query
      → s.ad_id ≡ listing_ad_id ad
      → row query j (refresh th now ad s p).table ≡ elim (row query j p.table) [
        | none ↦ none
        | some r ↦ if listing_ad_id ad == j then some (refreshed now ad s) else some r
      ]
  unfolding refresh is_state
  row-refresh ad s p j hq hi = ground (arith, row-update query j (refreshed now ad s) p.table)

  pub row-sync_ad :
      (ad : Ad) (p : Progress) (j : ℕ)
      → Agrees p (listing_ad_id ad)
      → row query j (sync_ad th query now ad p).table ≡ (
          if has j p.seen_ids
          then row query j p.table
          else if listing_ad_id ad == j
          then some (seen_state query now (row query j p.table) ad)
          else row query j p.table)
  unfolding sync_ad
  row-sync_ad ad p j h = elim (Bool-cases (has i p.seen_ids)) [
    | inl seen ↦ rw seen (ground arith)
    | inr unseen ↦ elim (Option-cases (row query i p.table)) [
      | inl absent ↦ rw (unseen, h unseen, absent) (ground (arith, row-add_new ad p j))
      | inr (s, present) ↦
          let same = row-is_state query i s p.table present in
          rw (unseen, h unseen, present) (ground (arith, row-refresh ad s p j same.0 same.1))
    ]
  ]
    where
      i : ℕ
      i = listing_ad_id ad

  existing-sync_ad :
      (ad : Ad) (p : Progress) (j : ℕ)
      → (listing_ad_id ad == j) ≡ false
      → find ℕ_discrete j (sync_ad th query now ad p).existing_by_id
        ≡ find ℕ_discrete j p.existing_by_id
  unfolding sync_ad
  existing-sync_ad ad p j h =
      ground (
        arith,
        find-assign ℕ_discrete (listing_ad_id ad) j (new_state query now ad) p.existing_by_id,
      )

  Agrees-sync_ad :
      (ad : Ad) (p : Progress) (j : ℕ)
      → Agrees p (listing_ad_id ad)
      → Agrees p j
      → Agrees (sync_ad th query now ad p) j
  Agrees-sync_ad ad p j hi hj unseen =
      ground
        (arith, hj, unseen, seen-sync_ad ad p j, existing-sync_ad ad p j, row-sync_ad ad p j hi)

  -- The dictionary of remembered listings is right for every ad that is still to come.
  abbrev pub AgreesOn : Progress → List Ad → Type 0
  AgreesOn p ads = (k : ℕ) → has k (map listing_ad_id ads) ≡ true → Agrees p k

  pub AgreesOn-sync_ad :
      (ad : Ad) (ads : List Ad) (p : Progress)
      → AgreesOn p (ad ∷ ads)
      → AgreesOn (sync_ad th query now ad p) ads
  AgreesOn-sync_ad ad ads p h k among =
      Agrees-sync_ad ad p k (h (listing_ad_id ad) (ground arith)) (h k (ground arith))

  pub row-sync_ads :
      (ads : List Ad) (p : Progress) (j : ℕ)
      → AgreesOn p ads
      → row query j (sync_ads th query now ads p).table ≡ (
          if has j p.seen_ids then row query j p.table else elim (first_ad j ads) [
            | none ↦ row query j p.table
            | some ad ↦ some (seen_state query now (row query j p.table) ad)
          ])
  unfolding sync_ads
  row-sync_ads [] p j h = ground arith
  row-sync_ads (ad ∷ ads) p j h = ground (
    arith,
    row-sync_ads ads (sync_ad th query now ad p) j (AgreesOn-sync_ad ad ads p h),
    seen-sync_ad ad p j,
    row-sync_ad ad p j (h (listing_ad_id ad) (ground arith)),
  )

  pub AgreesOn-begin : (t : Table) (ads : List Ad) → IsUnique t → AgreesOn (begin t query ads) ads
  unfolding begin
  AgreesOn-begin t ads u k among unseen =
      ground (arith, find-load_listing_states t query (map listing_ad_id ads) k u)

  -- Only ads with an id count.
  pub first_ad-candidates :
      (j : ℕ) (ads : List Ad)
      → first_ad j (listing_candidates ads) ≡ (if ltb 0 j then first_ad j ads else none)
  unfolding listing_candidates
  first_ad-candidates j [] = ground arith
  first_ad-candidates j (ad ∷ ads) = ground (arith, first_ad-candidates j ads)

  said :
      (j : ℕ) (found : Option Ad) (before : Option State)
      → ((ad : Ad) → found ≡ some ad → listing_ad_id ad ≡ j)
      → ((s : State) → before ≡ some s → (s.query ≡ query) × (s.ad_id ≡ j))
      → elim found as (λ x. Option State) [
        | some ad ↦ some (seen_state query now before ad)
        | none ↦ elim before [ none ↦ none | some s ↦ some (deactivate query now s) ]
      ]
        ≡ elim found as (λ x. Option State) [
          | some ad ↦ some (shown_state query now j before ad)
          | none ↦ elim before [ none ↦ none | some s ↦ some (unseen_state now s) ]
        ]
  said j (some ad) before id h = ap some (seen-shown query now j before ad (id ad refl) h)
  said j none none id h = refl
  said j none (some s) id h = ap some (deactivate-unseen query now s (h s refl).0)

  -- The row of each listing, in the words of the code.
  pub row-sync_raw :
      (ads : List Ad) (t : Table) (j : ℕ)
      → IsUnique t
      → row query j (sync th query ads now t).0 ≡ elim (if ltb 0 j then first_ad j ads else none) [
        | some ad ↦ some (seen_state query now (row query j t) ad)
        | none ↦ elim (row query j t) [ none ↦ none | some s ↦ some (deactivate query now s) ]
      ]
  unfolding sync deactivate
  row-sync_raw ads t j u = ground (
    arith,
    row-deactivate query j query now
        (sync_ads th query now (listing_candidates ads)
          (begin t query (listing_candidates ads))).table,
    row-sync_ads (listing_candidates ads) (begin t query (listing_candidates ads)) j
        (AgreesOn-begin t (listing_candidates ads) u),
    first_ad-candidates j ads,
  )

  -- After a sync of a table with one row for each listing, the row of a listing shows the title, the
  -- link, the price and the time of its first ad in the sample, is active and was seen now; it keeps the
  -- time of its first sighting, which is now if the listing was unknown. The row of a listing that is not
  -- in the sample stays as it is, but is inactive if it was last seen before now, and no row appears. An
  -- ad without a positive id counts as not in the sample.
  pub row-sync :
      (ads : List Ad) (t : Table) (j : ℕ)
      → IsUnique t
      → row query j (sync th query ads now t).0 ≡ elim (if ltb 0 j then first_ad j ads else none) [
        | some ad ↦ some (shown_state query now j (row query j t) ad)
        | none ↦ elim (row query j t) [ none ↦ none | some s ↦ some (unseen_state now s) ]
      ]
  row-sync ads t j u =
      row-sync_raw ads t j u
      ∙ said j (if ltb 0 j then first_ad j ads else none) (row query j t)
          (λ ad e. first_ad_id j ads ad (ground arith)) (λ s e. row-is_state query j s t e)
