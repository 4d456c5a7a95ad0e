-- ===== src/History/Sync/Stability.antt =====
-- A sync keeps the table's constraint and the other queries, and a repeated sample reports nothing.
use rafuk.Base.{
  ℕ, String, false, ◌≡◌, ◌≢◌, refl, Option, none, some, List, [], ◌∷◌, arith, ◌∙◌, ltb,
  if◌then◌else◌, has, map, inl, inr, Bool-cases, Option-cases,
}
use rafuk.Market.Ad.{Ad, listing_ad_id, normalize_price_byn}
use rafuk.History.Table.{
  State, Table, is_state, row, insert, update, deactivate, row-insert, row-update, row-deactivate,
  row-is_state, row-deactivate_other,
}
use rafuk.History.Lookup.{IsUnique}
use rafuk.History.Sync.{
  Threshold, Progress, listing_candidates, new_state, refreshed, sync_ad, sync_ads, begin, sync,
  price_drop, is_significant_price_drop,
}
use rafuk.History.Sync.Rows.{
  first_ad, seen_state, Agrees, AgreesOn, AgreesOn-sync_ad, AgreesOn-begin, row-sync_raw,
}
use rafuk.History.Sync.Report.{ids, drop_of, new-sync, drop-sync}

pub IsUnique-insert :
    (s : State) (t : Table) → IsUnique t → row s.query s.ad_id t ≡ none → IsUnique (insert s t)
unfolding insert row is_state
IsUnique-insert s [] u h = (refl, tt)
IsUnique-insert s (r ∷ t) u h = ground (arith, IsUnique-insert s t, row-insert r.query r.ad_id s t)

IsUnique-update : (s : State) (t : Table) → IsUnique t → IsUnique (update s t)
unfolding update row is_state
IsUnique-update s [] u = tt
IsUnique-update s (r ∷ t) u =
    ground
      (arith, IsUnique-update s t, row-update r.query r.ad_id s t, row-update s.query s.ad_id s t)

IsUnique-deactivate :
    (query : String) (now : ℕ) (t : Table) → IsUnique t → IsUnique (map (deactivate query now) t)
unfolding deactivate
IsUnique-deactivate query now [] u = tt
IsUnique-deactivate query now (r ∷ t) u =
    ground (arith, IsUnique-deactivate query now t, row-deactivate r.query r.ad_id query now t)

module _ (th : Threshold) (query : String) (now : ℕ) where
  IsUnique-sync_ad :
      (ad : Ad) (p : Progress)
      → Agrees th query now p (listing_ad_id ad)
      → IsUnique p.table
      → IsUnique (sync_ad th query now ad p).table
  unfolding sync_ad
  IsUnique-sync_ad ad p h u = elim (Bool-cases (has i p.seen_ids)) [
    | inl seen ↦ rw seen u
    | inr unseen ↦ elim (Option-cases (row query i p.table)) [
      | inl absent ↦
          rw (unseen, h unseen, absent) (IsUnique-insert (new_state query now ad) p.table u absent)
      | inr (s, present) ↦
          rw (unseen, h unseen, present) (IsUnique-update (refreshed now ad s) p.table u)
    ]
  ]
    where
      i : ℕ
      i = listing_ad_id ad

  IsUnique-sync_ads :
      (ads : List Ad) (p : Progress)
      → AgreesOn th query now p ads
      → IsUnique p.table
      → IsUnique (sync_ads th query now ads p).table
  unfolding sync_ads
  IsUnique-sync_ads [] p h u = u
  IsUnique-sync_ads (ad ∷ ads) p h u =
      IsUnique-sync_ads ads (sync_ad th query now ad p) (AgreesOn-sync_ad th query now ad ads p h)
        (IsUnique-sync_ad ad p (h (listing_ad_id ad) (ground arith)) u)

  -- A sync never violates the constraint that a query and an ad stand once.
  pub sync-IsUnique :
      (ads : List Ad) (t : Table) → IsUnique t → IsUnique (sync th query ads now t).0
  unfolding sync begin
  sync-IsUnique ads t u =
      let candidates = listing_candidates ads in
      IsUnique-deactivate query now _ (
        IsUnique-sync_ads candidates (begin t query candidates)
          (AgreesOn-begin th query now t candidates u) u)

  other-sync_ad :
      (other : String) (j : ℕ) (ad : Ad) (p : Progress)
      → other ≢ query
      → Agrees th query now p (listing_ad_id ad)
      → row other j (sync_ad th query now ad p).table ≡ row other j p.table
  unfolding sync_ad is_state
  other-sync_ad other j ad p ne h = elim (Bool-cases (has i p.seen_ids)) [
    | inl seen ↦ rw seen
    | inr unseen ↦ elim (Option-cases (row query i p.table)) [
      | inl absent ↦
          rw (unseen, h unseen, absent)
            (ground (arith, row-insert other j (new_state query now ad) p.table))
      | inr (s, present) ↦
          let same = row-is_state query i s p.table present in
          rw (unseen, h unseen, present)
            (ground (arith, same, row-update other j (refreshed now ad s) p.table))
    ]
  ]
    where
      i : ℕ
      i = listing_ad_id ad

  other-sync_ads :
      (other : String) (j : ℕ) (ads : List Ad) (p : Progress)
      → other ≢ query
      → AgreesOn th query now p ads
      → row other j (sync_ads th query now ads p).table ≡ row other j p.table
  unfolding sync_ads
  other-sync_ads other j [] p ne h = refl
  other-sync_ads other j (ad ∷ ads) p ne h =
      other-sync_ads other j ads (sync_ad th query now ad p) ne
        (AgreesOn-sync_ad th query now ad ads p h)
      ∙ other-sync_ad other j ad p ne (h (listing_ad_id ad) (ground arith))

  -- A sync of one query leaves the rows of every other query as they are.
  pub row-sync_other :
      (other : String) (j : ℕ) (ads : List Ad) (t : Table)
      → other ≢ query
      → IsUnique t
      → row other j (sync th query ads now t).0 ≡ row other j t
  unfolding sync begin
  row-sync_other other j ads t ne u =
      let candidates = listing_candidates ads in
      let p = begin t query candidates in
      row-deactivate_other other j query now (sync_ads th query now candidates p).table ne
      ∙ other-sync_ads other j candidates p ne (AgreesOn-begin th query now t candidates u)

-- An empty list of states has no id.
ids_empty : (xs : List State) → ((j : ℕ) → has j (ids xs) ≡ false) → xs ≡ []
ids_empty [] h = refl
ids_empty (x ∷ xs) h = ground (arith, h x.ad_id)

drops_empty : (xs : List (State × ℕ)) → ((j : ℕ) → drop_of j xs ≡ none) → xs ≡ []
drops_empty [] h = refl
drops_empty ((s, d) ∷ xs) h = ground (arith, h s.ad_id)

-- A price that did not change is no drop.
same_price :
    (th : Threshold) (s : State) (ad : Ad)
    → s.last_price_byn ≡ normalize_price_byn ad.price_byn
    → price_drop th s ad ≡ none
unfolding price_drop is_significant_price_drop
same_price th s ad h = ground arith

price-seen_state :
    (query : String) (now : ℕ) (o : Option State) (ad : Ad)
    → (seen_state query now o ad).last_price_byn ≡ normalize_price_byn ad.price_byn
unfolding new_state refreshed
price-seen_state query now none ad = refl
price-seen_state query now (some s) ad = refl

module _ (th : Threshold) (query : String) (first second : ℕ) (ads : List Ad) (t : Table) where
  abbrev once : Table
  once = (sync th query ads first t).0

  module _ (u : IsUnique t) where
    no_new : (j : ℕ) → has j (ids (sync th query ads second once).1.new_listings) ≡ false
    no_new j = ground (
      arith,
      new-sync th query second ads once j (sync-IsUnique th query first ads t u),
      row-sync_raw th query first ads t j u,
    )

    no_drop : (j : ℕ) → drop_of j (sync th query ads second once).1.price_drops ≡ none
    no_drop j = elim (Option-cases (if ltb 0 j then first_ad j ads else none)) [
      | inl n ↦ rw (drop-sync th query second ads once j unique, n)
      | inr (ad, e) ↦
          rw
            (
              drop-sync th query second ads once j unique,
              e,
              row-sync_raw th query first ads t j u,
              e,
            )
            (same_price th (seen_state query first (row query j t) ad) ad
              (price-seen_state query first (row query j t) ad))
    ]
      where
        unique : IsUnique once
        unique = sync-IsUnique th query first ads t u

  -- Whatever was synced before, a second sync of the same sample reports no new listing and no price
  -- drop.
  pub sync_twice :
      IsUnique t
      → (sync th query ads second (sync th query ads first t).0).1
        ≡ record { new_listings = []; price_drops = [] }
  sync_twice u =
      let r = (sync th query ads second once).1 in
      cc (ids_empty r.new_listings (no_new u), drops_empty r.price_drops (no_drop u))
