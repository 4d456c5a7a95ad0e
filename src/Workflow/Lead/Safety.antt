-- ===== src/Workflow/Lead/Safety.antt =====
-- A repeated "add" takes nothing back.
use rafuk.Base.{
  ℕ, ◌==◌, ◌&&◌, String, false, ◌≡◌, ◌≢◌, refl, ◌∙◌, ◌⊎◌, inl, inr, Option, none, some, List, [],
  ◌∷◌, if◌then◌else◌, arith, str_dec,
}
use rafuk.Market.TextLib.{TextLib}
use rafuk.Workflow.{resolve_link, fill_notes}
use rafuk.Workflow.Lead.{
  LeadItem, LeadRequest, is_open_to_upsert, get_lead, explicit_status, move_status, fill_price,
  new_lead, refresh_lead, upsert_lead,
}

-- A lead in work, bought or sold.
abbrev pub IsUnderWay : String → Type 0
IsUnderWay status =
    (status ≡ "in_progress")
    ⊎ (status ≡ "negotiating")
    ⊎ (status ≡ "bought")
    ⊎ (status ≡ "reselling")
    ⊎ (status ≡ "sold")

under_way_closed : (status : String) → IsUnderWay status → is_open_to_upsert status ≡ false
unfolding is_open_to_upsert str_dec
under_way_closed status (inl e) = rw e refl
under_way_closed status (inr (inl e)) = rw e refl
under_way_closed status (inr (inr (inl e))) = rw e refl
under_way_closed status (inr (inr (inr (inl e)))) = rw e refl
under_way_closed status (inr (inr (inr (inr e)))) = rw e refl

-- What must stay of a lead.
abbrev pub KeepsWork : LeadItem → LeadItem → Type 0
KeepsWork l after =
    (IsUnderWay l.status → (after.status ≡ l.status) × (after.source ≡ l.source))
    × ((price : ℕ) → l.target_resale_byn ≡ some price → after.target_resale_byn ≡ some price)
    × ((text : String) → l.notes ≡ some text → text ≢ "" → after.notes ≡ some text)

move-KeepsWork :
    (status source : Option String) (l : LeadItem) → KeepsWork l (move_status status source l)
unfolding move_status
move-KeepsWork none source l = (λ h. (refl, refl), λ p e. e, λ t e n. e)
move-KeepsWork (some status) source l =
    (λ h. ground (arith, under_way_closed l.status h), λ p e. ground arith, λ t e n. ground arith)

fill_price_kept :
    (given current : Option ℕ) (p : ℕ) → current ≡ some p → fill_price given current ≡ some p
unfolding fill_price
fill_price_kept given current p e = rw e refl

fill_notes_kept :
    (given current : Option String) (text : String)
    → current ≡ some text
    → text ≢ ""
    → fill_notes given current ≡ some text
unfolding fill_notes
fill_notes_kept none current text e n = e
fill_notes_kept (some notes) current text e n = rw e (ground arith)

refresh-KeepsWork :
    (lib : TextLib) (format : ℕ → String) (r : LeadRequest) (l : LeadItem)
    → KeepsWork l (refresh_lead lib format r l)
unfolding refresh_lead
refresh-KeepsWork lib format r l =
    let base = record l {
      query = r.query;
      title = r.title;
      link = resolve_link lib format r.link r.ad_id l.link;
      price_byn = r.price_byn;
      target_resale_byn = fill_price r.target_resale_byn l.target_resale_byn;
      notes = fill_notes r.notes l.notes;
    } in
    let moved = move-KeepsWork (explicit_status r.status) r.source base in
    (
      moved.0,
      λ p e. moved.1 p (fill_price_kept r.target_resale_byn l.target_resale_byn p e),
      λ t e n. moved.2 t (fill_notes_kept r.notes l.notes t e n) n,
    )

moved_keys :
    (status source : Option String) (l : LeadItem)
    → ((move_status status source l).user_id ≡ l.user_id)
      × ((move_status status source l).ad_id ≡ l.ad_id)
unfolding move_status
moved_keys none source l = (refl, refl)
moved_keys (some status) source l = (ground arith, ground arith)

module _ (lib : TextLib) (format : ℕ → String) where
  pub refreshed_keys :
      (r : LeadRequest) (l : LeadItem)
      → ((refresh_lead lib format r l).user_id ≡ l.user_id)
        × ((refresh_lead lib format r l).ad_id ≡ l.ad_id)
  unfolding refresh_lead
  refreshed_keys r l = moved_keys (explicit_status r.status) r.source (record l {
    query = r.query;
    title = r.title;
    link = resolve_link lib format r.link r.ad_id l.link;
    price_byn = r.price_byn;
    target_resale_byn = fill_price r.target_resale_byn l.target_resale_byn;
    notes = fill_notes r.notes l.notes;
  })

  -- The rows after an upsert.
  pub get_lead-upsert :
      (u a : ℕ) (r : LeadRequest) (leads : List LeadItem)
      → get_lead u a (upsert_lead lib format r leads) ≡ (
          if r.user_id == u && r.ad_id == a
          then some (elim (get_lead u a leads) [
            | none ↦ new_lead lib format r
            | some l ↦ refresh_lead lib format r l
          ])
          else get_lead u a leads)
  unfolding get_lead upsert_lead new_lead
  get_lead-upsert u a r [] = ground arith
  get_lead-upsert u a r (l ∷ leads) =
      ground (arith, get_lead-upsert u a r leads, refreshed_keys r l)

  -- An upsert of a lead that exists never changes the status and the source of a lead whose status is
  -- in_progress, negotiating, bought, reselling or sold, nor a target price or notes that the user
  -- entered.
  pub upsert_lead-KeepsWork :
      (r : LeadRequest) (leads : List LeadItem) (l : LeadItem)
      → get_lead r.user_id r.ad_id leads ≡ some l
      → (after : LeadItem) × (get_lead r.user_id r.ad_id (upsert_lead lib format r leads)
          ≡ some after)
        × KeepsWork l after
  upsert_lead-KeepsWork r leads l h =
      let row = get_lead-upsert r.user_id r.ad_id r leads in
      let same : get_lead r.user_id r.ad_id (upsert_lead lib format r leads)
          ≡ some (refresh_lead lib format r l) =
        ground (arith, row, h) in
      (refresh_lead lib format r l, same, refresh-KeepsWork lib format r l)

  -- The leads of the other users, and the other leads of the user, stay as they are.
  pub upsert_lead-other :
      (u a : ℕ) (r : LeadRequest) (leads : List LeadItem)
      → (r.user_id == u && r.ad_id == a) ≡ false
      → get_lead u a (upsert_lead lib format r leads) ≡ get_lead u a leads
  upsert_lead-other u a r leads h = get_lead-upsert u a r leads ∙ rw h refl
