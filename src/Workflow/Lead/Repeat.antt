-- ===== src/Workflow/Lead/Repeat.antt =====
-- A double tap on "add" does what a single one does.
use rafuk.Base.{ℕ, String, ◌≡◌, refl, Option, none, some, List, [], ◌∷◌, arith}
use rafuk.Market.TextLib.{TextLib}
use rafuk.Workflow.{resolve_link, or_text, fill_notes, kufar_item_link}
use rafuk.Workflow.Lead.Safety.{refreshed_keys}
use rafuk.Workflow.Lead.{
  LeadItem, LeadRequest, move_status, fill_price, new_lead, refresh_lead, upsert_lead,
}

fill_notes_idem :
    (given current : Option String)
    → fill_notes given (fill_notes given current) ≡ fill_notes given current
unfolding fill_notes
fill_notes_idem none current = refl
fill_notes_idem (some notes) none = ground arith
fill_notes_idem (some notes) (some current) = ground arith

fill_notes_self : (given : Option String) → fill_notes given given ≡ given
unfolding fill_notes
fill_notes_self none = refl
fill_notes_self (some notes) = ground arith

fill_price_idem :
    (given current : Option ℕ)
    → fill_price given (fill_price given current) ≡ fill_price given current
unfolding fill_price
fill_price_idem given none = ground arith
fill_price_idem given (some p) = refl

fill_price_self : (given : Option ℕ) → fill_price given given ≡ given
unfolding fill_price
fill_price_self none = refl
fill_price_self (some p) = refl

-- What a status request makes of a status.
move_status_idem :
    (status source : Option String) (l : LeadItem)
    → move_status status source (move_status status source l) ≡ move_status status source l
unfolding move_status
move_status_idem none source l = refl
move_status_idem (some status) source l = ground arith

module _ (lib : TextLib) (format : ℕ → String)
    (strips : (s : String) → lib.strip (lib.strip s) ≡ lib.strip s)
    (plain : (ad_id : ℕ)
      → lib.strip (kufar_item_link lib format ad_id) ≡ kufar_item_link lib format ad_id) where
  resolve_idem :
      (link current : String) (ad_id : ℕ)
      → resolve_link lib format link ad_id (resolve_link lib format link ad_id current)
        ≡ resolve_link lib format link ad_id current
  unfolding resolve_link or_text
  resolve_idem link current ad_id = ground (arith, strips current, plain ad_id)

  refresh_idem :
      (r : LeadRequest) (l : LeadItem)
      → refresh_lead lib format r (refresh_lead lib format r l) ≡ refresh_lead lib format r l
  unfolding refresh_lead
  refresh_idem r l = ground (
    arith,
    resolve_idem r.link l.link r.ad_id,
    fill_price_idem r.target_resale_byn l.target_resale_byn,
    fill_notes_idem r.notes l.notes,
  )

  refresh_new :
      (r : LeadRequest) → refresh_lead lib format r (new_lead lib format r) ≡ new_lead lib format r
  unfolding refresh_lead new_lead
  refresh_new r = ground (
    arith,
    resolve_idem r.link "" r.ad_id,
    fill_price_self r.target_resale_byn,
    fill_notes_self r.notes,
  )

  upsert_twice :
      (r : LeadRequest) (leads : List LeadItem)
      → upsert_lead lib format r (upsert_lead lib format r leads) ≡ upsert_lead lib format r leads
  unfolding upsert_lead new_lead
  upsert_twice r [] = ground (arith, refresh_new r)
  upsert_twice r (l ∷ leads) =
      ground (arith, upsert_twice r leads, refresh_idem r l, refreshed_keys lib format r l)

-- The same request twice has the effect of one, if stripping a text twice strips it once and the page
-- of an ad has no white space at its ends: a double tap neither moves the lead further nor doubles it.
pub upsert_lead_idem :
    (lib : TextLib) (format : ℕ → String)
    → ((s : String) → lib.strip (lib.strip s) ≡ lib.strip s)
    → ((ad_id : ℕ)
        → lib.strip (kufar_item_link lib format ad_id) ≡ kufar_item_link lib format ad_id)
    → (r : LeadRequest) (leads : List LeadItem)
    → upsert_lead lib format r (upsert_lead lib format r leads) ≡ upsert_lead lib format r leads
upsert_lead_idem lib format strips plain r leads = upsert_twice lib format strips plain r leads
