-- ===== src/Workflow/Lead.antt =====
-- `upsert_lead` of api/services/workflow_store.py. Prices are kopecks.
pub mod Safety
pub mod Repeat
use rafuk.Base.{
  ℕ, ◌==◌, ◌&&◌, not, String, Bool, true, false, Option, none, some, List, [], ◌∷◌, ◌++◌, ite,
  str_dec, if◌then◌else◌,
}
use rafuk.Market.TextLib.{TextLib}
use rafuk.Workflow.{resolve_link, or_default, fill_notes}

-- The columns of `LeadItem` that the code sets.
pub record LeadItem : Type 0 where
  pub user_id : ℕ
  pub ad_id : ℕ
  pub query : String
  pub title : String
  pub link : String
  pub price_byn : Option ℕ
  pub target_resale_byn : Option ℕ
  pub status : String
  pub source : String
  pub notes : Option String

-- The arguments of `upsert_lead`.
pub record LeadRequest : Type 0 where
  pub user_id : ℕ
  pub ad_id : ℕ
  pub query : String
  pub title : String
  pub link : String
  pub price_byn : Option ℕ
  pub target_resale_byn : Option ℕ
  pub status : Option String
  pub source : Option String
  pub notes : Option String

-- `LEAD_STATUSES_OPEN_TO_UPSERT`
unfoldable pub is_open_to_upsert : String → Bool
is_open_to_upsert status = ite (str_dec status "new") true (
    ite (str_dec status "reviewing") true
      (ite (str_dec status "deferred") true (ite (str_dec status "skipped") true false)))

-- `_get_lead`; a user has at most one lead of an ad (`uq_lead_items_user_ad`)
unfoldable pub get_lead : ℕ → ℕ → List LeadItem → Option LeadItem
get_lead user_id ad_id [] = none
get_lead user_id ad_id (l ∷ leads) =
    if l.user_id == user_id && l.ad_id == ad_id then some l else get_lead user_id ad_id leads

-- `explicit_status`
unfoldable pub explicit_status : Option String → Option String
explicit_status none = none
explicit_status (some status) =
    ite (str_dec status "") none (ite (str_dec status "new") none (some status))

-- The status and the source after an upsert.
unfoldable pub move_status : Option String → Option String → LeadItem → LeadItem
unfolding is_open_to_upsert or_default
move_status none source l = l
move_status (some status) source l =
    if is_open_to_upsert l.status
    then ite (str_dec l.status status) l
        (record l { status = status; source = or_default source l.source })
    else l

-- A price that the user entered stays.
unfoldable pub fill_price : Option ℕ → Option ℕ → Option ℕ
fill_price price none = price
fill_price price (some current) = some current

module _ (lib : TextLib) (format : ℕ → String) where
  unfoldable pub new_lead : LeadRequest → LeadItem
  unfolding resolve_link or_default
  new_lead r = record {
    user_id = r.user_id;
    ad_id = r.ad_id;
    query = r.query;
    title = r.title;
    link = resolve_link lib format r.link r.ad_id "";
    price_byn = r.price_byn;
    target_resale_byn = r.target_resale_byn;
    status = or_default r.status "new";
    source = or_default r.source "manual";
    notes = r.notes;
  }

  -- The assignments to an existing lead.
  unfoldable pub refresh_lead : LeadRequest → LeadItem → LeadItem
  unfolding resolve_link fill_notes fill_price explicit_status move_status
  refresh_lead r l = move_status (explicit_status r.status) r.source (record l {
    query = r.query;
    title = r.title;
    link = resolve_link lib format r.link r.ad_id l.link;
    price_byn = r.price_byn;
    target_resale_byn = fill_price r.target_resale_byn l.target_resale_byn;
    notes = fill_notes r.notes l.notes;
  })

  -- `INSERT`, or, when the row is there, the update of this row. A concurrent request that inserts it
  -- between the first look and the insertion ends in the same update.
  unfoldable pub upsert_lead : LeadRequest → List LeadItem → List LeadItem
  unfolding new_lead refresh_lead
  upsert_lead r [] = new_lead r ∷ []
  upsert_lead r (l ∷ leads) =
      if l.user_id == r.user_id && l.ad_id == r.ad_id
      then refresh_lead r l ∷ leads
      else l ∷ upsert_lead r leads
