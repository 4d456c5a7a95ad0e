-- ===== src/Workflow.antt =====
-- Leads and the watchlist of a user: api/services/workflow_store.py.
pub mod Lead
pub mod Watchlist
pub mod Budget
mod Tests
use Prim.Native.String.{◌++◌}
use rafuk.Base.{ℕ, String, Option, none, some, ite, str_dec}
use rafuk.Market.TextLib.{TextLib}

-- `first or second`, of texts
unfoldable pub or_text : String → String → String
or_text first second = ite (str_dec first "") second first

-- `value or default`, of a text that may be missing
unfoldable pub or_default : Option String → String → String
unfolding or_text
or_default none default_text = default_text
or_default (some value) default_text = or_text value default_text

-- `notes and not existing.notes`
unfoldable pub fill_notes : Option String → Option String → Option String
fill_notes none current = current
fill_notes (some notes) none = ite (str_dec notes "") none (some notes)
fill_notes (some notes) (some current) =
    ite (str_dec notes "") (some current) (ite (str_dec current "") (some notes) (some current))

-- `format` is Python's decimal text of a number.
module _ (lib : TextLib) (format : ℕ → String) where
  unfoldable pub kufar_item_link : ℕ → String
  kufar_item_link ad_id = "https://www.kufar.by/item/" ++ format ad_id

  -- `_resolve_link`; a new row has no current link
  unfoldable pub resolve_link : String → ℕ → String → String
  unfolding or_text kufar_item_link
  resolve_link link ad_id current =
      or_text (lib.strip link) (or_text (lib.strip current) (kufar_item_link ad_id))
