-- ===== src/History/Sync/Tests.antt =====
-- Concrete syncs.
use rafuk.Base.{ℕ, true, ◌≡◌, refl, none, some, List, [], ◌∷◌, str_dec, ℕ_discrete, has}
use rafuk.Base.Int.{pos}
use rafuk.Base.Text.{truncate}
use rafuk.Base.OrderedDict.{find, assign}
use rafuk.Json.{null}
use rafuk.Market.Ad.{Ad, listing_ad_id, normalize_price_byn}
use rafuk.History.Table.{row, insert, update, deactivate}
use rafuk.History.Lookup.{IsUnique, load_listing_states}
use rafuk.History.Sync.{SyncResult, default_threshold, sync, price_drop, is_significant_price_drop}
use rafuk.History.Sync.Rows.{shown_state, row-sync}
use rafuk.History.Sync.Report.{ids, drop_of, new-sync, drop-sync}
use rafuk.History.Sync.Stability.{sync-IsUnique, sync_twice}

-- One line that opens the sync and what it calls.
program : Unit {0}
unfolding sync load_listing_states find assign row insert update deactivate str_dec ℕ_discrete
    normalize_price_byn listing_ad_id price_drop is_significant_price_drop truncate
program = tt

abbrev lot : ℕ → ℕ → Ad
lot ad_id price = record {
  ad_id = some ad_id;
  subject = some "ps5";
  ad_link = "";
  list_time = none;
  price_byn = some (pos price);
  raw = null;
}

-- One lot at two prices: the first counts.
abbrev monday : List Ad
monday = lot 7 50_000 ∷ lot 8 90_000 ∷ lot 7 1 ∷ []

abbrev tuesday : List Ad
tuesday = lot 9 30_000 ∷ lot 8 80_000 ∷ []

abbrev report : SyncResult
report = (sync default_threshold "ps5" tuesday 200 (sync default_threshold "ps5" monday 100 []).0).1

reported : (ids report.new_listings ≡ 9 ∷ []) × (drop_of 8 report.price_drops ≡ some 10_000)
unfolding program
reported = (refl, refl)

sync-IsUnique_example : IsUnique (sync default_threshold "ps5" monday 100 []).0
sync-IsUnique_example = sync-IsUnique default_threshold "ps5" 100 monday [] tt

row-sync_example :
    row "ps5" 8
      (sync default_threshold "ps5" tuesday 200 (sync default_threshold "ps5" monday 100 []).0).0
    ≡ some (
        shown_state "ps5" 200 8
          (row "ps5" 8 (sync default_threshold "ps5" monday 100 []).0)
          (lot 8 80_000))
unfolding program
row-sync_example =
    row-sync default_threshold "ps5" 200 tuesday (sync default_threshold "ps5" monday 100 []).0 8
      sync-IsUnique_example

new-sync_example : has 9 (ids report.new_listings) ≡ true
unfolding program
new-sync_example =
    new-sync default_threshold "ps5" 200 tuesday (sync default_threshold "ps5" monday 100 []).0 9
      sync-IsUnique_example

drop-sync_example : drop_of 8 report.price_drops ≡ some 10_000
unfolding program
drop-sync_example =
    drop-sync default_threshold "ps5" 200 tuesday (sync default_threshold "ps5" monday 100 []).0 8
      sync-IsUnique_example

sync_twice_example :
    (sync default_threshold "ps5" monday 200 (sync default_threshold "ps5" monday 100 []).0).1
    ≡ record { new_listings = []; price_drops = [] }
sync_twice_example = sync_twice default_threshold "ps5" 100 200 monday [] tt
