-- ===== src/Workflow/Watchlist/Quota.antt =====
-- The quota of the watchlist, and what an upsert does to the rows.
use rafuk.Base.{
  ℕ, ◌+◌, ◌≤◌, ◌<◌, ◌==◌, ◌&&◌, max, String, ◌≡◌, refl, Option, none, some, List, [], ◌∷◌, ◌++◌,
  leb, keep, if◌then◌else◌, arith, Option-cases, Bool-cases, inl, inr,
}
use rafuk.Market.TextLib.{TextLib}
use rafuk.Workflow.Watchlist.{
  WatchlistItem, WatchRequest, get_watchlist_item, count_user_rows, max_of, new_item, refresh_item,
  update_item, upsert_watchlist,
}

-- What an upsert may end in.
abbrev pub IsWithinQuota : WatchRequest → List WatchlistItem → Option (List WatchlistItem) → Type 0
IsWithinQuota r items none =
    (get_watchlist_item r.user_id r.ad_id items ≡ none)
    × (max_of r.max_items ≤ count_user_rows r.user_id items)
IsWithinQuota r items (some after) =
    (u : ℕ) → count_user_rows u after ≤ max (max_of r.max_items) (count_user_rows u items)

module _ (lib : TextLib) (format : ℕ → String) where
  count-update :
      (u : ℕ) (r : WatchRequest) (now : ℕ) (items : List WatchlistItem)
      → count_user_rows u (update_item lib format r now items) ≡ count_user_rows u items
  unfolding count_user_rows update_item keep refresh_item
  count-update u r now [] = refl
  count-update u r now (w ∷ items) = ground (arith, count-update u r now items)

  count-append :
      (u : ℕ) (w : WatchlistItem) (items : List WatchlistItem)
      → count_user_rows u (items ++ w ∷ [])
        ≡ count_user_rows u items + (if w.user_id == u then 1 else 0)
  unfolding count_user_rows keep
  count-append u w [] = ground arith
  count-append u w (v ∷ items) = ground (arith, count-append u w items)

  appended-quota :
      (r : WatchRequest) (now u : ℕ) (items : List WatchlistItem)
      → count_user_rows r.user_id items < max_of r.max_items
      → count_user_rows u (items ++ new_item lib format r now ∷ [])
        ≤ max (max_of r.max_items) (count_user_rows u items)
  unfolding new_item
  appended-quota r now u items l = ground (arith, count-append u (new_item lib format r now) items)

  -- An upsert leaves nobody with more watched lots than the limit, unless there were more already,
  -- and it fails only for a lot that the user does not watch, when the limit is reached.
  pub upsert_watchlist-quota :
      (r : WatchRequest) (now : ℕ) (items : List WatchlistItem)
      → IsWithinQuota r items (upsert_watchlist lib format r now items)
  unfolding upsert_watchlist
  upsert_watchlist-quota r now items =
      elim (Option-cases (get_watchlist_item r.user_id r.ad_id items)) [
        | inr (w, e) ↦ rw (e, upsert_watchlist) (λ u. omega (arith, count-update u r now items))
        | inl n ↦ elim (Bool-cases (leb (max_of r.max_items) (count_user_rows r.user_id items))) [
          | inl full ↦ rw (n, full, upsert_watchlist) (n, ground arith)
          | inr free ↦
              rw (n, free, upsert_watchlist) (λ u. appended-quota r now u items (ground arith))
        ]
      ]

  updated_row :
      (u a : ℕ) (r : WatchRequest) (now : ℕ) (items : List WatchlistItem)
      → get_watchlist_item u a (update_item lib format r now items)
        ≡ elim (get_watchlist_item u a items) [
          | none ↦ none
          | some w ↦
              if r.user_id == u && r.ad_id == a
              then some (refresh_item lib format r now w)
              else some w
        ]
  unfolding get_watchlist_item update_item refresh_item
  updated_row u a r now [] = refl
  updated_row u a r now (w ∷ items) = ground (arith, updated_row u a r now items)

  appended_row :
      (u a : ℕ) (w : WatchlistItem) (items : List WatchlistItem)
      → get_watchlist_item u a (items ++ w ∷ []) ≡ elim (get_watchlist_item u a items) [
        | some v ↦ some v
        | none ↦ if w.user_id == u && w.ad_id == a then some w else none
      ]
  unfolding get_watchlist_item
  appended_row u a w [] = refl
  appended_row u a w (v ∷ items) = ground (arith, appended_row u a w items)

  -- When an upsert succeeds, the lot of the request is on the user's list: as a new item, or, if it was
  -- there, refreshed. Every other row stays as it is.
  pub get_watchlist_item-upsert :
      (u a : ℕ) (r : WatchRequest) (now : ℕ) (items after : List WatchlistItem)
      → upsert_watchlist lib format r now items ≡ some after
      → get_watchlist_item u a after ≡ (
          if r.user_id == u && r.ad_id == a
          then some (elim (get_watchlist_item u a items) [
            | none ↦ new_item lib format r now
            | some w ↦ refresh_item lib format r now w
          ])
          else get_watchlist_item u a items)
  unfolding upsert_watchlist new_item
  get_watchlist_item-upsert u a r now items after h =
      elim (Option-cases (get_watchlist_item r.user_id r.ad_id items)) [
        | inr (w, e) ↦ ground (arith, updated_row u a r now items)
        | inl n ↦ ground (arith, appended_row u a (new_item lib format r now) items)
      ]
