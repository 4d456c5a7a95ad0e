-- ===== src/History/Snapshots/Upserts.antt =====
-- What writing a snapshot keeps, of api/services/history_service.py.
use rafuk.Base.{
  ℕ, ◌≤◌, ◌==◌, String, Bool, true, false, ◌≡◌, refl, ap, sym, ◌∙◌, Option, none, some, List, [],
  ◌∷◌, leb, if◌then◌else◌, arith, Bool-cases, inl, inr,
}
use rafuk.Market.Ad.{Ad}
use rafuk.Market.Prices.{PriceStats, extract_prices, compute_price_stats}
use rafuk.History.Snapshots.{
  Snapshot, is_snapshot, snapshot_row, insert_on_conflict, upsert_atomic, replace_row,
  write_fallback, upsert_fallback, values_of, write_snapshot, upsert_query_snapshot,
}

-- How many prices the snapshot of a query and an hour stands on.
abbrev pub count_at : String → ℕ → List Snapshot → ℕ
count_at query at t = elim (snapshot_row query at t) [ none ↦ 0 | some s ↦ s.analyzed_count ]

-- The rows before the one that is written stay.
write-later :
    (o : Option Snapshot) (only_if_missing : Bool) (values s : Snapshot) (t : List Snapshot)
    → is_snapshot values.query values.snapshot_at s ≡ false
    → write_fallback o only_if_missing values (s ∷ t) ≡ (
      s ∷ (write_fallback o only_if_missing values t).0,
      (write_fallback o only_if_missing values t).1,
    )
unfolding write_fallback replace_row
write-later none only_if_missing values s t h = refl
write-later (some existing) only_if_missing values s t h = ground (arith, h)

write-here :
    (only_if_missing : Bool) (values s : Snapshot) (t : List Snapshot)
    → is_snapshot values.query values.snapshot_at s ≡ true
    → (if (if only_if_missing then false else leb s.analyzed_count values.analyzed_count)
        then (values ∷ t, true)
        else (s ∷ t, false))
      ≡ write_fallback (some s) only_if_missing values (s ∷ t)
unfolding write_fallback replace_row
write-here only_if_missing values s t h = ground (arith, h)

-- The conflict clause and the read before the write come to the same.
pub upsert-same :
    (only_if_missing : Bool) (values : Snapshot) (t : List Snapshot)
    → upsert_atomic only_if_missing values t ≡ upsert_fallback only_if_missing values t
unfolding upsert_atomic upsert_fallback insert_on_conflict snapshot_row write_fallback
upsert-same only_if_missing values [] = refl
upsert-same only_if_missing values (s ∷ t) =
    elim (Bool-cases (is_snapshot values.query values.snapshot_at s)) [
      | inl here ↦
          rw (here, insert_on_conflict, snapshot_row) (write-here only_if_missing values s t here)
      | inr later ↦
          let row = snapshot_row values.query values.snapshot_at t in
          let same =
            ap (λ (r : List Snapshot × Bool). (s ∷ r.0, r.1))
              (upsert-same only_if_missing values t) in
          rw (later, insert_on_conflict, snapshot_row)
            (same ∙ sym (write-later row only_if_missing values s t later))
    ]

count-insert :
    (q : String) (at : ℕ) (only_if_missing : Bool) (values : Snapshot) (t : List Snapshot)
    → count_at q at t ≤ count_at q at (upsert_atomic only_if_missing values t).0
unfolding upsert_atomic insert_on_conflict snapshot_row is_snapshot
count-insert q at only_if_missing values [] = omega arith
count-insert q at only_if_missing values (s ∷ t) =
    ground (arith, count-insert q at only_if_missing values t)

-- A guard that returns before the write.
guarded :
    (q : String) (at : ℕ) (t : List Snapshot) {a b : List Snapshot × Bool} (is_skipped : Bool)
    → count_at q at t ≤ count_at q at a.0
    → a ≡ b
    → (count_at q at t ≤ count_at q at (if is_skipped then (t, false) else a).0)
      × ((if is_skipped then (t, false) else a) ≡ (if is_skipped then (t, false) else b))
guarded q at t true h e = (omega arith, refl)
guarded q at t false h e = (h, e)

-- Writing a snapshot never leaves less: whatever the sample, the mode and the dialect, the snapshot of no
-- query and hour stands on fewer prices after than before, and both dialects write the same.
pub upsert_query_snapshot-keeps :
    (query : String) (ads : List Ad) (total_results bucket_at : ℕ) (only_if_missing : Bool)
    (t : List Snapshot) (q : String) (at : ℕ)
    → (count_at q at t
        ≤ count_at q at
            (upsert_query_snapshot query ads total_results bucket_at only_if_missing true t).0)
      × (upsert_query_snapshot query ads total_results bucket_at only_if_missing true t
          ≡ upsert_query_snapshot query ads total_results bucket_at only_if_missing false t)
unfolding upsert_query_snapshot write_snapshot
upsert_query_snapshot-keeps query ads total_results bucket_at only_if_missing t q at =
    write (compute_price_stats (extract_prices ads))
  where
    write :
        (stats : Option PriceStats)
        → (count_at q at t
            ≤ count_at q at
                (write_snapshot stats query total_results bucket_at only_if_missing true t).0)
          × (write_snapshot stats query total_results bucket_at only_if_missing true t
              ≡ write_snapshot stats query total_results bucket_at only_if_missing false t)
    write none = (omega arith, refl)
    write (some stats) =
        let values = values_of query total_results bucket_at stats in
        guarded q at t (stats.count == 0) (count-insert q at only_if_missing values t)
          (upsert-same only_if_missing values t)
