-- ===== src/Scheduler/Run/Once.antt =====
-- No listing is new twice, of scheduler/collector.py.
use rafuk.Base.{
  ℕ, String, Bool, true, false, ◌≡◌, sym, ap, ◌∙◌, false≢true, Option, List, [], ◌∷◌, ◌++◌, has,
  All, str_dec, if◌then◌else◌, arith, Bool-cases, inl, inr,
}
use rafuk.Market.TextLib.{TextLib}
use rafuk.Market.Ad.{Ad}
use rafuk.Tracker.{Tracker}
use rafuk.History.Table.{Table}
use rafuk.History.Lookup.{IsUnique}
use rafuk.History.Known.{is_known, is_some, mark_query_baseline, mark-known}
use rafuk.History.Sync.{default_threshold, sync}
use rafuk.History.Sync.Rows.{row-sync}
use rafuk.History.Sync.Stability.{row-sync_other}
use rafuk.Scheduler.Groups.{TrackerGroup, is_due, load_tracker_groups}
use rafuk.Market.Prices.{PriceStats}
use rafuk.Scheduler.Fetch.{Page, FetchedSample}
use rafuk.Scheduler.Process.{Store, OutgoingAlert, marked_if, remember, write_group, process_group}
use rafuk.Scheduler.Process.Reports.{
  news, finish_group-cases, process_group-AreNew, process_group-IsUnique,
}
use rafuk.Scheduler.Alerts.{Sender}
use rafuk.Scheduler.Run.{Surroundings, Log, check_group, check_groups, check_trackers, check_all}

sync-known_same :
    (key : String) (now : ℕ) (ads : List Ad) (t : Table) (j : ℕ)
    → IsUnique t
    → is_known t key j ≡ true
    → is_known (sync default_threshold key ads now t).0 key j ≡ true
sync-known_same key now ads t j u h = ground (arith, row-sync default_threshold key now ads t j u)

-- What is known stays known.
sync-known :
    (key : String) (now : ℕ) (ads : List Ad) (t : Table) (q : String) (j : ℕ)
    → IsUnique t
    → is_known t q j ≡ true
    → is_known (sync default_threshold key ads now t).0 q j ≡ true
sync-known key now ads t q j u h = elim (str_dec q key) [
  | yes e ↦
      ap (λ k. is_known (sync default_threshold key ads now t).0 k j) e
      ∙ sync-known_same key now ads t j u (sym (ap (λ k. is_known t k j) e) ∙ h)
  | no n ↦ ap is_some (row-sync_other default_threshold key now q j ads t n u) ∙ h
]

marked-known :
    (ads : List Ad) (baseline : Bool) (key : String) (now : ℕ) (t : Table) (q : String) (j : ℕ)
    → is_known t q j ≡ true
    → is_known (marked_if ads baseline (mark_query_baseline key now t) t) q j ≡ true
unfolding marked_if
marked-known [] true key now t q j h = mark-known key now t q j h
marked-known [] false key now t q j h = h
marked-known (ad ∷ ads) baseline key now t q j h = h

module _ (lib : TextLib) (crc32 : String → ℕ) where
  write_group-known :
      (group : TrackerGroup) (baseline : Bool) (sample : FetchedSample) (checked_at observed_at : ℕ)
      (stats : PriceStats) (db : Store) (q : String) (j : ℕ)
      → IsUnique db.states
      → is_known db.states q j ≡ true
      → is_known
          (write_group lib group baseline sample checked_at observed_at stats db).0.states
          q
          j
        ≡ true
  unfolding write_group remember
  write_group-known group baseline sample checked_at observed_at stats db q j u h =
      let t = (sync default_threshold group.key sample.ads observed_at db.states).0 in
      marked-known sample.ads baseline group.key observed_at t q j
        (sync-known group.key observed_at sample.ads db.states q j u h)

  process_group-known :
      (group : TrackerGroup) (client : ℕ → Option String → Option Page) (checked_at observed_at : ℕ)
      (db : Store) (q : String) (j : ℕ)
      → IsUnique db.states
      → is_known db.states q j ≡ true
      → is_known (process_group lib crc32 group client checked_at observed_at db).0.states q j
        ≡ true
  unfolding process_group
  process_group-known group client checked_at observed_at db q j u h =
      finish_group-cases lib group (λ done. is_known done.0.states q j ≡ true) _ _ checked_at
        observed_at db h
        (λ sample stats. write_group-known group _ sample checked_at observed_at stats db q j u h)

-- The later checks of a query do not call a listing new.
abbrev pub IsOld : String → ℕ → Log → Type 0
IsOld q j [] = Unit
IsOld q j ((key, alerts) ∷ log) =
    (key ≡ q → All (λ b. has j (news b) ≡ false) alerts) × IsOld q j log

-- What the alerts of one check call new, no alert of a later check of the query calls new again.
abbrev pub IsOnce : Log → Type 0
IsOnce [] = Unit
IsOnce ((key, alerts) ∷ log) =
    All (λ a. (j : ℕ) → has j (news a) ≡ true → IsOld key j log) alerts × IsOnce log

-- At the end, what the alerts call new is known.
abbrev IsRemembered : Table → Log → Type 0
IsRemembered t [] = Unit
IsRemembered t ((key, alerts) ∷ log) =
    All (λ a. (j : ℕ) → has j (news a) ≡ true → is_known t key j ≡ true) alerts × IsRemembered t log

if_both : {A : Type 0} (Q : A → Type 0) (b : Bool) (x y : A) → Q x → Q y → Q (if b then x else y)
if_both Q true x y h k = h
if_both Q false x y h k = k

fresh :
    (t u : Table) (key q : String) (j : ℕ) (alerts : List OutgoingAlert)
    → All
        (λ a.
          (i : ℕ) → has i (news a) ≡ true → (is_known t key i ≡ false) × (is_known u key i ≡ true))
        alerts
    → is_known t q j ≡ true
    → key ≡ q
    → All (λ b. has j (news b) ≡ false) alerts
fresh t u key q j [] h k e = tt
fresh t u key q j (b ∷ alerts) h k e = (
  elim (Bool-cases (has j (news b))) [
    | inl new ↦ absurd (false≢true (sym (h.0 j new).0 ∙ ap (λ s. is_known t s j) e ∙ k))
    | inr not_new ↦ not_new
  ],
  fresh t u key q j alerts h.1 k e,
)

All-news_map :
    (P Q : ℕ → Type 0) (alerts : List OutgoingAlert)
    → ((j : ℕ) → P j → Q j)
    → All (λ a. (j : ℕ) → has j (news a) ≡ true → P j) alerts
    → All (λ a. (j : ℕ) → has j (news a) ≡ true → Q j) alerts
All-news_map P Q [] f h = tt
All-news_map P Q (a ∷ alerts) f h = (λ j e. f j (h.0 j e), All-news_map P Q alerts f h.1)

module _ (lib : TextLib) (crc32 : String → ℕ) (s : Surroundings) where
  after : TrackerGroup → Store × Sender → Store × Sender
  after group state = (check_group lib crc32 s group state).0

  after-IsUnique :
      (group : TrackerGroup) (state : Store × Sender)
      → IsUnique state.0.states
      → IsUnique (after group state).0.states
  unfolding after check_group
  after-IsUnique group (db, sender) u =
      process_group-IsUnique lib group crc32 (s.kufar group.key) s.started_at
        (s.observed_at group.key) db u

  after-known :
      (group : TrackerGroup) (state : Store × Sender) (q : String) (j : ℕ)
      → IsUnique state.0.states
      → is_known state.0.states q j ≡ true
      → is_known (after group state).0.states q j ≡ true
  unfolding after check_group
  after-known group (db, sender) q j u h =
      process_group-known lib crc32 group (s.kufar group.key) s.started_at (s.observed_at group.key)
        db q j u h

  check-AreNew :
      (group : TrackerGroup) (state : Store × Sender)
      → IsUnique state.0.states
      → All
          (λ a.
            (j : ℕ)
            → has j (news a) ≡ true
            → (is_known state.0.states group.key j ≡ false)
              × (is_known (after group state).0.states group.key j ≡ true))
          (check_group lib crc32 s group state).1
  unfolding after check_group
  check-AreNew group (db, sender) u =
      process_group-AreNew lib group crc32 (s.kufar group.key) s.started_at
        (s.observed_at group.key) db u

  -- What holds of a run over groups: the table stays unique, what is known stays known, no listing that is
  -- known is called new, what is called new is known, and that only once.
  record IsGood (state : Store × Sender) (done : (Store × Sender) × Log) : Type 0 where
    pub unique : IsUnique done.0.0.states
    pub known :
        (q : String) (j : ℕ)
        → is_known state.0.states q j ≡ true
        → is_known done.0.0.states q j ≡ true
    pub old : (q : String) (j : ℕ) → is_known state.0.states q j ≡ true → IsOld q j done.1
    pub remembered : IsRemembered done.0.0.states done.1
    pub once : IsOnce done.1

  check_groups-IsGood :
      (groups : List TrackerGroup) (state : Store × Sender)
      → IsUnique state.0.states
      → IsGood state (check_groups lib crc32 s groups state)
  unfolding check_groups after
  check_groups-IsGood [] state u = record {
    unique = u;
    known = λ q j h. h;
    old = λ q j h. tt;
    remembered = tt;
    once = tt;
  }
  check_groups-IsGood (group ∷ groups) state u =
      let new = check-AreNew group state u in
      let next = after group state in
      let unique = after-IsUnique group state u in
      let rest = check_groups-IsGood groups next unique in
      if_both (IsGood state) (is_due group s.check_interval s.started_at) _ _
        (record {
          unique = rest.unique;
          known = λ q j h. rest.known q j (after-known group state q j u h);
          old = λ q j h. (
            fresh state.0.states next.0.states group.key q j _ new h,
            rest.old q j (after-known group state q j u h),
          );
          remembered =
              (All-news_map _ _ _ (λ j k. rest.known group.key j k.1) new, rest.remembered);
          once = (All-news_map _ _ _ (λ j k. rest.old group.key j k.1) new, rest.once);
        })
        (check_groups-IsGood groups state u)

IsOld-append :
    (q : String) (j : ℕ) (xs ys : Log) → IsOld q j xs → IsOld q j ys → IsOld q j (xs ++ ys)
IsOld-append q j [] ys h k = k
IsOld-append q j (x ∷ xs) ys h k = (h.0, IsOld-append q j xs ys h.1 k)

-- What is known at the end of the first part is not called new in the second.
IsOnce-append :
    (t : Table) (xs ys : Log)
    → IsOnce xs
    → IsRemembered t xs
    → IsOnce ys
    → ((q : String) (j : ℕ) → is_known t q j ≡ true → IsOld q j ys)
    → IsOnce (xs ++ ys)
IsOnce-append t [] ys h r k old = k
IsOnce-append t ((key, alerts) ∷ xs) ys h r k old =
    (both alerts h.0 r.0, IsOnce-append t xs ys h.1 r.1 k old)
  where
    both :
        (as_sent : List OutgoingAlert)
        → All (λ a. (j : ℕ) → has j (news a) ≡ true → IsOld key j xs) as_sent
        → All (λ a. (j : ℕ) → has j (news a) ≡ true → is_known t key j ≡ true) as_sent
        → All (λ a. (j : ℕ) → has j (news a) ≡ true → IsOld key j (xs ++ ys)) as_sent
    both [] h r = tt
    both (a ∷ as_sent) h r =
        (λ j e. IsOld-append key j xs ys (h.0 j e) (old key j (r.0 j e)), both as_sent h.1 r.1)

module _ (lib : TextLib) (crc32 : String → ℕ) where
  check_all-IsOld :
      (runs : List (Surroundings × List Tracker)) (db : Store) (q : String) (j : ℕ)
      → IsUnique db.states
      → is_known db.states q j ≡ true
      → IsOld q j (check_all lib crc32 runs db).1
  unfolding check_all check_trackers
  check_all-IsOld [] db q j u h = tt
  check_all-IsOld ((s, trackers) ∷ runs) db q j u h =
      let one = check_groups-IsGood lib crc32 s (load_tracker_groups lib trackers) _ u in
      IsOld-append q j _ _ (one.old q j h) (check_all-IsOld runs _ q j one.unique (one.known q j h))

  -- Over any sequence of runs without a cleanup, whatever Kufar and Telegram answer, and however users change
  -- their trackers in between, from a table without two rows of a query and a listing: what an alert calls new, no alert of a later check of the same query calls new again.
  pub check_all-IsOnce :
      (runs : List (Surroundings × List Tracker)) (db : Store)
      → IsUnique db.states
      → IsOnce (check_all lib crc32 runs db).1
  unfolding check_all check_trackers
  check_all-IsOnce [] db u = tt
  check_all-IsOnce ((s, trackers) ∷ runs) db u =
      let one = check_groups-IsGood lib crc32 s (load_tracker_groups lib trackers) _ u in
      IsOnce-append _ _ _ one.once one.remembered (check_all-IsOnce runs _ one.unique)
        (λ q j h. check_all-IsOld runs _ q j one.unique h)
