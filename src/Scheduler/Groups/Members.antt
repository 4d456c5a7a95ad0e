-- ===== src/Scheduler/Groups/Members.antt =====
-- Which trackers stand in which group.
use mathlib.Core.List.{append_assoc, append-nil}
use rafuk.Base.{
  ℕ, ◌++◌, String, Bool, true, false, ◌&&◌, ◌≡◌, refl, sym, ite, Option, none, some, List, [], ◌∷◌,
  keep, str_dec, arith, Option-cases, Bool-cases, inl, inr,
}
use rafuk.Base.OrderedDict.{find, assign, find-assign}
use rafuk.Market.TextLib.{TextLib}
use rafuk.Market.Query.{build_query_key, normalize_search_text}
use rafuk.Tracker.{Tracker}
use rafuk.Scheduler.Groups.{
  TrackerGroup, key_of, has_query, join_group, group_for, group_trackers, load_tracker_groups,
  values, ids_of, schedules_of, new_group,
}

-- The group of a key, the trackers in it, and their schedules.
unfoldable pub the_group : String → List TrackerGroup → Option TrackerGroup
the_group key [] = none
the_group key (g ∷ groups) = ite (str_dec g.key key) (some g) (the_group key groups)

abbrev pub members : Option TrackerGroup → List ℕ
members none = []
members (some g) = g.tracker_ids

abbrev pub plan : Option TrackerGroup → List (Option ℕ × Option ℕ)
plan none = []
plan (some g) = g.schedules

-- Active, with a query that is not blank, and of the key.
unfoldable pub is_member : TextLib → String → Tracker → Bool
is_member lib key t =
    t.active
    && (ite (str_dec (lib.strip (normalize_search_text lib t.query)) "") false true
        && ite (str_dec (build_query_key lib t.query t.strict_mode) key) true false)

-- Every group is stored under its key.
abbrev AreKeyed : List (String × TrackerGroup) → Type 0
AreKeyed [] = Unit
AreKeyed ((key, g) ∷ groups) = (g.key ≡ key) × AreKeyed groups

the_group-values :
    (key : String) (groups : List (String × TrackerGroup))
    → AreKeyed groups
    → the_group key (values groups) ≡ find str_dec key groups
unfolding the_group values find
the_group-values key [] h = refl
the_group-values key ((j, g) ∷ groups) h = ground (arith, the_group-values key groups)

assign-AreKeyed :
    (key : String) (g : TrackerGroup) (groups : List (String × TrackerGroup))
    → g.key ≡ key
    → AreKeyed groups
    → AreKeyed (assign str_dec key g groups)
unfolding assign
assign-AreKeyed key g [] e h = (e, tt)
assign-AreKeyed key g ((j, f) ∷ groups) e h = ground (arith, assign-AreKeyed key g groups)

find-AreKeyed :
    (key : String) (g : TrackerGroup) (groups : List (String × TrackerGroup))
    → AreKeyed groups
    → find str_dec key groups ≡ some g
    → g.key ≡ key
unfolding find
find-AreKeyed key g [] h f = absurd cc
find-AreKeyed key g ((j, f') ∷ groups) h f = ground (arith, find-AreKeyed key g groups)

module _ (lib : TextLib) where
  member_of :
      (key : String) (t : Tracker)
      → is_member lib key t ≡ (has_query lib t && ite (str_dec (key_of lib t) key) true false)
  unfolding is_member has_query key_of
  member_of key t = ground arith

  joined_key :
      (t : Tracker) (groups : List (String × TrackerGroup))
      → AreKeyed groups
      → (join_group t (group_for lib t (find str_dec (key_of lib t) groups))).key ≡ key_of lib t
  unfolding join_group group_for new_group
  joined_key t groups h = elim (Option-cases (find str_dec (key_of lib t) groups)) [
    | inl n ↦ rw n refl
    | inr (g, e) ↦ rw e (find-AreKeyed (key_of lib t) g groups h e)
  ]

  joined :
      (key : String) (t : Tracker) (groups : List (String × TrackerGroup))
      → let g = join_group t (group_for lib t (find str_dec (key_of lib t) groups)) in
        let after = find str_dec key (assign str_dec (key_of lib t) g groups) in
        let before = find str_dec key groups in
        (members after
          ≡ ite (str_dec (key_of lib t) key) (members before ++ t.id ∷ []) (members before))
        × (plan after
            ≡ ite
                (str_dec (key_of lib t) key)
                (plan before ++ (some t.interval_min, t.last_checked_at) ∷ [])
                (plan before))
  unfolding join_group group_for new_group
  joined key t groups =
      let g = join_group t (group_for lib t (find str_dec (key_of lib t) groups)) in
      ground (arith, find-assign str_dec (key_of lib t) key g groups)

  grouped :
      (key : String) (trackers : List Tracker) (groups : List (String × TrackerGroup))
      → AreKeyed groups
      → (members (the_group key (values (group_trackers lib trackers groups)))
          ≡ members (find str_dec key groups) ++ ids_of (keep (is_member lib key) trackers))
        × (plan (the_group key (values (group_trackers lib trackers groups)))
            ≡ plan (find str_dec key groups) ++ schedules_of (keep (is_member lib key) trackers))
  unfolding group_trackers keep
  grouped key [] groups h =
      let f = find str_dec key groups in
      rw (the_group-values key groups h) (sym (append-nil (members f)), sym (append-nil (plan f)))
  grouped key (t ∷ trackers) groups h = elim (Bool-cases (has_query lib t)) [
    | inr skipped ↦ rw (member_of key t, skipped) (grouped key trackers groups h)
    | inl taken ↦
        let g = join_group t (group_for lib t (find str_dec (key_of lib t) groups)) in
        let (ids, schedules) =
          grouped key trackers (assign str_dec (key_of lib t) g groups)
            (assign-AreKeyed (key_of lib t) g groups (joined_key t groups h) h) in
        let (one, two) = joined key t groups in
        let f = find str_dec key groups in
        let rest = keep (is_member lib key) trackers in
        let next : Option ℕ × Option ℕ = (some t.interval_min, t.last_checked_at) in
        ground (
          arith,
          member_of key t,
          ids,
          schedules,
          one,
          two,
          append_assoc (members f) (t.id ∷ []) (ids_of rest),
          append_assoc (plan f) (next ∷ []) (schedules_of rest),
        )
  ]

  -- The group of a query key has exactly the active trackers of this key whose query is not empty, in
  -- the order of the table, each with its schedule; a key that none of them has gets no members.
  pub load_tracker_groups-members :
      (key : String) (trackers : List Tracker)
      → (members (the_group key (load_tracker_groups lib trackers))
          ≡ ids_of (keep (is_member lib key) trackers))
        × (plan (the_group key (load_tracker_groups lib trackers))
            ≡ schedules_of (keep (is_member lib key) trackers))
  unfolding load_tracker_groups find
  load_tracker_groups-members key trackers = grouped key trackers [] tt
