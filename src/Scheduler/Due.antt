-- ===== src/Scheduler/Due.antt =====
-- When trackers and deep scans are due: `tracker_is_due` and `deep_scan_is_due` of
-- scheduler/collector.py. Moments are microseconds; `crc32` is the hash of `zlib`.
use rafuk.Base.{
  ℕ, suc, ◌+◌, ◌*◌, ◌/◌, ◌%◌, ◌≤◌, ◌<◌, ◌==◌, Bool, true, false, not, ◌≡◌, String, Option, none,
  some, leb, max, arith, if◌then◌else◌, dec_lt, dec_le,
}
use rafuk.Base.Time.{second, minutes}
use rafuk.Tracker.Interval.{rounded_interval_min, rounded_interval_nearest}
use native.Mathlib.Nat.{div-add-mod, mod-lt}

-- `elapsed >= timedelta(minutes=cadence - check_interval_min / 2)`, doubled
unfoldable pub has_elapsed : ℕ → ℕ → ℕ → ℕ → Bool
has_elapsed cadence check last now = leb (2 * last + 2 * minutes cadence) (2 * now + minutes check)

unfoldable pub tracker_is_due : Option ℕ → Option ℕ → ℕ → ℕ → Bool
unfolding has_elapsed
tracker_is_due none last_checked_at check now = true
tracker_is_due (some interval) none check now = true
tracker_is_due (some interval) (some last) check now =
    if leb interval check
    then true
    else has_elapsed (rounded_interval_min interval check) check last now

-- The whole seconds of a moment.
unfoldable pub timestamp : ℕ → ℕ
timestamp moment = moment / second

-- `window`, with an offset in seconds
unfoldable pub window : ℕ → ℕ → ℕ → ℕ
unfolding timestamp
window seconds offset moment = (timestamp moment + offset) / seconds

-- `interval` is the whole seconds of the interval.
unfoldable pub deep_scan_is_due : (String → ℕ) → String → Option ℕ → ℕ → ℕ → Bool
unfolding window
deep_scan_is_due crc32 key none now interval = false
deep_scan_is_due crc32 key (some previous_check) now interval =
    let seconds = max interval 1 in
    let offset = crc32 key % seconds in
    not (window seconds offset now == window seconds offset previous_check)

multiple-le : (m n c : ℕ) → m ≤ n → m * c ≤ n * c
multiple-le m n c h = grind arith

multiple-lt : (m n c : ℕ) → n < m → n * c + c ≤ m * c
multiple-lt m n c h = grind arith

-- Runs that start up to half a check interval late do not shift the cadence: a tracker whose interval
-- is longer than the check interval, rounded to `m` of them, and which the run `i` checked is due
-- in the run `i + n` exactly if `n` is at least `m`.
pub tracker_is_due_iff :
    (interval check base late last_late n : ℕ)
    → 0 < check
    → check < interval
    → 2 * late < minutes check
    → 2 * last_late < minutes check
    → (m : ℕ) × (rounded_interval_min interval check ≡ m * check)
      × (tracker_is_due
            (some interval)
            (some (base + last_late))
            check
            (base + n * minutes check + late)
          ≡ leb m n)
unfolding tracker_is_due has_elapsed
tracker_is_due_iff interval check base late last_late n c h l k =
    let (m, e, _, _, _) = rounded_interval_nearest interval check c in
    (
      m,
      e,
      elim (dec_le m n) [
        | yes due ↦ rw e (ground (arith, multiple-le m n check due))
        | no early ↦ rw e (ground (arith, multiple-lt m n check (omega arith)))
      ],
    )

div_bounds : (a s : ℕ) → 0 < s → (a / s * s ≤ a) × (a < a / s * s + s)
div_bounds a s h =
    let split = div-add-mod a s in let rest : a % s < s = mod-lt a h in (grind arith, grind arith)

quotient_mono : (a b s : ℕ) → 0 < s → a ≤ b → a / s ≤ b / s
quotient_mono a b s h l =
    let (low, _) = div_bounds a s h in
    let (_, high) = div_bounds b s h in
    elim (dec_le (a / s) (b / s)) [
      | yes le ↦ le
      | no gt ↦ absurd (omega (arith, low, high, l, multiple-lt (a / s) (b / s) s (omega arith)))
    ]

far_apart : (a b s : ℕ) → 0 < s → a / s + 2 ≤ b / s → a + s < b
far_apart a b s h l =
    let (_, high) = div_bounds a s h in
    let (low, _) = div_bounds b s h in
    omega (arith, low, high, multiple-lt (b / s) (suc (a / s)) s (omega arith))

next_quotient : (a b s : ℕ) → 0 < s → a + s ≤ b → a / s < b / s
next_quotient a b s h l =
    let (low, _) = div_bounds a s h in
    let (_, high) = div_bounds b s h in
    elim (dec_lt (a / s) (b / s)) [
      | yes lt ↦ lt
      | no ge ↦ absurd (omega (arith, low, high, l, multiple-le (b / s) (a / s) s (omega arith)))
    ]

two_windows :
    (s o first middle last : ℕ)
    → 0 < s
    → first ≤ middle
    → middle ≤ last
    → not (window s o middle == window s o first) ≡ true
    → not (window s o last == window s o middle) ≡ true
    → timestamp first + s < timestamp last
unfolding window
two_windows s o first middle last h l k d e =
    let one =
      quotient_mono (timestamp first + o) (timestamp middle + o) s h
        (omega (arith, quotient_mono first middle 1_000_000 (omega arith) l)) in
    let two =
      quotient_mono (timestamp middle + o) (timestamp last + o) s h
        (omega (arith, quotient_mono middle last 1_000_000 (omega arith) k)) in
    let rise : (timestamp first + o) / s + 2 ≤ (timestamp last + o) / s =
      ground (arith, one, two) in
    omega (arith, far_apart (timestamp first + o) (timestamp last + o) s h rise)

-- Deep scans of one group are not close together: when two checks in a row, after a first one, both
-- scan deeply, more than the interval passes from the first check to the last, in whole seconds.
pub deep_scan-spacing :
    (crc32 : String → ℕ) (key : String) (first middle last interval : ℕ)
    → 0 < interval
    → first ≤ middle
    → middle ≤ last
    → deep_scan_is_due crc32 key (some first) middle interval ≡ true
    → deep_scan_is_due crc32 key (some middle) last interval ≡ true
    → timestamp first + interval < timestamp last
unfolding deep_scan_is_due
deep_scan-spacing crc32 key first middle last interval h l k d e =
    let s = max interval 1 in
    omega (arith, two_windows s (crc32 key % s) first middle last (omega arith) l k d e)

-- And none is missed: a check that starts at least the interval after the one before, in whole
-- seconds, scans deeply.
pub deep_scan-due :
    (crc32 : String → ℕ) (key : String) (previous now interval : ℕ)
    → 0 < interval
    → timestamp previous + interval ≤ timestamp now
    → deep_scan_is_due crc32 key (some previous) now interval ≡ true
unfolding deep_scan_is_due window
deep_scan-due crc32 key previous now interval h l =
    let s = max interval 1 in
    let o = crc32 key % s in
    let rise =
      next_quotient (timestamp previous + o) (timestamp now + o) s (omega arith) (omega arith) in
    ground (arith, rise)
