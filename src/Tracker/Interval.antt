-- ===== src/Tracker/Interval.antt =====
-- The cadence of a tracker: `effective_interval_min`, `rounded_interval_min` and
-- `real_check_interval_min` of api/services/tracker_service.py. Intervals are minutes.
use rafuk.Base.{
  ℕ, zero, suc, ◌%◌, ◌+◌, ◌*◌, ◌/◌, ◌≤◌, ◌<◌, ◌≡◌, Option, none, some, max, leb, arith,
  if◌then◌else◌, ◌⊎◌, inl, inr, dec_lt, Bool-cases,
}
use native.Mathlib.Nat.{div-add-mod, mod-lt}

-- `DEFAULT_TRACKER_INTERVAL_MIN`
abbrev pub default_interval : ℕ
default_interval = 15

pub effective_interval_min : Option ℕ → ℕ → ℕ
effective_interval_min requested alert_check_interval =
    max (elim requested [ none ↦ default_interval | some r ↦ r ]) alert_check_interval

unfoldable pub rounded_interval_min : ℕ → ℕ → ℕ
rounded_interval_min interval_min check_interval_min =
    if leb check_interval_min 0
    then interval_min
    else max 1 ((2 * interval_min + check_interval_min) / (2 * check_interval_min))
      * check_interval_min

unfoldable pub real_check_interval_min : Option ℕ → ℕ → ℕ
unfolding rounded_interval_min
real_check_interval_min interval_min alert_check_interval =
    let check_interval = max 1 alert_check_interval in
    elim interval_min [
      | none ↦ check_interval
      | some i ↦
          if leb i check_interval then check_interval else rounded_interval_min i check_interval
    ]

quotient_bounds :
    (i c : ℕ)
    → 0 < c
    → (2 * ((2 * i + c) / (2 * c) * c) ≤ 2 * i + c)
      × (2 * i + c < 2 * ((2 * i + c) / (2 * c) * c) + 2 * c)
quotient_bounds i c h = grind (arith, div-add-mod (2 * i + c) (2 * c), remainder)
  where
    positive : 0 < 2 * c
    positive = omega arith

    remainder : (2 * i + c) % (2 * c) < 2 * c
    remainder = mod-lt (2 * i + c) positive

near :
    (i c q : ℕ)
    → 0 < c
    → 2 * (q * c) ≤ 2 * i + c
    → 2 * i + c < 2 * (q * c) + 2 * c
    → (2 * i < 2 * (max 1 q * c) + c) × ((max 1 q ≡ 1) ⊎ (2 * (max 1 q * c) ≤ 2 * i + c))
near i c zero h low high = (omega arith, inl (omega arith))
near i c (suc q) h low high =
    let e : max 1 (suc q) ≡ suc q = omega arith in rw e (omega arith, inr low)

-- The rounded interval is `m` whole checks, at least one; the interval that was asked for is less
-- than half a check above it, and at most half a check below it unless `m` is 1.
pub rounded_interval_nearest :
    (i c : ℕ)
    → 0 < c
    → (m : ℕ) × (rounded_interval_min i c ≡ m * c)
      × (1 ≤ m)
      × (2 * i < 2 * rounded_interval_min i c + c)
      × ((m ≡ 1) ⊎ (2 * rounded_interval_min i c ≤ 2 * i + c))
unfolding rounded_interval_min
rounded_interval_nearest i c h =
    let (low, high) = quotient_bounds i c h in
    let (below, above) = near i c ((2 * i + c) / (2 * c)) h low high in
    (max 1 ((2 * i + c) / (2 * c)), ground arith, omega arith, ground arith, ground arith)

above_multiple : (q m c : ℕ) → m < q → m * c + c ≤ q * c
above_multiple q m c h = grind arith

between_multiples :
    (q m c : ℕ)
    → 0 < c
    → 2 * (q * c) ≤ 2 * (m * c) + c
    → 2 * (m * c) + c < 2 * (q * c) + 2 * c
    → q ≡ m
between_multiples q m c h low high = elim (dec_lt q m) [
  | yes below ↦ absurd (omega (arith, above_multiple m q c below))
  | no least ↦ elim (dec_lt m q) [
    | yes above ↦ absurd (omega (arith, above_multiple q m c above))
    | no most ↦ omega arith
  ]
]

rounded_multiple : (m c : ℕ) → 0 < c → 1 ≤ m → rounded_interval_min (m * c) c ≡ m * c
unfolding rounded_interval_min
rounded_multiple m c h p =
    let (low, high) = quotient_bounds (m * c) c h in
    ground (arith, between_multiples ((2 * (m * c) + c) / (2 * c)) m c h low high)

at_least_one : (m c : ℕ) → 1 ≤ m → c ≤ m * c
at_least_one m c p = grind arith

-- A whole number of checks is a real cadence.
real_multiple :
    (x m check : ℕ) → x ≡ m * max 1 check → 1 ≤ m → real_check_interval_min (some x) check ≡ x
unfolding real_check_interval_min
real_multiple x m check e p =
    let c = max 1 check in
    rw e (ground (arith, at_least_one m c p, rounded_multiple m c (omega arith) p))

real-is_multiple :
    (interval_min : Option ℕ) (check : ℕ)
    → (m : ℕ) × (real_check_interval_min interval_min check ≡ m * max 1 check) × (1 ≤ m)
unfolding real_check_interval_min
real-is_multiple none check = (1, omega arith, omega arith)
real-is_multiple (some i) check = elim (Bool-cases (leb i (max 1 check))) [
  | inl short ↦ (1, rw short (omega arith), omega arith)
  | inr long ↦
      let (m, e, p, _, _) = rounded_interval_nearest i (max 1 check) (omega arith) in
      (m, rw long e, p)
]

-- The cadence that the Mini App shows is one that is kept: a tracker that stores it is checked at it.
pub real_check_interval_idem :
    (interval_min : Option ℕ) (check : ℕ)
    → real_check_interval_min (some (real_check_interval_min interval_min check)) check
      ≡ real_check_interval_min interval_min check
real_check_interval_idem interval_min check =
    let (m, e, p) = real-is_multiple interval_min check in
    real_multiple (real_check_interval_min interval_min check) m check e p
