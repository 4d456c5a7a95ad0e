-- ===== src/Market/Deals/Order.antt =====
-- What sorting listings keeps, of api/services/aggregator.py.
use rafuk.Base.{
  ℕ, ◌+◌, ◌-◌, ◌*◌, ◌≤◌, ◌≢◌, String, str_dec, Bool, true, false, ◌≡◌, refl, Option, none, some,
  List, [], ◌∷◌, ◌++◌, map, All, arith, Option-cases, inl, inr,
}
use rafuk.Market.TextLib.{TextLib}
use rafuk.Market.Ad.{Ad}
use rafuk.Market.Params.{parse_list_time}
use rafuk.Market.Deals.Sorting.{
  count_of, IsOrdered, IsOrdered-weaker, count-sort_by, All-sort_by, sort_by-IsSorted,
}
use rafuk.Market.Score.Rank.{percent_mono}
use rafuk.Market.Deals.{
  ad_price_byn, sort_by, Sort, cheap, price_asc, price_desc, near_median, newest, sort_named,
  price_before, priced, unpriced, time_before, sort_priced, sort_as, sort_listings,
}

price_before_total :
    (order : Sort) (median p q : ℕ)
    → price_before order median p q ≡ false
    → price_before order median q p ≡ true
unfolding price_before
price_before_total cheap median p q h = ground arith
price_before_total price_asc median p q h = ground arith
price_before_total price_desc median p q h = ground arith
price_before_total near_median median p q h = ground arith
price_before_total newest median p q h = refl

price_before_trans :
    (order : Sort) (median p q r : ℕ)
    → price_before order median p q ≡ true
    → price_before order median q r ≡ true
    → price_before order median p r ≡ true
unfolding price_before
price_before_trans cheap median p q r h k = ground arith
price_before_trans price_asc median p q r h k = ground arith
price_before_trans price_desc median p q r h k = ground arith
price_before_trans near_median median p q r h k = ground arith
price_before_trans newest median p q r h k = refl

time_before_total :
    (lib : TextLib) (a b : Ad) → time_before lib a b ≡ false → time_before lib b a ≡ true
unfolding time_before
time_before_total lib a b h = ground arith

time_before_trans :
    (lib : TextLib) (a b c : Ad)
    → time_before lib a b ≡ true
    → time_before lib b c ≡ true
    → time_before lib a c ≡ true
unfolding time_before
time_before_trans lib a b c h k = ground arith

priced-All : (ads : List Ad) → All (λ p. ad_price_byn p.0 ≡ some p.1) (priced ads)
unfolding priced
priced-All [] = tt
priced-All (ad ∷ ads) = elim (Option-cases (ad_price_byn ad)) [
  | inl e ↦ rw (e, priced) (priced-All ads)
  | inr (p, e) ↦ rw (e, priced) (e, priced-All ads)
]

unpriced-All : (ads : List Ad) → All (λ ad. ad_price_byn ad ≡ none) (unpriced ads)
unfolding unpriced
unpriced-All [] = tt
unpriced-All (ad ∷ ads) = elim (Option-cases (ad_price_byn ad)) [
  | inl e ↦ rw (e, unpriced) (e, unpriced-All ads)
  | inr (p, e) ↦ rw (e, unpriced) (unpriced-All ads)
]

count-append_unpriced :
    (t : Ad → Bool) (ps : List (Ad × ℕ)) (rest : List Ad)
    → count_of t (map (λ p. p.0) ps ++ rest) ≡ count_of (λ (p : Ad × ℕ). t p.0) ps + count_of t rest
unfolding count_of
count-append_unpriced t [] rest = omega arith
count-append_unpriced t (p ∷ ps) rest = ground (arith, count-append_unpriced t ps rest)

count-priced :
    (t : Ad → Bool) (ads : List Ad)
    → count_of (λ (p : Ad × ℕ). t p.0) (priced ads) + count_of t (unpriced ads) ≡ count_of t ads
unfolding count_of priced unpriced
count-priced t [] = omega arith
count-priced t (ad ∷ ads) = ground (arith, count-priced t ads)

-- How the price of an earlier listing stands to that of a later one. `median` is twice the median.
abbrev pub StandsBefore : Sort → ℕ → ℕ → ℕ → Type 0
StandsBefore cheap median p q = p ≤ q
StandsBefore price_asc median p q = p ≤ q
StandsBefore price_desc median p q = q ≤ p
StandsBefore near_median median p q =
    (2 * p - median) + (median - 2 * p) ≤ (2 * q - median) + (median - 2 * q)
StandsBefore newest median p q = Unit

price_before-StandsBefore :
    (order : Sort) (median p q : ℕ)
    → price_before order median p q ≡ true
    → StandsBefore order median p q
unfolding price_before
price_before-StandsBefore cheap median p q h = ground (arith, percent_mono q p median)
price_before-StandsBefore price_asc median p q h = ground arith
price_before-StandsBefore price_desc median p q h = ground arith
price_before-StandsBefore near_median median p q h = ground arith
price_before-StandsBefore newest median p q h = tt

-- The time of an earlier listing and that of a later one.
abbrev pub IsNewer : Option ℕ → Option ℕ → Type 0
IsNewer (some a) (some b) = b ≤ a
IsNewer (some a) none = Unit
IsNewer none (some b) = ⊥
IsNewer none none = Unit

time_before-IsNewer :
    (lib : TextLib) (a b : Ad)
    → time_before lib a b ≡ true
    → IsNewer (parse_list_time lib a.list_time) (parse_list_time lib b.list_time)
unfolding time_before
time_before-IsNewer lib a b h = elim (Option-cases (parse_list_time lib a.list_time)) [
  | inl na ↦ elim (Option-cases (parse_list_time lib b.list_time)) [
    | inl nb ↦ rw (na, nb) tt
    | inr (t, eb) ↦ rw (na, eb) (absurd (ground (arith, na, eb, h)))
  ]
  | inr (s, ea) ↦ elim (Option-cases (parse_list_time lib b.list_time)) [
    | inl nb ↦ rw (ea, nb) tt
    | inr (t, eb) ↦ rw (ea, eb) (ground (arith, ea, eb, h))
  ]
]

-- Listings with a price, in the order of their prices, and then those without one.
abbrev pub IsByPrice : Sort → ℕ → List Ad → Type 0
IsByPrice order median ads =
    (ps : List (Ad × ℕ)) × (rest : List Ad) × (ads ≡ map (λ p. p.0) ps ++ rest)
    × All (λ p. ad_price_byn p.0 ≡ some p.1) ps
    × All (λ ad. ad_price_byn ad ≡ none) rest
    × IsOrdered (λ (a b : Ad × ℕ). StandsBefore order median a.1 b.1) ps

abbrev pub IsListed : TextLib → Sort → ℕ → List Ad → Type 0
IsListed lib newest median ads =
    IsOrdered (λ a b. IsNewer (parse_list_time lib a.list_time) (parse_list_time lib b.list_time))
      ads
IsListed lib cheap median ads = IsByPrice cheap median ads
IsListed lib price_asc median ads = IsByPrice price_asc median ads
IsListed lib price_desc median ads = IsByPrice price_desc median ads
IsListed lib near_median median ads = IsByPrice near_median median ads

-- What a caller writes for an order: its name, and any other text for the newest first.
abbrev pub IsNamed : String → Sort → Type 0
IsNamed name cheap = name ≡ "cheap"
IsNamed name price_asc = name ≡ "price_asc"
IsNamed name price_desc = name ≡ "price_desc"
IsNamed name near_median = name ≡ "near_median"
IsNamed name newest =
    (name ≢ "cheap") × (name ≢ "price_asc") × (name ≢ "price_desc") × (name ≢ "near_median")

named : (name : String) (order : Sort) → IsNamed name order → sort_named name ≡ order
unfolding sort_named str_dec
named name cheap e = rw e refl
named name price_asc e = rw e refl
named name price_desc e = rw e refl
named name near_median e = rw e refl
named name newest (a, b, c, d) = ground (arith, a, b, c, d)

by_price :
    (order : Sort) (median : ℕ) (ads : List Ad)
    → ((t : Ad → Bool)
        → count_of t (map (λ p. p.0) (sort_priced order median ads) ++ unpriced ads)
          ≡ count_of t ads)
      × IsByPrice order median (map (λ p. p.0) (sort_priced order median ads) ++ unpriced ads)
unfolding sort_priced
by_price order median ads =
    let before = λ (a b : Ad × ℕ). price_before order median a.1 b.1 in
    (
      λ t. omega (
        arith,
        count-append_unpriced t (sort_priced order median ads) (unpriced ads),
        count-sort_by before (λ p. t p.0) (priced ads),
        count-priced t ads,
      ),
      (
        sort_priced order median ads,
        unpriced ads,
        refl,
        All-sort_by before (λ p. ad_price_byn p.0 ≡ some p.1) (priced ads) (priced-All ads),
        unpriced-All ads,
        IsOrdered-weaker (λ a b. price_before-StandsBefore order median a.1 b.1)
            (sort_priced order median ads)
            (sort_by-IsSorted before (λ a b. price_before_total order median a.1 b.1)
              (λ a b c. price_before_trans order median a.1 b.1 c.1) (priced ads)),
      ),
    )

sort_as-IsListed :
    (lib : TextLib) (order : Sort) (ads : List Ad) (median : ℕ)
    → ((t : Ad → Bool) → count_of t (sort_as lib order ads median) ≡ count_of t ads)
      × IsListed lib order median (sort_as lib order ads median)
unfolding sort_as
sort_as-IsListed lib newest ads median = (
  λ t. count-sort_by (time_before lib) t ads,
  IsOrdered-weaker (time_before-IsNewer lib) (sort_by (time_before lib) ads)
      (sort_by-IsSorted (time_before lib) (time_before_total lib) (time_before_trans lib) ads),
)
sort_as-IsListed lib cheap ads median = by_price cheap median ads
sort_as-IsListed lib price_asc ads median = by_price price_asc median ads
sort_as-IsListed lib price_desc ads median = by_price price_desc median ads
sort_as-IsListed lib near_median ads median = by_price near_median median ads

-- Sorting listings only moves them. By the name cheap or price_asc, no listing stands before a cheaper
-- one, by price_desc before a dearer one, and by near_median before one whose price is nearer to the
-- median, with the listings without a price at the end; by any other name, none stands before a newer
-- one, with those of unknown time at the end.
pub sort_listings-IsListed :
    (lib : TextLib) (ads : List Ad) (name : String) (order : Sort) (median : ℕ)
    → IsNamed name order
    → ((t : Ad → Bool) → count_of t (sort_listings lib ads name median) ≡ count_of t ads)
      × IsListed lib order median (sort_listings lib ads name median)
unfolding sort_listings
sort_listings-IsListed lib ads name order median h =
    rw (named name order h) (sort_as-IsListed lib order ads median)
