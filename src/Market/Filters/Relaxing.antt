-- ===== src/Market/Filters/Relaxing.antt =====
-- Filters that ask for less, of api/services/reseller_tools.py.
use rafuk.Base.{
  ℕ, ◌≤◌, String, Bool, true, false, not, ◌&&◌, ◌≡◌, refl, ap, sym, ◌∙◌, Option, none, some, ltb,
  if◌then◌else◌, arith,
}
use rafuk.Market.TextLib.{TextLib}
use rafuk.Market.Ad.{Ad, normalize_price_byn}
use rafuk.Market.Prices.{PriceStats}
use rafuk.Tracker.{Filters}
use rafuk.Market.Filters.{
  is_too_dear, is_too_small, rejects, lacks_keyword, seller_type_matches, condition_matches,
  region_matches, matches_tracker_filters,
}

-- The second filter is the first or is not set.
abbrev pub IsSameOrUnset : Option String → Option String → Type 0
IsSameOrUnset f none = Unit
IsSameOrUnset f (some value) = f ≡ some value

-- The second limit is higher, or is not set.
abbrev pub IsHigherOrUnset : Option ℕ → Option ℕ → Type 0
IsHigherOrUnset f none = Unit
IsHigherOrUnset none (some limit) = ⊥
IsHigherOrUnset (some least) (some limit) = least ≤ limit

abbrev pub IsLowerOrUnset : Option ℕ → Option ℕ → Type 0
IsLowerOrUnset f none = Unit
IsLowerOrUnset none (some limit) = ⊥
IsLowerOrUnset (some most) (some limit) = limit ≤ most

-- The second filters ask for less than the first.
pub record IsRelaxed (f g : Filters) : Type 0 where
  pub max_price : IsHigherOrUnset f.max_price_byn g.max_price_byn
  pub min_discount : IsLowerOrUnset f.min_discount_percent g.min_discount_percent
  pub seller : IsSameOrUnset f.seller_type g.seller_type
  pub condition : IsSameOrUnset f.condition g.condition
  pub region : IsSameOrUnset f.region_name g.region_name
  pub keyword : IsSameOrUnset f.config_keyword g.config_keyword
  pub duplicates : f.exclude_duplicates ≡ false → g.exclude_duplicates ≡ false

is_too_dear-relaxed :
    (f g price : Option ℕ)
    → IsHigherOrUnset f g
    → is_too_dear f price ≡ false
    → is_too_dear g price ≡ false
unfolding is_too_dear
is_too_dear-relaxed f none price h e = refl
is_too_dear-relaxed none (some limit) price h e = absurd h
is_too_dear-relaxed (some least) (some limit) none h e = refl
is_too_dear-relaxed (some least) (some limit) (some p) h e = ground arith

is_too_small-relaxed :
    (f g price : Option ℕ) (stats : PriceStats)
    → IsLowerOrUnset f g
    → is_too_small f price stats ≡ false
    → is_too_small g price stats ≡ false
unfolding is_too_small
is_too_small-relaxed f none price stats h e = refl
is_too_small-relaxed none (some limit) price stats h e = absurd h
is_too_small-relaxed (some most) (some limit) price stats h e = ground arith

-- A test that lets an unset filter pass.
unset_or_same :
    (test : Option String → Bool) (f g : Option String)
    → test none ≡ false
    → IsSameOrUnset f g
    → test f ≡ false
    → test g ≡ false
unset_or_same test f none n h e = n
unset_or_same test f (some value) n h e = sym (ap test h) ∙ e

-- The tests one after another, where each of the second passes if the one of the first does.
guards :
    (a b c d k x n a2 b2 c2 d2 k2 x2 n2 : Bool)
    → (a ≡ false → a2 ≡ false)
    → (b ≡ false → b2 ≡ false)
    → (c ≡ false → c2 ≡ false)
    → (d ≡ false → d2 ≡ false)
    → (k ≡ false → k2 ≡ false)
    → (x ≡ false → x2 ≡ false)
    → (n ≡ false → n2 ≡ false)
    → (if a
        then false
        else if b
        then false
        else if c
        then false
        else if d
        then false
        else if k
        then false
        else if x
        then false
        else not n)
      ≡ true
    → (if a2
        then false
        else if b2
        then false
        else if c2
        then false
        else if d2
        then false
        else if k2
        then false
        else if x2
        then false
        else not n2)
      ≡ true
guards a b c d k x n a2 b2 c2 d2 k2 x2 n2 ha hb hc hd hk hx hn e = ground arith

-- The test of a repost.
repost : (f g b : Bool) → (f ≡ false → g ≡ false) → f && b ≡ false → g && b ≡ false
repost f g b h e = ground (arith, h)

-- Filters that ask for less keep every ad that the stricter filters keep.
pub matches_tracker_filters-relaxed :
    (lib : TextLib) (f g : Filters) (stats : PriceStats) (duplicate_count : ℕ) (ad : Ad)
    → IsRelaxed f g
    → matches_tracker_filters lib f stats duplicate_count ad ≡ true
    → matches_tracker_filters lib g stats duplicate_count ad ≡ true
unfolding matches_tracker_filters rejects lacks_keyword
matches_tracker_filters-relaxed lib f g stats duplicate_count ad h e =
    let price = normalize_price_byn ad.price_byn in
    guards _ _ _ _ _ _ _ _ _ _ _ _ _ _
      (is_too_dear-relaxed f.max_price_byn g.max_price_byn price h.max_price)
      (unset_or_same (rejects lib (seller_type_matches lib ad)) f.seller_type g.seller_type refl
        h.seller)
      (unset_or_same (rejects lib (condition_matches lib ad)) f.condition g.condition refl
        h.condition)
      (unset_or_same (rejects lib (region_matches lib ad)) f.region_name g.region_name refl
        h.region)
      (unset_or_same (lacks_keyword lib ad.subject) f.config_keyword g.config_keyword refl
        h.keyword)
      (repost f.exclude_duplicates g.exclude_duplicates (ltb 0 duplicate_count) h.duplicates)
      (is_too_small-relaxed f.min_discount_percent g.min_discount_percent price stats
        h.min_discount)
      e
