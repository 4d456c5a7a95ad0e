-- ===== src/Market/Duplicates/Count.antt =====
-- The binary search counts the neighbours, of api/services/market_signals.py.
use rafuk.Base.{ℕ, suc, ◌*◌, Bool, ◌&&◌, List, [], ◌∷◌, leb, if◌then◌else◌}

-- How many numbers pass a test.
unfoldable pub tally : (ℕ → Bool) → List ℕ → ℕ
tally p [] = 0
tally p (x ∷ xs) = if p x then suc (tally p xs) else tally p xs

-- Within eight percent of a price.
abbrev pub is_near : ℕ → ℕ → Bool
is_near price x = leb (92 * price) (100 * x) && leb (100 * x) (108 * price)
