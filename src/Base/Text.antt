-- ===== src/Base/Text.antt =====
-- Texts as sequences of characters.
use Prim.Native.String.{String}
use rafuk.Base.{ℕ, zero, suc}

-- `s[:n]`
unfoldable pub truncate : ℕ → String → String
truncate zero s = ""
truncate (suc n) String.[] = ""
truncate (suc n) (String.◌∷◌ c s) = String.◌∷◌ c (truncate n s)
