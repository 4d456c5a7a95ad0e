-- ===== src/Base/Int.antt =====
-- Python's `int` where a negative value can reach the code. `negsuc n` is -(n + 1).
use Prim.Native.Nat.{ℕ, ◌-◌}
use rafuk.Base.Tests.{leb, if◌then◌else◌}
use native.Mathlib.Decide.{ℕ_discrete}

pub data ℤ : Type 0 where
  pos : ℕ → ℤ
  negsuc : ℕ → ℤ

-- `max(0, n)`
abbrev pub pos_part : ℤ → ℕ
pos_part (pos n) = n
pos_part (negsuc n) = 0

unfoldable pub ℤ-discrete : Discrete ℤ
ℤ-discrete = hlevel (ℕ_discrete)

-- `a - b`
unfoldable pub sub_ℕ : ℕ → ℕ → ℤ
sub_ℕ a b = if leb b a then pos (a - b) else negsuc (b - a - 1)
