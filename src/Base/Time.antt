-- ===== src/Base/Time.antt =====
-- Times are whole microseconds, the resolution of Python's `datetime`; readings of a monotonic
-- clock are counted in the same unit. A number of seconds that a caller passes may be negative.
use rafuk.Base.{ℕ, ◌*◌}

abbrev pub second : ℕ
second = 1_000_000

abbrev pub seconds : ℕ → ℕ
seconds n = n * second

abbrev pub minutes : ℕ → ℕ
minutes n = n * 60_000_000

abbrev pub hours : ℕ → ℕ
hours n = n * 3_600_000_000

abbrev pub days : ℕ → ℕ
days n = n * 86_400_000_000
