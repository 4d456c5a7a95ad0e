-- ===== src/Pipeline/DatasetCache/Tests.antt =====
-- Concrete runs of the dataset cache.
use rafuk.Base.{ℕ, true, false, ◌≡◌, refl, List, [], ◌∷◌, str_dec, map}
use rafuk.Base.OrderedDict.{find, without, assign, move_to_end}
use rafuk.Base.OrderedDict.Deletion.{keys_where}
use rafuk.Pipeline.DatasetCache.{Response, init, get, put, ttl_for}
use rafuk.Pipeline.DatasetCache.Invariant.{
  IsValid, Call, get_at, put_at, run_calls, run_calls-IsValid,
}

-- One line that opens the cache and the dictionary below it.
program : Unit {0}
unfolding init get put ttl_for run_calls find without assign move_to_end keys_where str_dec
program = tt

abbrev three : Response ℕ
three = record { ads = 1 ∷ 2 ∷ 3 ∷ []; truncated = false }

abbrev cut : Response ℕ
cut = record { ads = 4 ∷ 5 ∷ []; truncated = true }

-- At most five ads: the third dataset pushes the oldest out.
abbrev script : List (Call ℕ)
script = put_at 0 0 "a" three ∷ put_at 1 1 "b" cut ∷ get_at 2 "a" ∷ put_at 3 3 "c" cut ∷ []

script_keeps : map (λ e. e.0) (run_calls script (init 100 30 64 5)).entries ≡ "a" ∷ "c" ∷ []
unfolding program
script_keeps = refl

run_calls-IsValid_example : IsValid (run_calls script (init 100 30 64 5))
run_calls-IsValid_example = run_calls-IsValid script 100 30 64 5
