-- ===== src/Currency/Tests.antt =====
-- An outage of the bank, with whole numbers for floats, of which the negative ones are out of range.
use rafuk.Base.{ℕ, String, ◌≡◌, refl, ◌==◌, true, none, some, str_dec}
use rafuk.Base.Int.{pos, negsuc}
use rafuk.Json.{Value, null, int, text, object, end, field, get, lookup, get_or}
use rafuk.Currency.{FloatLib, converted, refused, overflow, usd_rate, usable, get_rates}
use rafuk.Currency.Rates.{IsAnswer, get_rates-usable}

abbrev wholes : FloatLib
wholes = record {
  Float = ℕ;
  float_of =
      λ v. elim v [ int n ↦ elim n [ pos k ↦ converted k | negsuc k ↦ overflow ] | _ ↦ refused ];
  value_of = λ n. int (pos n);
  is_finite = λ n. true;
  le_zero = λ n. n == 0;
  div = λ a b. some a;
  round_cents = λ n. n;
  default_usd_rate = 3;
}

abbrev nothing : String → Value
nothing key = null

abbrev before : Value
before =
    object
      (field "rates" (object (field "USD" (int (pos 4)) end)) (field "source" (text "nbrb") end))

get_rates-usable_example : IsAnswer wholes (get_rates wholes "2026-11-25" before nothing none)
unfolding usable
get_rates-usable_example = get_rates-usable wholes (λ x. refl) refl "2026-11-25" before nothing none

-- The cached rate is out of range.
abbrev broken : String → Value
broken key = object (field "rates" (object (field "USD" (int (negsuc 6)) end)) end)

raises_overflow : get_rates wholes "2026-11-25" before broken none ≡ overflow
unfolding get_rates usd_rate usable get lookup get_or str_dec
raises_overflow = refl
