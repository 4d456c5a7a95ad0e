-- ===== src/Json.antt =====
-- JSON values, as Python's `json` decodes them.
use rafuk.Base.{String, Bool, Option, none, some, List, [], ◌∷◌, ite, str_dec, not, ◌&&◌, ◌==◌}
use rafuk.Base.Int.{ℤ, pos, negsuc}

-- A `float`, of which the code only asks for `int(x)` (none: infinite or not a number) and
-- `x.is_integer()`.
pub record Real : Type 0 where
  pub whole : Option ℤ
  pub is_integer : Bool

mutual
  pub data Value : Type 0 where
    null : Value
    bool : Bool → Value
    int : ℤ → Value
    float : Real → Value
    text : String → Value
    array : Items → Value
    object : Fields → Value

  pub data Items : Type 0 where
    nil : Items
    cons : Value → Items → Items

  pub data Fields : Type 0 where
    end : Fields
    field : String → Value → Fields → Fields

-- The values of a list.
unfoldable pub values : Items → List Value
values nil = []
values (cons v items) = v ∷ values items

-- `d.get(key)`: `null` if the key is missing
unfoldable pub lookup : String → Fields → Value
lookup key end = null
lookup key (field k v fields) = ite (str_dec k key) v (lookup key fields)

-- `d.get(key)`, where anything but a dictionary has no entries
unfoldable pub get : String → Value → Value
unfolding lookup
get key (object fields) = lookup key fields
get key v = null

-- The entries of a list, where anything else has none.
unfoldable pub elements : Value → Option (List Value)
unfolding values
elements (array items) = some (values items)
elements v = none

unfoldable pub is_object : Value → Bool
is_object (object fields) = Bool.true
is_object v = Bool.false

is_zero : Option ℤ → Bool
is_zero (some (pos n)) = n == 0
is_zero n = Bool.false

-- `if value`, of a decoded value
unfoldable pub is_truthy : Value → Bool
unfolding is_zero
is_truthy null = Bool.false
is_truthy (bool b) = b
is_truthy (int (pos n)) = not (n == 0)
is_truthy (int (negsuc n)) = Bool.true
is_truthy (float x) = not (x.is_integer && is_zero x.whole)
is_truthy (text s) = ite (str_dec s "") Bool.false Bool.true
is_truthy (array nil) = Bool.false
is_truthy (array (cons v items)) = Bool.true
is_truthy (object end) = Bool.false
is_truthy (object (field k v fields)) = Bool.true

-- `d.get(key, default)`
unfoldable pub get_or : String → Value → Fields → Value
get_or key default end = default
get_or key default (field k v fields) = ite (str_dec k key) v (get_or key default fields)
