-- ===== src/Python/Value.antt =====
-- The values that `json.loads` makes and that the dictionaries of the pipeline hold.
use streaming_fpuna_proyecto.Base.{
  ℕ, suc, String, Bool, true, false, Option, none, some, ◌==◌, if◌then◌else◌, contains, List, ◌≡◌,
  ◌≢◌, refl, arith,
}
use streaming_fpuna_proyecto.Base.Int.{ℤ, pos}
use streaming_fpuna_proyecto.Python.{key_error, Result, ok, throw}

-- A float by what the code asks of it: its text, and `int(value)` if `value.is_integer()`.
pub record Float : Type 0 where
  pub repr : String
  pub whole : Option ℤ

mutual
  pub data Value : Type 0 where
    null : Value
    boolean : Bool → Value
    integer : ℤ → Value
    floating : Float → Value
    text : String → Value
    array : Items → Value
    object : Fields → Value

  pub data Items : Type 0 where
    nil : Items
    cons : Value → Items → Items

  pub data Fields : Type 0 where
    end : Fields
    field : String → Value → Fields → Fields

-- `mapping.get(name)`, with `None` for a missing key
unfoldable pub get : Fields → String → Value
get end name = null
get (field k v rest) name = if k == name then v else get rest name

-- `value == s` for a text `s`
abbrev pub is_text : Value → String → Bool
is_text (text t) s = t == s
is_text _ s = false

-- a value that a set can be asked for: lists and dictionaries raise `TypeError`
abbrev pub is_hashable : Value → Bool
is_hashable (array _) = false
is_hashable (object _) = false
is_hashable _ = true

-- `value in names`, for a hashable value and a set of texts
abbrev pub is_member : List String → Value → Bool
is_member names (text t) = contains names t
is_member names _ = false

-- `isinstance(value, int) and not isinstance(value, bool) and value > 0`
abbrev pub positive_int : Value → Option ℕ
positive_int (integer (pos (suc n))) = some (suc n)
positive_int _ = none

-- `mapping[name]`
unfoldable pub get_item : Fields → String → Result Value
get_item end name = throw key_error name
get_item (field k v rest) name = if k == name then ok v else get_item rest name

-- a key that `get` finds is there
pub get_item_of_get :
    (f : Fields) (name : String) → get f name ≢ null → get_item f name ≡ ok (get f name)
unfolding get get_item
get_item_of_get end name h = absurd (h refl)
get_item_of_get (field k v rest) name h = ground (arith, get_item_of_get rest name)
