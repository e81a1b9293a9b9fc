-- ===== src/Json.antt =====
-- Decoded JSON values, as `encoding/json` and `unstructured.Unstructured` hand them to the
-- program: `map[string]any` is `Fields`, `[]any` is `Items`.
pub mod Print
use icinga_kubernetes.Common.{String, str_eq, Option, none, some, Bool, if◌then◌else◌}
use icinga_kubernetes.Common.Int.{ℤ, pos}

mutual
  pub data Value : Type 0 where
    null : Value
    boolean : Bool → Value
    integer : ℤ → Value
    string : String → Value
    array : Items → Value
    object : Fields → Value

  pub data Items : Type 0 where
    nil : Items
    cons : Value → Items → Items

  pub data Fields : Type 0 where
    end : Fields
    field : String → Value → Fields → Fields

-- The value of a key, if the map has it.
abbrev pub get : String → Fields → Option Value
get k end = none
get k (field j v fs) = if str_eq j k then some v else get k fs

-- Assignment to a key.
abbrev pub put : String → Value → Fields → Fields
put k v end = field k v end
put k v (field j w fs) = if str_eq j k then field k v fs else field j w (put k v fs)

-- `v.(string)`, with Go's zero value where the assertion fails.
abbrev pub as_text : Option Value → String
as_text (some (string s)) = s
as_text _ = ""

abbrev pub as_integer : Option Value → ℤ
as_integer (some (integer n)) = n
as_integer _ = pos 0

abbrev pub as_boolean : Option Value → Bool
as_boolean (some (boolean b)) = b
as_boolean _ = Bool.false
