-- ===== src/Json/Print.antt =====
-- fmt.Sprint of a decoded JSON value: a map is printed with its keys in order.
use Prim.Native.String.{◌++◌ as str_append}
use icinga_kubernetes.Common.{String, Bool, List, [], ◌∷◌, sort}
use icinga_kubernetes.Common.Text.{show_ℤ, str_ltb}
use icinga_kubernetes.Json.{
  Value, null, boolean, integer, string, array, object, Items, nil, cons, Fields, end, field,
}

-- The texts with a space between two.
abbrev spaced : List String → String
spaced [] = ""
spaced (s ∷ []) = s
spaced (s ∷ t ∷ ss) = str_append s (str_append " " (spaced (t ∷ ss)))

abbrev pairs : List (String × String) → List String
pairs [] = []
pairs ((k, v) ∷ ps) = str_append k (str_append ":" v) ∷ pairs ps

unfoldable mutual
  unfolding show_ℤ

  pub sprint : Value → String
  sprint null = "<nil>"
  sprint (boolean Bool.true) = "true"
  sprint (boolean Bool.false) = "false"
  sprint (integer n) = show_ℤ n
  sprint (string s) = s
  sprint (array items) = str_append "[" (str_append (spaced (sprint_items items)) "]")
  sprint (object fs) =
      str_append "map["
        (str_append (spaced (pairs (sort (λ a b. str_ltb a.0 b.0) (sprint_fields fs)))) "]")

  pub sprint_items : Items → List String
  sprint_items nil = []
  sprint_items (cons v items) = sprint v ∷ sprint_items items

  pub sprint_fields : Fields → List (String × String)
  sprint_fields end = []
  sprint_fields (field k v fs) = (k, sprint v) ∷ sprint_fields fs
