-- ===== src/Adapter/Object.antt =====
-- The objects that the collector receives: unstructured.Unstructured of apimachinery. Its accessors
-- are parameters: those of nested fields, with none where the field is missing or of another type,
-- and the results of GetKind and its like as fields.
use icinga_kubernetes.Common.{Option, List, String, Bool, or_else}
use icinga_kubernetes.Common.Int.{ℤ, pos}
use icinga_kubernetes.Json.{Value, Items, nil, Fields}
use icinga_kubernetes.Model.{StringMap}

pub record Nested : Type 0 where
  pub field : Fields → List String → Option Value
  pub text : Fields → List String → Option String
  pub int64 : Fields → List String → Option ℤ
  pub bool : Fields → List String → Option Bool
  pub slice : Fields → List String → Option Items

-- metav1.OwnerReference
pub record OwnerReference : Type 0 where
  pub uid : String
  pub api_version : String
  pub kind : String
  pub name : String
  pub controller : Option Bool

pub record Object : Type 0 where
  pub content : Fields
  pub kind : String
  pub namespace : String
  pub name : String
  pub uid : String
  pub resource_version : String
  pub generation : ℤ
  pub labels : StringMap
  pub annotations : StringMap
  pub owner_references : List OwnerReference

-- `v, _, _ := unstructured.NestedString(…)` and its like, with Go's zero value.
abbrev pub text_at : Nested → Object → List String → String
text_at n o path = or_else (n.text o.content path) ""

abbrev pub number_at : Nested → Object → List String → ℤ
number_at n o path = or_else (n.int64 o.content path) (pos 0)

abbrev pub flag_at : Nested → Object → List String → Bool
flag_at n o path = or_else (n.bool o.content path) Bool.false

abbrev pub slice_at : Nested → Fields → List String → Items
slice_at n content path = or_else (n.slice content path) nil
