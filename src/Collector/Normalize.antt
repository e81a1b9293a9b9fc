-- ===== src/Collector/Normalize.antt =====
-- collector.go: the resource that a collector makes of an object, cut to the limits of the API.
-- The parsers, the digests and the accessors that the Go code calls are parameters.
pub mod Truncate
pub mod Bounded
pub mod Parts
pub mod Accepted
use Prim.Native.String.{slice, ◌++◌ as str_append}
use text.Mathlib.Text.{is_char_boundary}
use icinga_kubernetes.Common.{
  ℕ, zero, suc, ◌+◌, ◌==◌, leb, ltb, ◌&&◌, ◌||◌, any, is_some, Bool, true, false, Option, none,
  some, or_else, List, [], ◌∷◌, ◌++◌, length, sort, String, str_eq, len, if◌then◌else◌,
}
use icinga_kubernetes.Common.Text.{to_lower, contains, str_ltb}
use icinga_kubernetes.Json.{
  Value, null, boolean, integer, string, array, object, Items, nil, cons, Fields, end, field, get,
  put,
}
use icinga_kubernetes.Json.Print.{sprint}
use icinga_kubernetes.Model.{StringMap, Time, State, Owner, Condition, Resource, Ids, normalize}
use icinga_kubernetes.Collector.Permissions.{Gvr}
use icinga_kubernetes.Adapter.Object.{Nested, OwnerReference, Object, slice_at}
use icinga_kubernetes.Adapter.Registry.{Definition}
use icinga_kubernetes.Adapter.Describe.{Description, describe}

-- The loop of truncate: a first part of `k` bytes of a text is valid UTF-8 exactly if a character
-- ends there.
unfoldable pub valid_end : String → ℕ → ℕ
valid_end value zero = 0
valid_end value (suc k) =
    let rest = valid_end value k in if is_char_boundary value (suc k) then suc k else rest

unfoldable pub truncate : String → ℕ → String
unfolding valid_end
truncate value limit =
    if leb (len value) limit then value else slice value 0 (valid_end value limit)

-- text, of a key that a map may lack
unfoldable pub text_of : Option Value → String
unfolding sprint
text_of none = ""
text_of (some null) = ""
text_of (some (boolean b)) = sprint (boolean b)
text_of (some (integer n)) = sprint (integer n)
text_of (some (string s)) = s
text_of (some (array items)) = sprint (array items)
text_of (some (object fs)) = sprint (object fs)

unfoldable pub contains_any : String → List String → Bool
contains_any value needles = any (contains value) needles

abbrev pub sensitive_needles : List String
sensitive_needles =
    "token" ∷ "secret" ∷ "password" ∷ "credential" ∷ "authorization" ∷ "private-key" ∷ []

pub record MapLimits : Type 0 where
  pub max_items : ℕ
  pub max_key : ℕ
  pub max_value : ℕ
  pub max_bytes : ℕ
  pub filter_sensitive : Bool

abbrev pub is_passed_over : MapLimits → ℕ → String → Bool
is_passed_over l size key =
    (size == l.max_items)
    || ltb l.max_key (len key)
    || (l.filter_sensitive && contains_any (to_lower key) sensitive_needles)

-- The loop over the sorted keys, with what is kept and its bytes.
unfoldable pub keep_entries : MapLimits → StringMap → StringMap → ℕ → StringMap
unfolding truncate contains_any to_lower
keep_entries l [] out used = out
keep_entries l ((key, full) ∷ entries) out used =
    let value = truncate full l.max_value in
    let next = used + len key + len value in
    let skipped = keep_entries l entries out used in
    let kept = keep_entries l entries (out ++ (key, value) ∷ []) next in
    if is_passed_over l (length out) key
    then skipped
    else if ltb l.max_bytes next
    then skipped
    else kept

abbrev pub by_key {ℓ} : {A : Type ℓ} → String × A → String × A → Bool
by_key a b = str_ltb a.0 b.0

unfoldable pub bounded_string_map : StringMap → MapLimits → StringMap
unfolding keep_entries
bounded_string_map entries l = keep_entries l (sort by_key entries) [] 0

abbrev pub label_limits : MapLimits
label_limits = record {
  max_items = 256;
  max_key = 253;
  max_value = 256;
  max_bytes = 65_536;
  filter_sensitive = false;
}

abbrev pub annotation_limits : MapLimits
annotation_limits = record {
  max_items = 256;
  max_key = 253;
  max_value = 4096;
  max_bytes = 65_536;
  filter_sensitive = true;
}

unfoldable pub safe_annotations : StringMap → StringMap
unfolding bounded_string_map
safe_annotations entries = bounded_string_map entries annotation_limits

-- What the Go code calls: the makers of ids, json.Marshal, time.Parse, the text of a
-- GroupVersionResource, and the accessors of an object.
pub record Calls : Type 0 where
  pub ids : Ids
  pub open ids use *
  pub marshal_size : Fields → Option ℕ
  pub parse_time : String → Option Time
  pub format_gvr : Gvr → String
  pub nested : Nested

abbrev pub is_within : Option ℕ → ℕ → Bool
is_within none max_bytes = false
is_within (some size) max_bytes = leb size max_bytes

abbrev pub items_of : Fields → List (String × Value)
items_of end = []
items_of (field k v fs) = (k, v) ∷ items_of fs

-- The loop over the sorted keys. They differ, so the map without the last one is the map before it.
unfoldable pub keep_fields : Calls → ℕ → List (String × Value) → Fields → Fields
keep_fields c max_bytes [] out = out
keep_fields c max_bytes ((key, value) ∷ entries) out =
    let added = put key value out in
    keep_fields c max_bytes entries
      (if is_within (c.marshal_size added) max_bytes then added else out)

unfoldable pub bounded_summary : Calls → Fields → ℕ → Fields
unfolding keep_fields
bounded_summary c summary max_bytes = keep_fields c max_bytes (sort by_key (items_of summary)) end

unfoldable pub normalize_owner : OwnerReference → Owner
unfolding truncate
normalize_owner o = record {
  uid = truncate o.uid 512;
  api_version = truncate o.api_version 512;
  kind = truncate o.kind 512;
  name = truncate o.name 512;
  controller = or_else o.controller false;
}

-- The loop over the owner references.
unfoldable pub add_owners : List OwnerReference → List Owner → List Owner
unfolding normalize_owner
add_owners [] owners = owners
add_owners (o ∷ refs) owners =
    let rest = add_owners refs (owners ++ normalize_owner o ∷ []) in
    if length owners == 64 then owners else rest

unfoldable pub normalize_condition : Calls → Fields → Condition
unfolding truncate text_of
normalize_condition c m = record {
  type = truncate (text_of (get "type" m)) 512;
  status = truncate (text_of (get "status" m)) 512;
  reason = truncate (text_of (get "reason" m)) 1024;
  message = truncate (text_of (get "message" m)) 4096;
  last_transition_time = c.parse_time (text_of (get "lastTransitionTime" m));
}

abbrev pub is_incomplete : Condition → Bool
is_incomplete c = str_eq c.type "" || str_eq c.status ""

-- The loop over the raw conditions.
unfoldable pub add_conditions : Calls → Items → List Condition → List Condition
unfolding normalize_condition
add_conditions c nil conditions = conditions
add_conditions c (cons (object m) items) conditions =
    let condition = normalize_condition c m in
    let skipped = add_conditions c items conditions in
    let kept = add_conditions c items (conditions ++ condition ∷ []) in
    if length conditions == 64
    then conditions
    else if is_incomplete condition
    then skipped
    else kept
add_conditions c (cons null items) conditions = add_conditions c items conditions
add_conditions c (cons (boolean b) items) conditions = add_conditions c items conditions
add_conditions c (cons (integer n) items) conditions = add_conditions c items conditions
add_conditions c (cons (string s) items) conditions = add_conditions c items conditions
add_conditions c (cons (array a) items) conditions = add_conditions c items conditions

abbrev append_items : Items → Items → Items
append_items nil others = others
append_items (cons v items) others = cons v (append_items items others)

-- The conditions of the ingresses of a route, after those of its status.
unfoldable pub add_ingresses : Nested → Items → Items → Items
add_ingresses n nil raw = raw
add_ingresses n (cons (object ingress) items) raw =
    add_ingresses n items (append_items raw (slice_at n ingress ("conditions" ∷ [])))
add_ingresses n (cons null items) raw = add_ingresses n items raw
add_ingresses n (cons (boolean b) items) raw = add_ingresses n items raw
add_ingresses n (cons (integer i) items) raw = add_ingresses n items raw
add_ingresses n (cons (string s) items) raw = add_ingresses n items raw
add_ingresses n (cons (array a) items) raw = add_ingresses n items raw

unfoldable pub raw_conditions : Nested → Gvr → Object → Items
unfolding add_ingresses
raw_conditions n gvr o =
    let raw = slice_at n o.content ("status" ∷ "conditions" ∷ []) in
    if str_eq gvr.group "route.openshift.io" && str_eq o.kind "Route"
    then add_ingresses n (slice_at n o.content ("status" ∷ "ingress" ∷ [])) raw
    else raw

unfoldable pub conditions_of : Calls → Gvr → Object → List Condition
unfolding raw_conditions add_conditions
conditions_of c gvr o = add_conditions c (raw_conditions c.nested gvr o) []

abbrev pub core_group : String → String
core_group group = if str_eq group "" then "core" else group

-- The resource, before its Normalize.
unfoldable pub project_object :
    Calls → Time → String → Gvr → Object → List Condition → Description → Resource
unfolding bounded_string_map safe_annotations add_owners bounded_summary
project_object c now cluster gvr o conditions ((state, reason), summary) = record {
  id = "";
  cluster = cluster;
  uid = o.uid;
  group = core_group gvr.group;
  version = gvr.version;
  kind = o.kind;
  namespace = o.namespace;
  name = o.name;
  resource_version = o.resource_version;
  labels = bounded_string_map o.labels label_limits;
  annotations = safe_annotations o.annotations;
  owners = add_owners o.owner_references [];
  conditions = conditions;
  summary = bounded_summary c summary 65_536;
  state = state;
  reason = truncate reason 4096;
  observed_at = now;
  deleted_at = none;
  freshness = "";
}

-- normalizeWithRegistry; `now` is what time.Now returns.
unfoldable pub normalize_with_registry :
    Calls → Time → String → Gvr → Object → List Definition → Resource
unfolding conditions_of describe project_object
normalize_with_registry c now cluster gvr o registry =
    let conditions = conditions_of c gvr o in
    normalize c.sha256 now (
      project_object c now cluster gvr o conditions
        (describe registry gvr.group c.nested o conditions))
