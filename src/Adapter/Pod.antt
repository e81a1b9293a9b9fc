-- ===== src/Adapter/Pod.antt =====
-- native.go: the containers of a pod, as its summary keeps them, and its state.
use Prim.Native.String.{◌++◌ as str_append}
use icinga_kubernetes.Common.{
  ℕ, ◌+◌, ◌==◌, ◌&&◌, any, Bool, Option, none, some, List, [], ◌∷◌, ◌++◌, length, String, str_eq,
  if◌then◌else◌,
}
use icinga_kubernetes.Common.Int.{ℤ, pos, add_int64}
use icinga_kubernetes.Common.Table.{find}
use icinga_kubernetes.Common.Text.{show_ℕ}
use icinga_kubernetes.Json.{
  Value, null, boolean, integer, string, array, object, Items, nil, cons, Fields, end, field, get,
  put, as_text, as_integer, as_boolean,
}
use icinga_kubernetes.Model.{State, Condition}
use icinga_kubernetes.Adapter.Object.{Nested, Object, text_at, slice_at}

-- `detail, _ := raw.(map[string]any)`: of a nil map every key is missing.
abbrev pub as_fields : Option Value → Fields
as_fields (some (object fs)) = fs
as_fields _ = end

abbrev pub as_any : Option Value → Value
as_any none = null
as_any (some v) = v

abbrev pub set_reason : Option Value → Fields → Fields
set_reason (some (string reason)) entry = put "reason" (string reason) entry
set_reason _ entry = entry

abbrev pub set_state : String → Fields → Fields → Fields
set_state key detail entry =
    put "exitCode" (as_any (get "exitCode" detail))
      (set_reason (get "reason" detail) (put "phase" (string key) entry))

abbrev pub add_state : Fields → String → Fields → Fields
add_state states key entry = elim (get key states) [
  | none ↦ entry
  | some raw ↦ set_state key (as_fields (some raw)) entry
]

-- One container status, as the summary keeps it.
unfoldable pub container_entry : Fields → Fields
container_entry status =
    let states = as_fields (get "state" status) in
    add_state states "terminated" (
      add_state states "waiting" (
        add_state states "running" (
          field "name" (string (as_text (get "name" status))) (
            field "image" (string (as_text (get "image" status))) (
              field "ready" (boolean (as_boolean (get "ready" status))) (
                field "restarts" (integer (as_integer (get "restartCount" status))) (
                  field "phase" (string "unknown")
                    (field "reason" (string "") (field "exitCode" null end)))))))))

pub record PodScan : Type 0 where
  pub containers : List Fields
  pub ready : ℕ
  pub restarts : ℤ

unfoldable pub add_container : Fields → PodScan → PodScan
unfolding container_entry
add_container status s = record {
  containers = s.containers ++ container_entry status ∷ [];
  ready = if as_boolean (get "ready" status) then s.ready + 1 else s.ready;
  restarts = add_int64 s.restarts (as_integer (get "restartCount" status));
}

-- The loop over the container statuses, which ends with the 64th entry.
unfoldable pub scan_statuses : Items → PodScan → PodScan
unfolding add_container
scan_statuses nil s = s
scan_statuses (cons (object status) items) s =
    let added = add_container status s in
    let rest = scan_statuses items added in if length added.containers == 64 then added else rest
scan_statuses (cons null items) s = scan_statuses items s
scan_statuses (cons (boolean b) items) s = scan_statuses items s
scan_statuses (cons (integer i) items) s = scan_statuses items s
scan_statuses (cons (string t) items) s = scan_statuses items s
scan_statuses (cons (array a) items) s = scan_statuses items s

abbrev pub items_length : Items → ℕ
items_length nil = 0
items_length (cons v items) = items_length items + 1

abbrev pub entries : List Fields → Items
entries [] = nil
entries (e ∷ es) = cons (object e) (entries es)

abbrev pub waiting_errors : List String
waiting_errors =
    "CrashLoopBackOff" ∷ "ImagePullBackOff" ∷ "ErrImagePull" ∷ "CreateContainerConfigError"
    ∷ "RunContainerError" ∷ []

abbrev pub is_failing_container : Fields → Bool
is_failing_container c = any (λ r. str_eq (as_text (get "reason" c)) r) waiting_errors

-- a + ": " + b
abbrev pub colon : String → String → String
colon a b = str_append a (str_append ": " b)

abbrev pub ready_of : ℕ → ℕ → String
ready_of ready total =
    str_append (show_ℕ ready) (str_append "/" (str_append (show_ℕ total) " containers ready"))

abbrev pub is_condition : String → String → Condition → Bool
is_condition type status c = str_eq c.type type && str_eq c.status status

abbrev pub pod_by_containers : String → PodScan → ℕ → List Condition → State × String
pod_by_containers phase scan total conditions = elim (find is_failing_container scan.containers) [
  | some c ↦ (State.critical, colon (as_text (get "name" c)) (as_text (get "reason" c)))
  | none ↦
      if any (is_condition "Ready" "True") conditions
      then (State.ok, ready_of scan.ready total)
      else (State.warning, colon phase (ready_of scan.ready total))
]

unfoldable pub describe_pod : Nested → Object → List Condition → Fields → (State × String) × Fields
unfolding scan_statuses show_ℕ
describe_pod n o conditions summary =
    let phase = text_at n o ("status" ∷ "phase" ∷ []) in
    let statuses = slice_at n o.content ("status" ∷ "containerStatuses" ∷ []) in
    let scan = scan_statuses statuses (record { containers = []; ready = 0; restarts = pos 0 }) in
    let by_containers = pod_by_containers phase scan (items_length statuses) conditions in
    (
      if str_eq phase "Succeeded"
          then (State.ok, "Completed successfully")
          else if str_eq phase "Failed"
          then (State.critical, str_append "Pod failed: " (text_at n o ("status" ∷ "reason" ∷ [])))
          else by_containers,
      put "containers.restarts" (integer scan.restarts)
          (put "containers" (array (entries scan.containers)) summary),
    )
