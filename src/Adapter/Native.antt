-- ===== src/Adapter/Native.antt =====
-- native.go: the state of the kinds that Kubernetes itself defines, and the fields of them that the
-- summary keeps.
use Prim.Native.String.{◌++◌ as str_append}
use icinga_kubernetes.Common.{
  ◌&&◌, ◌||◌, not, any, is_none, Bool, Option, none, some, List, [], ◌∷◌, String, str_eq,
  if◌then◌else◌,
}
use icinga_kubernetes.Common.Int.{ℤ, pos, ltb_ℤ, is_zero_ℤ}
use icinga_kubernetes.Common.Table.{find}
use icinga_kubernetes.Common.Text.{show_ℤ, split_dots}
use icinga_kubernetes.Json.{boolean, Fields, put}
use icinga_kubernetes.Model.{State, Condition}
use icinga_kubernetes.Adapter.Node.{describe_node}
use icinga_kubernetes.Adapter.Object.{Nested, Object, text_at, number_at, flag_at}
use icinga_kubernetes.Adapter.Pod.{colon, is_condition, describe_pod}

-- `for path := range paths { if v, ok := …; ok { summary[path] = v } }`
unfoldable pub project : Nested → Object → List String → Fields → Fields
unfolding split_dots
project n o [] summary = summary
project n o (path ∷ paths) summary = elim (n.field o.content (split_dots path)) [
  | none ↦ project n o paths summary
  | some v ↦ project n o paths (put path v summary)
]

abbrev pub native_paths : List String
native_paths =
    "metadata.creationTimestamp" ∷ "status.phase" ∷ "spec.nodeName" ∷ "status.podIP"
    ∷ "spec.restartPolicy" ∷ "status.qosClass" ∷ "spec.replicas" ∷ "status.readyReplicas"
    ∷ "status.availableReplicas" ∷ "status.updatedReplicas" ∷ "status.desiredNumberScheduled"
    ∷ "status.numberReady" ∷ "spec.schedule" ∷ "spec.suspend" ∷ "status.active" ∷ "status.succeeded"
    ∷ "status.failed" ∷ "spec.type" ∷ "spec.clusterIP" ∷ "spec.storageClassName" ∷ "spec.volumeName"
    ∷ "status.capacity.storage" ∷ []

abbrev pub workload_failure : Condition → Bool
workload_failure c = is_condition "ReplicaFailure" "True" c || is_condition "Progressing" "False" c

abbrev pub desired_replicas : Nested → Object → ℤ
desired_replicas n o =
    if str_eq o.kind "DaemonSet"
    then number_at n o ("status" ∷ "desiredNumberScheduled" ∷ [])
    else if is_none (n.field o.content ("spec" ∷ "replicas" ∷ []))
    then pos 1
    else number_at n o ("spec" ∷ "replicas" ∷ [])

abbrev pub ready_replicas : Nested → Object → ℤ
ready_replicas n o =
    if str_eq o.kind "DaemonSet"
    then number_at n o ("status" ∷ "numberReady" ∷ [])
    else number_at n o ("status" ∷ "readyReplicas" ∷ [])

abbrev pub is_unobserved : Nested → Object → Bool
is_unobserved n o = ltb_ℤ (number_at n o ("status" ∷ "observedGeneration" ∷ [])) o.generation

abbrev pub replicas_message : ℤ → ℤ → String
replicas_message ready desired =
    str_append (show_ℤ ready) (str_append "/" (str_append (show_ℤ desired) " replicas ready"))

abbrev pub reason_message : Condition → State × String
reason_message c = (State.critical, colon c.reason c.message)

abbrev pub workload_by_replicas : Bool → ℤ → ℤ → State × String
workload_by_replicas unobserved ready desired =
    let message = replicas_message ready desired in
    if unobserved
    then (
      State.warning,
      str_append "Waiting for controller to observe the latest configuration; " message,
    )
    else if ltb_ℤ ready desired
    then (if is_zero_ℤ ready then (State.critical, message) else (State.warning, message))
    else if is_zero_ℤ desired
    then (State.ok, "Scaled to zero")
    else (State.ok, message)

unfoldable pub describe_workload : Nested → Object → List Condition → State × String
unfolding show_ℤ
describe_workload n o conditions = elim (find workload_failure conditions) [
  | some c ↦ reason_message c
  | none ↦ workload_by_replicas (is_unobserved n o) (ready_replicas n o) (desired_replicas n o)
]

abbrev pub job_end : Condition → Bool
job_end c = str_eq c.status "True" && (str_eq c.type "Failed" || str_eq c.type "Complete")

unfoldable pub describe_job : Nested → Object → List Condition → State × String
unfolding show_ℤ
describe_job n o conditions = elim (find job_end conditions) [
  | some c ↦
      if str_eq c.type "Failed" then reason_message c else (State.ok, "Completed successfully")
  | none ↦ (
    State.ok,
    str_append (show_ℤ (number_at n o ("status" ∷ "active" ∷ []))) (
        str_append " active, "
          (str_append (show_ℤ (number_at n o ("status" ∷ "succeeded" ∷ []))) " succeeded")),
  )
]

abbrev pub describe_cron_job : Nested → Object → State × String
describe_cron_job n o = (
  State.ok,
  if flag_at n o ("spec" ∷ "suspend" ∷ [])
      then "Schedule suspended"
      else str_append "Schedule: " (text_at n o ("spec" ∷ "schedule" ∷ [])),
)

unfoldable pub describe_volume : Nested → Object → State × String
describe_volume n o =
    let phase = text_at n o ("status" ∷ "phase" ∷ []) in
    if str_eq phase "Bound" || (str_eq o.kind "PersistentVolume" && str_eq phase "Available")
    then (State.ok, phase)
    else if str_eq phase "Lost" || str_eq phase "Failed"
    then (State.critical, phase)
    else (State.warning, str_append "Volume phase: " phase)

abbrev pub cordon : Bool → State × String → State × String
cordon unschedulable (state, reason) =
    (state, if unschedulable then str_append reason "; Scheduling disabled (cordoned)" else reason)

abbrev pub is_one_of : List String → String → Bool
is_one_of names s = any (str_eq s) names

-- What describeNative returns, none where it does not handle the object, and what it leaves in the
-- summary.
abbrev pub Described : Type 0
Described = Option (State × String) × Fields

abbrev pub handled : State × String → Fields → Described
handled r summary = (some r, summary)

abbrev pub describe_cordoned : Nested → Object → List Condition → Fields → Described
describe_cordoned n o conditions summary =
    let unschedulable = flag_at n o ("spec" ∷ "unschedulable" ∷ []) in
    handled (cordon unschedulable (describe_node conditions))
      (put "spec.unschedulable" (boolean unschedulable) summary)

abbrev pub handled_pod : (State × String) × Fields → Described
handled_pod (r, summary) = handled r summary

abbrev pub native_groups : List String
native_groups = "" ∷ "core" ∷ "apps" ∷ "batch" ∷ "discovery.k8s.io" ∷ []

abbrev pub workload_kinds : List String
workload_kinds = "Deployment" ∷ "StatefulSet" ∷ "ReplicaSet" ∷ "DaemonSet" ∷ []

abbrev pub static_kinds : List String
static_kinds = "Service" ∷ "ConfigMap" ∷ "Secret" ∷ "Endpoints" ∷ "EndpointSlice" ∷ []

abbrev pub volume_kinds : List String
volume_kinds = "PersistentVolumeClaim" ∷ "PersistentVolume" ∷ []

-- The cases of the switch on the kind that leave the summary alone.
unfoldable pub describe_other : Nested → Object → List Condition → Option (State × String)
unfolding describe_workload describe_job describe_volume
describe_other n o conditions =
    if is_one_of workload_kinds o.kind
    then some (describe_workload n o conditions)
    else if str_eq o.kind "Job"
    then some (describe_job n o conditions)
    else if str_eq o.kind "CronJob"
    then some (describe_cron_job n o)
    else if is_one_of static_kinds o.kind
    then some (State.ok, "Object present; no independent runtime health")
    else if is_one_of volume_kinds o.kind
    then some (describe_volume n o)
    else none

-- The switch on the kind.
unfoldable pub describe_kind : Nested → Object → List Condition → Fields → Described
unfolding describe_node describe_pod describe_other
describe_kind n o conditions summary =
    if str_eq o.kind "Node"
    then describe_cordoned n o conditions summary
    else if str_eq o.kind "Pod"
    then handled_pod (describe_pod n o conditions summary)
    else (describe_other n o conditions, summary)

unfoldable pub describe_native : String → Nested → Object → List Condition → Fields → Described
unfolding project describe_kind
describe_native group n o conditions summary =
    if str_eq group "networking.k8s.io" && str_eq o.kind "NetworkPolicy"
    then handled (State.ok, "Policy configured; no independent runtime health") summary
    else if not (is_one_of native_groups group)
    then (none, summary)
    else describe_kind n o conditions (project n o native_paths summary)
