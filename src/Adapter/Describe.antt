-- ===== src/Adapter/Describe.antt =====
-- registry.go: Describe, which gives an object its state, a reason and a summary by the best
-- definition of the registry.
pub mod Verdict
pub mod Confined
pub mod States
use icinga_kubernetes.Common.{
  ◌&&◌, ◌||◌, not, any, is_empty, Bool, true, false, Option, none, some, List, [], ◌∷◌, ◌++◌,
  String, str_eq, if◌then◌else◌,
}
use icinga_kubernetes.Common.Table.{find}
use icinga_kubernetes.Common.Text.{equal_fold, split_dots}
use icinga_kubernetes.Json.{string, Fields, end, field, put}
use icinga_kubernetes.Model.{State, Condition}
use icinga_kubernetes.Adapter.Object.{Nested, Object, text_at}
use icinga_kubernetes.Adapter.Registry.{StatusField, Definition, choose}
use icinga_kubernetes.Adapter.Pod.{colon}
use icinga_kubernetes.Adapter.Native.{Described, project, describe_native}

abbrev pub generic : Definition
generic = record {
  name = "generic";
  group = "*";
  kind = "*";
  description_fields = [];
  summary_fields =
      "status.phase" ∷ "status.replicas" ∷ "status.readyReplicas" ∷ "status.availableReplicas"
      ∷ "spec.replicas" ∷ [];
  healthy_conditions = "Ready" ∷ "Available" ∷ "Healthy" ∷ "Synced" ∷ [];
  critical_conditions = [];
  critical_phases = "Failed" ∷ "Error" ∷ [];
  status_fields = [];
  metrics = [];
}

abbrev or_generic : Option Definition → Definition
or_generic none = generic
or_generic (some d) = d

unfoldable pub select_definition : String → String → List Definition → Definition
unfolding choose
select_definition group kind ds = or_generic (choose group kind none none ds)

unfoldable pub contains_fold : List String → String → Bool
unfolding equal_fold
contains_fold values value = any (λ v. equal_fold v value) values

-- What the two inner loops over the condition types find.
unfoldable pub is_bad_condition : Definition → Condition → Bool
unfolding equal_fold
is_bad_condition d c =
    (any (str_eq c.type) d.critical_conditions && equal_fold c.status "True")
    || (any (str_eq c.type) d.healthy_conditions && equal_fold c.status "False")

abbrev pub is_admitted : Condition → Bool
is_admitted c = str_eq c.type "Admitted" && equal_fold c.status "True"

-- Where the loop over the status fields is: what it observed, its first warning, or the field at
-- which it returned.
pub record StatusScan : Type 0 where
  pub summary : Fields
  pub observed : Bool
  pub warning : Option String
  pub critical : Option String

abbrev pub note_warning : Bool → String → Option String → Option String
note_warning unhealthy reason (some w) = some w
note_warning true reason none = some reason
note_warning false reason none = none

abbrev pub is_unhealthy : StatusField → String → Bool
is_unhealthy f value = not (is_empty f.healthy) && not (contains_fold f.healthy value)

abbrev pub observe : StatusField → String → StatusScan → StatusScan
observe f value s = record s { summary = put f.path (string value) s.summary; observed = true }

abbrev pub critical_at : StatusField → String → StatusScan → StatusScan
critical_at f value s = record s { critical = some (colon f.path value) }

abbrev pub warn_at : StatusField → String → StatusScan → StatusScan
warn_at f value s = record s {
  warning = note_warning (is_unhealthy f value) (colon f.path value) s.warning;
}

unfoldable pub scan_status : Nested → Object → List StatusField → StatusScan → StatusScan
unfolding contains_fold split_dots
scan_status n o [] s = s
scan_status n o (f ∷ fs) s =
    let value = text_at n o (split_dots f.path) in
    let skipped = scan_status n o fs s in
    let next = scan_status n o fs (warn_at f value (observe f value s)) in
    if str_eq value ""
    then skipped
    else if contains_fold f.critical value
    then critical_at f value (observe f value s)
    else next

abbrev pub Description : Type 0
Description = (State × String) × Fields

abbrev pub by_scan : String → List Condition → StatusScan → Description
by_scan phase conditions s = (
  elim (s.critical) [
    | some reason ↦ (State.critical, reason)
    | none ↦ elim (s.warning) [
      | some reason ↦ (State.warning, reason)
      | none ↦
          if not (str_eq phase "") || not (is_empty conditions) || s.observed
          then (State.ok, "")
          else (State.unknown, "no status exposed by adapter")
    ]
  ],
  s.summary,
)

abbrev pub describe_route : List Condition → State × String
describe_route conditions =
    if any is_admitted conditions
    then (State.ok, "Route admitted by router")
    else (State.unknown, "Route admission has not been confirmed")

-- The rules of the definition, in their order.
unfoldable pub describe_rules : Definition → Nested → Object → List Condition → Fields → Description
unfolding is_bad_condition scan_status
describe_rules d n o conditions summary =
    let phase = text_at n o ("status" ∷ "phase" ∷ []) in
    let scan =
      scan_status n o d.status_fields
        (record { summary = summary; observed = false; warning = none; critical = none }) in
    if contains_fold d.critical_phases phase
    then ((State.critical, phase), summary)
    else elim (find (is_bad_condition d) conditions) [
      | some c ↦ ((State.critical, colon c.type c.reason), summary)
      | none ↦
          if str_eq d.name "openshift-route"
          then (describe_route conditions, summary)
          else by_scan phase conditions scan
    ]

abbrev pub or_rules : Definition → Nested → Object → List Condition → Described → Description
or_rules d n o conditions (some r, summary) = (r, summary)
or_rules d n o conditions (none, summary) = describe_rules d n o conditions summary

abbrev pub projected : Definition → Nested → Object → Fields
projected d n o =
    project n o (d.description_fields ++ d.summary_fields) (field "adapter" (string d.name) end)

unfoldable pub describe_by : Definition → String → Nested → Object → List Condition → Description
unfolding project describe_native describe_rules
describe_by d group n o conditions = or_rules d n o conditions (
    if str_eq d.name "generic"
    then describe_native group n o conditions (projected d n o)
    else (none, projected d n o))

-- (*Registry).Describe
unfoldable pub describe : List Definition → String → Nested → Object → List Condition → Description
unfolding select_definition describe_by
describe ds group n o conditions =
    describe_by (select_definition group o.kind ds) group n o conditions
