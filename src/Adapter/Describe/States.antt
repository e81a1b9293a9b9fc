-- ===== src/Adapter/Describe/States.antt =====
-- registry.go, native.go, node.go: the states that a description can have.
use icinga_kubernetes.Common.{
  ◌≡◌, ◌⊎◌, ◌&&◌, not, if◌then◌else◌, refl, sym, subst, arith, inl, inr, Bool-cases, false, true,
  Bool, Option, none, some, List, String, str_eq,
}
use icinga_kubernetes.Json.{Fields}
use icinga_kubernetes.Model.{State, Condition}
use icinga_kubernetes.Model.Validate.{state_refused}
use icinga_kubernetes.Adapter.Object.{Nested, Object}
use icinga_kubernetes.Adapter.Registry.{Definition}
use icinga_kubernetes.Adapter.Node.{describe_node, describe_node-state}
use icinga_kubernetes.Adapter.Pod.{describe_pod}
use icinga_kubernetes.Adapter.Native.{
  Described, describe_workload, describe_job, describe_volume, describe_other, describe_kind,
  describe_native, describe_cron_job, is_one_of, native_groups, native_paths, project,
  workload_kinds, static_kinds, volume_kinds,
}
use icinga_kubernetes.Adapter.Describe.{
  select_definition, projected, describe_rules, or_rules, describe_by, describe,
}
use icinga_kubernetes.Adapter.Describe.Verdict.{describe_rules-verdict}

-- One of the four states.
abbrev pub Known : State → Type 0
Known s = (s ≡ State.ok) ⊎ (s ≡ State.warning) ⊎ (s ≡ State.critical) ⊎ (s ≡ State.unknown)

pub Known-accepted : (s : State) → Known s → state_refused s ≡ false
Known-accepted s (inl e) = rw e refl
Known-accepted s (inr (inl e)) = rw e refl
Known-accepted s (inr (inr (inl e))) = rw e refl
Known-accepted s (inr (inr (inr e))) = rw e refl

abbrev KnownIfAny : Option (State × String) → Type 0
KnownIfAny none = Unit
KnownIfAny (some r) = Known r.0

describe_workload-Known :
    (n : Nested) (o : Object) (cs : List Condition) → Known (describe_workload n o cs).0
unfolding describe_workload
describe_workload-Known n o cs = ground arith

describe_job-Known : (n : Nested) (o : Object) (cs : List Condition) → Known (describe_job n o cs).0
unfolding describe_job
describe_job-Known n o cs = ground arith

describe_volume-Known : (n : Nested) (o : Object) → Known (describe_volume n o).0
unfolding describe_volume
describe_volume-Known n o = ground arith

if-Known :
    (b : Bool) (x y : Option (State × String))
    → KnownIfAny x
    → KnownIfAny y
    → KnownIfAny (if b then x else y)
if-Known true x y p q = p
if-Known false x y p q = q

describe_other-Known :
    (n : Nested) (o : Object) (cs : List Condition) → KnownIfAny (describe_other n o cs)
unfolding describe_other
describe_other-Known n o cs =
    let present : Option (State × String) =
      some (State.ok, "Object present; no independent runtime health") in
    let volumes = some (describe_volume n o) in
    let is = λ (names : List String). is_one_of names o.kind in
    let rest₄ = if is volume_kinds then volumes else none in
    let rest₃ = if is static_kinds then present else rest₄ in
    let rest₂ = if str_eq o.kind "CronJob" then some (describe_cron_job n o) else rest₃ in
    let rest₁ = if str_eq o.kind "Job" then some (describe_job n o cs) else rest₂ in
    if-Known (is workload_kinds) (some (describe_workload n o cs)) rest₁
      (describe_workload-Known n o cs)
      (if-Known (str_eq o.kind "Job") (some (describe_job n o cs)) rest₂ (describe_job-Known n o cs)
        (if-Known (str_eq o.kind "CronJob") (some (describe_cron_job n o)) rest₃ (inl refl) (
          if-Known (is static_kinds) present rest₄ (inl refl)
            (if-Known (is volume_kinds) volumes none (describe_volume-Known n o) tt))))

describe_node-Known : (cs : List Condition) → Known (describe_node cs).0
describe_node-Known cs = subst Known (sym (describe_node-state cs)) (ground arith)

describe_pod-Known :
    (n : Nested) (o : Object) (cs : List Condition) (fs : Fields)
    → Known (describe_pod n o cs fs).0.0
unfolding describe_pod
describe_pod-Known n o cs fs = ground arith

describe_kind-Known :
    (n : Nested) (o : Object) (cs : List Condition) (fs : Fields)
    → KnownIfAny (describe_kind n o cs fs).0
unfolding describe_kind
describe_kind-Known n o cs fs =
    ground
      (arith, describe_node-Known cs, describe_pod-Known n o cs fs, describe_other-Known n o cs)

describe_native-result :
    (group : String) (n : Nested) (o : Object) (cs : List Condition) (fs : Fields)
    → (describe_native group n o cs fs).0 ≡ (
        if str_eq group "networking.k8s.io" && str_eq o.kind "NetworkPolicy"
        then some (State.ok, "Policy configured; no independent runtime health")
        else if not (is_one_of native_groups group)
        then none
        else (describe_kind n o cs (project n o native_paths fs)).0)
unfolding describe_native
describe_native-result group n o cs fs = ground arith

describe_native-Known :
    (group : String) (n : Nested) (o : Object) (cs : List Condition) (fs : Fields)
    → KnownIfAny (describe_native group n o cs fs).0
describe_native-Known group n o cs fs =
    let kind = describe_kind-Known n o cs (project n o native_paths fs) in
    subst KnownIfAny (sym (describe_native-result group n o cs fs)) (
      if-Known _ (some (State.ok, "Policy configured; no independent runtime health")) _ (inl refl)
        (if-Known (not (is_one_of native_groups group)) none _ tt kind))

describe_rules-Known :
    (d : Definition) (n : Nested) (o : Object) (cs : List Condition) (fs : Fields)
    → Known (describe_rules d n o cs fs).0.0
describe_rules-Known d n o cs fs =
    subst Known (sym (describe_rules-verdict d n o cs fs)) (ground arith)

or_rules-Known :
    (d : Definition) (n : Nested) (o : Object) (cs : List Condition) (r : Described)
    → KnownIfAny r.0
    → Known (or_rules d n o cs r).0.0
or_rules-Known d n o cs (some r, fs) k = k
or_rules-Known d n o cs (none, fs) k = describe_rules-Known d n o cs fs

-- Every object is described as ok, warning, critical or unknown.
pub describe-Known :
    (ds : List Definition) (group : String) (n : Nested) (o : Object) (cs : List Condition)
    → Known (describe ds group n o cs).0.0
unfolding describe describe_by
describe-Known ds group n o cs =
    let d = select_definition group o.kind ds in
    let known = describe_native-Known group n o cs (projected d n o) in
    let r : Described =
      if str_eq d.name "generic"
      then describe_native group n o cs (projected d n o)
      else (none, projected d n o) in
    or_rules-Known d n o cs r
      (elim (Bool-cases (str_eq d.name "generic")) [ inl e ↦ rw e known | inr e ↦ rw e tt ])
