-- ===== src/Adapter/Describe/Confined.antt =====
-- registry.go, native.go: which keys a summary has.
use icinga_kubernetes.Common.{
  ◌≡◌, refl, sym, subst, ◌||◌, not, is_some, arith, inl, inr, Bool-cases, Option-cases, ◌&&◌, any,
  Bool, true, false, none, some, or_else, List, [], ◌∷◌, ◌++◌, All, Exists, String, str_eq,
  if◌then◌else◌,
}
use icinga_kubernetes.Common.Text.{to_lower, split_dots}
use icinga_kubernetes.Json.{Value, string, Fields, end, field, put}
use icinga_kubernetes.Common.Table.{find}
use icinga_kubernetes.Model.{State, Condition}
use icinga_kubernetes.Adapter.Object.{Nested, Object, text_at}
use icinga_kubernetes.Adapter.Registry.{
  StatusField, Definition, bad_path, bad_status_field, sensitive_path, validate_definition,
}
use icinga_kubernetes.Adapter.Registry.Loaded.{Valid}
use icinga_kubernetes.Adapter.Registry.Chosen.{choose-IsBest}
use icinga_kubernetes.Adapter.Native.{
  Described, native_groups, is_one_of, handled_pod, describe_cordoned, project, native_paths,
  describe_kind, describe_native,
}
use icinga_kubernetes.Adapter.Pod.{describe_pod}
use icinga_kubernetes.Adapter.Describe.{
  generic, contains_fold, select_definition, StatusScan, observe, warn_at, scan_status,
  is_bad_condition, or_rules, describe_rules, projected, describe_by, describe,
}

module _ (P : String → Type 0) where
  abbrev pub AllKeys : Fields → Type 0
  AllKeys end = Unit
  AllKeys (field k v fs) = P k × AllKeys fs

  put-AllKeys : (k : String) (v : Value) (fs : Fields) → P k → AllKeys fs → AllKeys (put k v fs)
  put-AllKeys k v end p a = (p, tt)
  put-AllKeys k v (field j w fs) p (q, a) = elim (Bool-cases (str_eq j k)) [
    | inl e ↦ rw (e, put) (p, a)
    | inr e ↦ rw (e, put) (q, put-AllKeys k v fs p a)
  ]

  project-AllKeys :
      (n : Nested) (o : Object) (paths : List String) (fs : Fields)
      → All P paths
      → AllKeys fs
      → AllKeys (project n o paths fs)
  unfolding project
  project-AllKeys n o [] fs p a = a
  project-AllKeys n o (path ∷ paths) fs (p, ps) a =
      elim (Option-cases (n.field o.content (split_dots path))) [
        | inl e ↦ rw (e, project) (project-AllKeys n o paths fs ps a)
        | inr (v, e) ↦
            rw (e, project)
              (project-AllKeys n o paths (put path v fs) ps (put-AllKeys path v fs p a))
      ]

-- The paths that a valid definition reads.
abbrev Harmless : String → Type 0
Harmless k = sensitive_path k ≡ false

paths-Harmless : (ps : List String) → any bad_path ps ≡ false → All Harmless ps
paths-Harmless [] e = tt
paths-Harmless (p ∷ ps) e = (ground (arith, e), paths-Harmless ps (ground (arith, e)))

abbrev HarmlessField : StatusField → Type 0
HarmlessField f = Harmless f.path

fields-Harmless : (fs : List StatusField) → any bad_status_field fs ≡ false → All HarmlessField fs
fields-Harmless [] e = tt
fields-Harmless (f ∷ fs) e = (ground (arith, e), fields-Harmless fs (ground (arith, e)))

Valid-paths :
    (d : Definition)
    → Valid d
    → All Harmless (d.description_fields ++ d.summary_fields) × All HarmlessField d.status_fields
unfolding validate_definition
Valid-paths d v = (
  paths-Harmless (d.description_fields ++ d.summary_fields) (ground (arith, v)),
  fields-Harmless d.status_fields (ground (arith, v)),
)

generic-Valid : Valid generic
unfolding validate_definition sensitive_path
generic-Valid = refl

All-Exists :
    {A : Type 0} (P : A → Type 0) (a : A) (xs : List A) → All P xs → Exists (λ x. x ≡ a) xs → P a
All-Exists P a [] u m = absurd m
All-Exists P a (x ∷ xs) (p, ps) (inl e) = subst P e p
All-Exists P a (x ∷ xs) (p, ps) (inr m) = All-Exists P a xs ps m

select_definition-Valid :
    (group kind : String) (ds : List Definition)
    → All Valid ds
    → Valid (select_definition group kind ds)
unfolding select_definition
select_definition-Valid group kind ds a = elim (choose-IsBest group kind ds) [
  | inl (e, _) ↦ rw (e, select_definition) generic-Valid
  | inr (d, s, e, best) ↦ rw (e, select_definition) (All-Exists Valid d ds a best.member)
]

native_paths-Harmless : All Harmless native_paths
unfolding sensitive_path
native_paths-Harmless = paths-Harmless native_paths refl

abbrev pub HarmlessKeys : Fields → Type 0
HarmlessKeys fs = AllKeys Harmless fs

put-Harmless :
    (k : String) (v : Value) (fs : Fields)
    → Harmless k
    → HarmlessKeys fs
    → HarmlessKeys (put k v fs)
put-Harmless = put-AllKeys Harmless

scan_status-Harmless :
    (n : Nested) (o : Object) (fs : List StatusField) (s : StatusScan)
    → All HarmlessField fs
    → HarmlessKeys s.summary
    → HarmlessKeys (scan_status n o fs s).summary
unfolding scan_status
scan_status-Harmless n o [] s h a = a
scan_status-Harmless n o (f ∷ fs) s (h, hs) a =
    let v = or_else (n.text o.content (split_dots f.path)) "" in
    let p = put-Harmless f.path (string v) s.summary h a in
    elim (Bool-cases (str_eq v "")) [
      | inl e ↦ rw (e, scan_status) (scan_status-Harmless n o fs s hs a)
      | inr e ↦ elim (Bool-cases (contains_fold f.critical v)) [
        | inl c ↦ rw (e, c, scan_status) p
        | inr c ↦
            rw (e, c, scan_status) (scan_status-Harmless n o fs (warn_at f v (observe f v s)) hs p)
      ]
    ]

if-Harmless :
    (b : Bool) (fs gs : Fields)
    → HarmlessKeys fs
    → HarmlessKeys gs
    → HarmlessKeys (if b then fs else gs)
if-Harmless true fs gs p q = p
if-Harmless false fs gs p q = q

native_keys-Harmless :
    Harmless "containers"
    × Harmless "containers.restarts"
    × Harmless "spec.unschedulable"
    × Harmless "adapter"
unfolding sensitive_path to_lower
native_keys-Harmless = (refl, refl, refl, refl)

describe_pod-Harmless :
    (n : Nested) (o : Object) (cs : List Condition) (fs : Fields)
    → HarmlessKeys fs
    → HarmlessKeys (describe_pod n o cs fs).1
unfolding describe_pod
describe_pod-Harmless n o cs fs a =
    let (containers, restarts, _, _) = native_keys-Harmless in
    put-Harmless "containers.restarts" _ (put "containers" _ fs) restarts
      (put-Harmless "containers" _ fs containers a)

handled_pod_lem : (r : (State × String) × Fields) → (handled_pod r).1 ≡ r.1
handled_pod_lem (r, fs) = refl

-- What the branches leave in the summary.
describe_kind-summary :
    (n : Nested) (o : Object) (cs : List Condition) (fs : Fields)
    → (describe_kind n o cs fs).1 ≡ (
        if str_eq o.kind "Node"
        then (describe_cordoned n o cs fs).1
        else if str_eq o.kind "Pod"
        then (describe_pod n o cs fs).1
        else fs)
unfolding describe_kind
describe_kind-summary n o cs fs = ground (arith, handled_pod_lem (describe_pod n o cs fs))

describe_kind-Harmless :
    (n : Nested) (o : Object) (cs : List Condition) (fs : Fields)
    → HarmlessKeys fs
    → HarmlessKeys (describe_kind n o cs fs).1
describe_kind-Harmless n o cs fs a =
    let (_, _, unschedulable, _) = native_keys-Harmless in
    subst HarmlessKeys (sym (describe_kind-summary n o cs fs)) (
      if-Harmless (str_eq o.kind "Node") (describe_cordoned n o cs fs).1 _
        (put-Harmless "spec.unschedulable" _ fs unschedulable a)
        (if-Harmless (str_eq o.kind "Pod") (describe_pod n o cs fs).1 fs
          (describe_pod-Harmless n o cs fs a) a))

describe_native-summary :
    (group : String) (n : Nested) (o : Object) (cs : List Condition) (fs : Fields)
    → (describe_native group n o cs fs).1 ≡ (
        if (str_eq group "networking.k8s.io" && str_eq o.kind "NetworkPolicy")
          || not (is_one_of native_groups group)
        then fs
        else (describe_kind n o cs (project n o native_paths fs)).1)
unfolding describe_native
describe_native-summary group n o cs fs = ground arith

describe_native-Harmless :
    (group : String) (n : Nested) (o : Object) (cs : List Condition) (fs : Fields)
    → HarmlessKeys fs
    → HarmlessKeys (describe_native group n o cs fs).1
describe_native-Harmless group n o cs fs a =
    let projected = project n o native_paths fs in
    subst HarmlessKeys (sym (describe_native-summary group n o cs fs)) (
      if-Harmless _ fs (describe_kind n o cs projected).1 a (
        describe_kind-Harmless n o cs projected
          (project-AllKeys Harmless n o native_paths fs native_paths-Harmless a)))

abbrev first_scan : Fields → StatusScan
first_scan fs = record { summary = fs; observed = false; warning = none; critical = none }

describe_rules-summary :
    (d : Definition) (n : Nested) (o : Object) (cs : List Condition) (fs : Fields)
    → (describe_rules d n o cs fs).1 ≡ (
        if contains_fold d.critical_phases (text_at n o ("status" ∷ "phase" ∷ []))
          || is_some (find (is_bad_condition d) cs)
          || str_eq d.name "openshift-route"
        then fs
        else (scan_status n o d.status_fields (first_scan fs)).summary)
unfolding describe_rules
describe_rules-summary d n o cs fs = ground arith

describe_rules-Harmless :
    (d : Definition) (n : Nested) (o : Object) (cs : List Condition) (fs : Fields)
    → All HarmlessField d.status_fields
    → HarmlessKeys fs
    → HarmlessKeys (describe_rules d n o cs fs).1
describe_rules-Harmless d n o cs fs h a =
    let scan = scan_status n o d.status_fields (first_scan fs) in
    subst HarmlessKeys (sym (describe_rules-summary d n o cs fs)) (
      if-Harmless _ fs scan.summary a
        (scan_status-Harmless n o d.status_fields (first_scan fs) h a))

or_rules-Harmless :
    (d : Definition) (n : Nested) (o : Object) (cs : List Condition) (r : Described)
    → All HarmlessField d.status_fields
    → HarmlessKeys r.1
    → HarmlessKeys (or_rules d n o cs r).1
or_rules-Harmless d n o cs (some r, fs) h a = a
or_rules-Harmless d n o cs (none, fs) h a = describe_rules-Harmless d n o cs fs h a

describe_by-Harmless :
    (d : Definition) (group : String) (n : Nested) (o : Object) (cs : List Condition)
    → Valid d
    → HarmlessKeys (describe_by d group n o cs).1
unfolding describe_by
describe_by-Harmless d group n o cs v =
    let (paths, fields) = Valid-paths d v in
    let (_, _, _, adapter) = native_keys-Harmless in
    let a =
      project-AllKeys Harmless n o (d.description_fields ++ d.summary_fields)
        (field "adapter" (string d.name) end) paths (adapter, tt) in
    elim (Bool-cases (str_eq d.name "generic")) [
      | inl e ↦ rw e (
          or_rules-Harmless d n o cs (describe_native group n o cs (projected d n o)) fields
            (describe_native-Harmless group n o cs (projected d n o) a))
      | inr e ↦ rw e (describe_rules-Harmless d n o cs (projected d n o) fields a)
    ]

-- Whatever object a registry with valid definitions describes, no key of the summary names a
-- token, a secret, a password, a credential, an authorization or a private key, in any case.
pub describe-HarmlessKeys :
    (ds : List Definition) (group : String) (n : Nested) (o : Object) (cs : List Condition)
    → All Valid ds
    → HarmlessKeys (describe ds group n o cs).1
unfolding describe
describe-HarmlessKeys ds group n o cs a =
    describe_by-Harmless (select_definition group o.kind ds) group n o cs
      (select_definition-Valid group o.kind ds a)
