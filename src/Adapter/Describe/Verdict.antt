-- ===== src/Adapter/Describe/Verdict.antt =====
-- registry.go: the state that the rules of a definition give.
use icinga_kubernetes.Common.{
  ◌≡◌, refl, arith, ◌&&◌, ◌||◌, not, any, is_some, is_empty, Bool, false, none, List, [], ◌∷◌,
  String, str_eq, if◌then◌else◌, Bool-cases, inl, inr,
}
use icinga_kubernetes.Common.Table.{find}
use icinga_kubernetes.Common.Text.{split_dots}
use icinga_kubernetes.Json.{Fields}
use icinga_kubernetes.Model.{State, Condition}
use icinga_kubernetes.Adapter.Object.{Nested, Object, text_at}
use icinga_kubernetes.Adapter.Registry.{StatusField, Definition}
use icinga_kubernetes.Adapter.Describe.{
  contains_fold, is_bad_condition, is_admitted, StatusScan, is_unhealthy, observe, warn_at,
  scan_status, describe_rules,
}

abbrev pub status_value : Nested → Object → StatusField → String
status_value n o f = text_at n o (split_dots f.path)

abbrev pub is_shown : Nested → Object → StatusField → Bool
is_shown n o f = not (str_eq (status_value n o f) "")

abbrev pub shows_critical : Nested → Object → StatusField → Bool
shows_critical n o f = is_shown n o f && contains_fold f.critical (status_value n o f)

abbrev pub shows_warning : Nested → Object → StatusField → Bool
shows_warning n o f = is_shown n o f && is_unhealthy f (status_value n o f)

-- The state, by what holds of the conditions and of the fields in any order.
abbrev pub verdict : Definition → Nested → Object → List Condition → State
verdict d n o conditions =
    let phase = text_at n o ("status" ∷ "phase" ∷ []) in
    let route = str_eq d.name "openshift-route" in
    if contains_fold d.critical_phases phase
      || any (is_bad_condition d) conditions
      || (not route && any (shows_critical n o) d.status_fields)
    then State.critical
    else if route
    then (if any is_admitted conditions then State.ok else State.unknown)
    else if any (shows_warning n o) d.status_fields
    then State.warning
    else if not (str_eq phase "") || not (is_empty conditions) || any (is_shown n o) d.status_fields
    then State.ok
    else State.unknown

is_some-find : {A : Type 0} (p : A → Bool) (xs : List A) → is_some (find p xs) ≡ any p xs
is_some-find p [] = refl
is_some-find p (x ∷ xs) = ground (arith, is_some-find p xs)

scan_status-critical :
    (n : Nested) (o : Object) (fs : List StatusField) (s : StatusScan)
    → s.critical ≡ none
    → is_some (scan_status n o fs s).critical ≡ any (shows_critical n o) fs
unfolding scan_status
scan_status-critical n o [] s e = ground (arith, e)
scan_status-critical n o (f ∷ fs) s e =
    let v = status_value n o f in
    ground (
      arith,
      e,
      scan_status-critical n o fs s e,
      scan_status-critical n o fs (warn_at f v (observe f v s)) e,
    )

-- What a scan that no critical value ends has seen.
scan_status-seen :
    (n : Nested) (o : Object) (fs : List StatusField) (s : StatusScan)
    → any (shows_critical n o) fs ≡ false
    → ((scan_status n o fs s).critical ≡ s.critical)
      × (is_some (scan_status n o fs s).warning ≡ (is_some s.warning || any (shows_warning n o) fs))
      × ((scan_status n o fs s).observed ≡ (s.observed || any (is_shown n o) fs))
unfolding scan_status
scan_status-seen n o [] s e = ground arith
scan_status-seen n o (f ∷ fs) s e =
    let v = status_value n o f in
    ground (
      arith,
      e,
      scan_status-seen n o fs s (ground (arith, e)),
      scan_status-seen n o fs (warn_at f v (observe f v s)) (ground (arith, e)),
    )

pub describe_rules-verdict :
    (d : Definition) (n : Nested) (o : Object) (conditions : List Condition) (summary : Fields)
    → (describe_rules d n o conditions summary).0.0 ≡ verdict d n o conditions
unfolding describe_rules
describe_rules-verdict d n o conditions summary =
    let start : StatusScan = record {
      summary = summary;
      observed = false;
      warning = none;
      critical = none;
    } in
    elim (Bool-cases (any (shows_critical n o) d.status_fields)) [
      | inl c ↦ ground (
        arith,
        c,
        is_some-find (is_bad_condition d) conditions,
        scan_status-critical n o d.status_fields start refl,
      )
      | inr c ↦ ground (
        arith,
        c,
        is_some-find (is_bad_condition d) conditions,
        scan_status-seen n o d.status_fields start c,
      )
    ]
