-- ===== src/Adapter/Node.antt =====
-- node.go: the state of a node by its conditions.
use Prim.Native.String.{◌++◌ as str_append}
use icinga_kubernetes.Common.{
  ◌≡◌, refl, ap, ◌∙◌, arith, ◌&&◌, ◌||◌, not, any, is_empty, Bool, true, false, List, [], ◌∷◌, ◌++◌,
  String, str_eq, if◌then◌else◌,
}
use icinga_kubernetes.Model.{State, Condition}

pub record Findings : Type 0 where
  pub problems : List String
  pub unknown : List String
  pub ready_seen : Bool

abbrev pub detail : String → Condition → String
detail kind c = str_append kind (
    str_append "=" (
      str_append c.status (
        str_append (if str_eq c.reason "" then "" else str_append ": " c.reason)
          (if str_eq c.message "" then "" else str_append ": " c.message))))

abbrev pub is_unclear : Condition → Bool
is_unclear c = not (str_eq c.status "True") && not (str_eq c.status "False")

abbrev pub is_problem : String → Condition → Bool
is_problem kind c =
    (str_eq kind "Ready" && str_eq c.status "False")
    || (not (str_eq kind "Ready") && str_eq c.status "True")

unfoldable pub note_condition : String → Condition → Findings → Findings
note_condition kind c f =
    let seen = f.ready_seen || str_eq kind "Ready" in
    if not (str_eq c.type kind)
    then f
    else if is_unclear c
    then record f { unknown = f.unknown ++ detail kind c ∷ []; ready_seen = seen }
    else if is_problem kind c
    then record f { problems = f.problems ++ detail kind c ∷ []; ready_seen = seen }
    else record f { ready_seen = seen }

-- The loop over the conditions, and the one over the kinds around it.
unfoldable pub scan_conditions : String → List Condition → Findings → Findings
unfolding note_condition
scan_conditions kind [] f = f
scan_conditions kind (c ∷ cs) f = scan_conditions kind cs (note_condition kind c f)

unfoldable pub scan_kinds : List String → List Condition → Findings → Findings
unfolding scan_conditions
scan_kinds [] cs f = f
scan_kinds (kind ∷ kinds) cs f = scan_kinds kinds cs (scan_conditions kind cs f)

abbrev pub node_kinds : List String
node_kinds = "Ready" ∷ "DiskPressure" ∷ "MemoryPressure" ∷ "PIDPressure" ∷ "NetworkUnavailable" ∷ []

-- strings.Join(details, "; ")
abbrev pub join : List String → String
join [] = ""
join (s ∷ []) = s
join (s ∷ t ∷ ss) = str_append s (str_append "; " (join (t ∷ ss)))

unfoldable pub judge : Findings → State × String
judge f =
    let unknown = if f.ready_seen then f.unknown else f.unknown ++ "Ready condition missing" ∷ [] in
    if not (is_empty f.problems)
    then (State.critical, join (f.problems ++ unknown))
    else if not (is_empty unknown)
    then (State.unknown, join unknown)
    else (State.ok, "Node ready; no reported pressure or network failure")

unfoldable pub describe_node : List Condition → State × String
unfolding scan_kinds judge
describe_node cs =
    judge (scan_kinds node_kinds cs (record { problems = []; unknown = []; ready_seen = false }))

-- Does a condition of the kind show a problem, or an unclear status?
abbrev pub shows_problem : List Condition → String → Bool
shows_problem cs kind = any (λ c. str_eq c.type kind && not (is_unclear c) && is_problem kind c) cs

abbrev pub shows_unclear : List Condition → String → Bool
shows_unclear cs kind = any (λ c. str_eq c.type kind && is_unclear c) cs

abbrev pub has_kind : List Condition → String → Bool
has_kind cs kind = any (λ c. str_eq c.type kind) cs

is_empty-snoc : (l : List String) (s : String) → is_empty (l ++ s ∷ []) ≡ false
is_empty-snoc [] s = refl
is_empty-snoc (x ∷ l) s = refl

note_condition-problems :
    (kind : String) (c : Condition) (f : Findings)
    → is_empty (note_condition kind c f).problems
      ≡ (is_empty f.problems && not (str_eq c.type kind && not (is_unclear c) && is_problem kind c))
unfolding note_condition
note_condition-problems kind c f = ground (arith, is_empty-snoc f.problems (detail kind c))

scan_conditions-problems :
    (kind : String) (cs : List Condition) (f : Findings)
    → is_empty (scan_conditions kind cs f).problems
      ≡ (is_empty f.problems && not (shows_problem cs kind))
unfolding scan_conditions
scan_conditions-problems kind [] f = ground arith
scan_conditions-problems kind (c ∷ cs) f = ground (
  arith,
  scan_conditions-problems kind cs (note_condition kind c f),
  note_condition-problems kind c f,
)

scan_kinds-problems :
    (kinds : List String) (cs : List Condition) (f : Findings)
    → is_empty (scan_kinds kinds cs f).problems
      ≡ (is_empty f.problems && not (any (shows_problem cs) kinds))
unfolding scan_kinds
scan_kinds-problems [] cs f = ground arith
scan_kinds-problems (kind ∷ kinds) cs f = ground (
  arith,
  scan_kinds-problems kinds cs (scan_conditions kind cs f),
  scan_conditions-problems kind cs f,
)

note_condition-unknown :
    (kind : String) (c : Condition) (f : Findings)
    → is_empty (note_condition kind c f).unknown
      ≡ (is_empty f.unknown && not (str_eq c.type kind && is_unclear c))
unfolding note_condition
note_condition-unknown kind c f = ground (arith, is_empty-snoc f.unknown (detail kind c))

scan_conditions-unknown :
    (kind : String) (cs : List Condition) (f : Findings)
    → is_empty (scan_conditions kind cs f).unknown
      ≡ (is_empty f.unknown && not (shows_unclear cs kind))
unfolding scan_conditions
scan_conditions-unknown kind [] f = ground arith
scan_conditions-unknown kind (c ∷ cs) f = ground (
  arith,
  scan_conditions-unknown kind cs (note_condition kind c f),
  note_condition-unknown kind c f,
)

scan_kinds-unknown :
    (kinds : List String) (cs : List Condition) (f : Findings)
    → is_empty (scan_kinds kinds cs f).unknown
      ≡ (is_empty f.unknown && not (any (shows_unclear cs) kinds))
unfolding scan_kinds
scan_kinds-unknown [] cs f = ground arith
scan_kinds-unknown (kind ∷ kinds) cs f = ground (
  arith,
  scan_kinds-unknown kinds cs (scan_conditions kind cs f),
  scan_conditions-unknown kind cs f,
)

note_condition-ready :
    (kind : String) (c : Condition) (f : Findings)
    → (note_condition kind c f).ready_seen
      ≡ (f.ready_seen || (str_eq c.type kind && str_eq kind "Ready"))
unfolding note_condition
note_condition-ready kind c f = ground arith

scan_conditions-ready :
    (kind : String) (cs : List Condition) (f : Findings)
    → (scan_conditions kind cs f).ready_seen
      ≡ (f.ready_seen || (has_kind cs kind && str_eq kind "Ready"))
unfolding scan_conditions
scan_conditions-ready kind [] f = ground arith
scan_conditions-ready kind (c ∷ cs) f =
    ground (
      arith,
      scan_conditions-ready kind cs (note_condition kind c f),
      note_condition-ready kind c f,
    )

scan_kinds-ready :
    (kinds : List String) (cs : List Condition) (f : Findings)
    → (scan_kinds kinds cs f).ready_seen
      ≡ (f.ready_seen || any (λ kind. has_kind cs kind && str_eq kind "Ready") kinds)
unfolding scan_kinds
scan_kinds-ready [] cs f = ground arith
scan_kinds-ready (kind ∷ kinds) cs f =
    ground (
      arith,
      scan_kinds-ready kinds cs (scan_conditions kind cs f),
      scan_conditions-ready kind cs f,
    )

judge-state :
    (f : Findings)
    → (judge f).0 ≡ (
        if not (is_empty f.problems)
        then State.critical
        else if not (is_empty f.unknown) || not f.ready_seen
        then State.unknown
        else State.ok)
unfolding judge
judge-state f = ground (arith, is_empty-snoc f.unknown "Ready condition missing")

not_flip : (a b : Bool) → a ≡ (true && not b) → not a ≡ b
not_flip a b e = ground (arith, e)

-- A node is critical exactly if some condition of one of the five kinds shows a problem, in whatever
-- order and beside whatever other conditions; else it is unknown if the status of such a condition
-- is neither True nor False or if there is no Ready condition, and ok if not.
pub describe_node-state :
    (cs : List Condition)
    → (describe_node cs).0 ≡ (
        if any (shows_problem cs) node_kinds
        then State.critical
        else if any (shows_unclear cs) node_kinds || not (has_kind cs "Ready")
        then State.unknown
        else State.ok)
unfolding describe_node
describe_node-state cs =
    let start : Findings = record { problems = []; unknown = []; ready_seen = false } in
    let f = scan_kinds node_kinds cs start in
    let p =
      not_flip (is_empty f.problems) (any (shows_problem cs) node_kinds)
        (scan_kinds-problems node_kinds cs start) in
    let u =
      not_flip (is_empty f.unknown) (any (shows_unclear cs) node_kinds)
        (scan_kinds-unknown node_kinds cs start) in
    let r : f.ready_seen ≡ has_kind cs "Ready" =
      ground (arith, scan_kinds-ready node_kinds cs start) in
    judge-state f
    ∙ ap
        (λ b.
          if b
          then State.critical
          else if not (is_empty f.unknown) || not f.ready_seen
          then State.unknown
          else State.ok)
        p
    ∙ ap
        (λ b.
          if any (shows_problem cs) node_kinds
          then State.critical
          else if b || not f.ready_seen
          then State.unknown
          else State.ok)
        u
    ∙ ap
        (λ b.
          if any (shows_problem cs) node_kinds
          then State.critical
          else if any (shows_unclear cs) node_kinds || not b
          then State.unknown
          else State.ok)
        r
