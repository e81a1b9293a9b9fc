-- ===== src/Adapter/Registry.antt =====
-- registry.go: the definitions, their checks, the choice of one by group and kind, and their merge.
pub mod File
pub mod Chosen
pub mod Loaded
pub mod Fresh
pub mod Adopted
use Prim.Native.Char.{Char}
use text.Mathlib.Text.{find?, starts_with}
use icinga_kubernetes.Common.{
  ℕ, zero, suc, ◌+◌, ◌-◌, ◌==◌, ltb, ◌&&◌, ◌||◌, not, any, is_some, is_empty, Bool, true, false,
  Option, none, some, List, [], ◌∷◌, ◌++◌, length, String, str_eq, len, if◌then◌else◌,
}
use Prim.Native.String.{◌++◌ as str_append}
use icinga_kubernetes.Common.{map}
use icinga_kubernetes.Common.Int.{ℤ, pos, negsuc}
use icinga_kubernetes.Common.Text.{to_lower, equal_fold, contains}
use icinga_kubernetes.Common.Result.{Result, ok, err, refuse, ◌>>◌, ◌>>=◌}

pub record StatusField : Type 0 where
  pub path : String
  pub healthy : List String
  pub critical : List String

pub record MetricDefinition : Type 0 where
  pub key : String
  pub label : String
  pub unit : String
  pub query : String

pub record Definition : Type 0 where
  pub name : String
  pub group : String
  pub kind : String
  pub description_fields : List String
  pub summary_fields : List String
  pub healthy_conditions : List String
  pub critical_conditions : List String
  pub critical_phases : List String
  pub status_fields : List StatusField
  pub metrics : List MetricDefinition

pub data AdapterError : Type 0 where
  decode_failed unsupported_version name_and_kind_required : AdapterError
  duplicate_name duplicate_match : String → AdapterError
  field_limits state_rule_limits invalid_path invalid_status_field metric_limit : AdapterError
  invalid_metric duplicate_metric_key unsupported_placeholder : AdapterError

-- matchScore, where none is -1.
unfoldable pub match_score : String → String → Definition → Option ℕ
match_score group kind d =
    let group = if str_eq group "" then "core" else group in
    if not (str_eq d.group "*") && not (str_eq d.group group)
    then none
    else if not (str_eq d.kind "*") && not (equal_fold d.kind kind)
    then none
    else some ((if str_eq d.group "*" then 0 else 2) + (if str_eq d.kind "*" then 0 else 1))

-- `score > bestScore`, where none is -1.
abbrev pub is_better : Option ℕ → Option ℕ → Bool
is_better none best = false
is_better (some s) none = true
is_better (some s) (some best) = ltb best s

-- The loop of Metrics and of Describe: the definition with the best score, the first of equal ones.
unfoldable pub choose :
    String → String → Option ℕ → Option Definition → List Definition → Option Definition
unfolding match_score
choose group kind best selected [] = selected
choose group kind best selected (d ∷ ds) =
    let score = match_score group kind d in
    if is_better score best
    then choose group kind score (some d) ds
    else choose group kind best selected ds

-- Registry.Metrics
unfoldable pub metrics_for : String → String → List Definition → List MetricDefinition
unfolding choose
metrics_for group kind ds = elim (choose group kind none none ds) [ none ↦ [] | some d ↦ d.metrics ]

unfoldable pub sensitive_path : String → Bool
unfolding to_lower
sensitive_path path =
    any (λ part. contains (to_lower path) part)
      ("token" ∷ "secret" ∷ "password" ∷ "credential" ∷ "authorization" ∷ "private-key"
        ∷ "privatekey" ∷ [])

abbrev pub is_in : String → Char → Bool
is_in set c = is_some (find? set (String.◌∷◌ c String.[]))

abbrev pub key_tail : String → Bool
key_tail String.[] = true
key_tail (String.◌∷◌ c s) = is_in "abcdefghijklmnopqrstuvwxyz0123456789_" c && key_tail s

-- ^[a-z][a-z0-9_]{0,63}$
unfoldable pub is_metric_key : String → Bool
is_metric_key String.[] = false
is_metric_key (String.◌∷◌ c s) =
    is_in "abcdefghijklmnopqrstuvwxyz" c && key_tail s && not (ltb 63 (len s))

-- strings.ReplaceAll(s, part, ""), with the number of characters of an occurrence yet to leave out.
unfoldable pub remove_all : String → ℕ → String → String
remove_all part skip String.[] = String.[]
remove_all part (suc skip) (String.◌∷◌ c s) = remove_all part skip s
remove_all part zero (String.◌∷◌ c s) =
    if starts_with (String.◌∷◌ c s) part
    then remove_all part (len part - 1) s
    else String.◌∷◌ c (remove_all part 0 s)

abbrev pub bad_path : String → Bool
bad_path path = str_eq path "" || ltb 256 (len path) || sensitive_path path

abbrev pub bad_status_field : StatusField → Bool
bad_status_field f = bad_path f.path || ltb 16 (length f.healthy) || ltb 16 (length f.critical)

unfoldable pub bad_metric : MetricDefinition → Bool
unfolding is_metric_key
bad_metric m =
    not (is_metric_key m.key)
    || str_eq m.label ""
    || ltb 128 (len m.label)
    || str_eq m.unit ""
    || ltb 64 (len m.unit)
    || str_eq m.query ""
    || ltb 4096 (len m.query)

unfoldable pub bad_placeholder : String → Bool
unfolding remove_all
bad_placeholder query =
    let clean =
      remove_all "{{kind}}" 0 (
        remove_all "{{name}}" 0
          (remove_all "{{namespace}}" 0 (remove_all "{{cluster}}" 0 query))) in
    contains clean "{{" || contains clean "}}"

-- The loop over the metrics, with the keys seen.
unfoldable pub validate_metrics :
    List String → List MetricDefinition → Result AdapterError (Unit {0})
unfolding bad_metric bad_placeholder
validate_metrics seen [] = ok tt
validate_metrics seen (m ∷ ms) =
    refuse (bad_metric m) AdapterError.invalid_metric
    >> refuse (any (λ k. str_eq k m.key) seen) AdapterError.duplicate_metric_key
    >> refuse (bad_placeholder m.query) AdapterError.unsupported_placeholder
    >> validate_metrics (m.key ∷ seen) ms

unfoldable pub validate_definition : Definition → Result AdapterError (Unit {0})
unfolding sensitive_path validate_metrics
validate_definition d =
    refuse
      (ltb 32 (length d.summary_fields)
        || ltb 8 (length d.description_fields)
        || ltb 8 (length d.status_fields))
      AdapterError.field_limits
    >> refuse
        (ltb 16 (length d.healthy_conditions)
          || ltb 16 (length d.critical_conditions)
          || ltb 16 (length d.critical_phases))
        AdapterError.state_rule_limits
    >> refuse (any bad_path (d.description_fields ++ d.summary_fields)) AdapterError.invalid_path
    >> refuse (any bad_status_field d.status_fields) AdapterError.invalid_status_field
    >> refuse (ltb 16 (length d.metrics)) AdapterError.metric_limit
    >> validate_metrics [] d.metrics

unfoldable pub merge_definition : Definition → Definition → Definition
merge_definition base extension = record base {
  name = extension.name;
  description_fields = base.description_fields ++ extension.description_fields;
  summary_fields = base.summary_fields ++ extension.summary_fields;
  healthy_conditions = base.healthy_conditions ++ extension.healthy_conditions;
  critical_conditions = base.critical_conditions ++ extension.critical_conditions;
  critical_phases = base.critical_phases ++ extension.critical_phases;
  status_fields = base.status_fields ++ extension.status_fields;
  metrics = base.metrics ++ extension.metrics;
}

abbrev pub extends : Definition → Definition → Bool
extends d base = str_eq base.group d.group && equal_fold base.kind d.kind

-- The merge into the first definition of the same group and kind, or the definition at the end.
unfoldable pub merge_into : Definition → List Definition → Result AdapterError (List Definition)
unfolding validate_definition merge_definition
merge_into d [] = ok (d ∷ [])
merge_into d (base ∷ ds) =
    let merged = merge_definition base d in
    let rest = merge_into d ds in
    if extends d base
    then validate_definition merged >> ok (merged ∷ ds)
    else (rest >>= λ ds'. ok (base ∷ ds'))

abbrev pub adopt : Definition → List Definition → Result AdapterError (List Definition)
adopt d ds =
    if not (str_eq d.group "*") && not (str_eq d.kind "*")
    then merge_into d ds
    else ok (ds ++ d ∷ [])

abbrev pub match_key : Definition → String
match_key d = to_lower (str_append d.group (str_append "\0" d.kind))

-- A definition with a name and a kind, whose name and match have not occurred.
abbrev pub unseen : List String → List String → Definition → Result AdapterError (Unit {0})
unseen names matches d =
    refuse (str_eq d.name "" || str_eq d.kind "") AdapterError.name_and_kind_required
    >> refuse (any (λ n. str_eq n (to_lower d.name)) names) (AdapterError.duplicate_name d.name)
    >> refuse (any (λ n. str_eq n (match_key d)) matches) (AdapterError.duplicate_match d.name)

abbrev pub checks : List String → List String → Definition → Result AdapterError (Unit {0})
checks names matches d = unseen names matches d >> validate_definition d

-- The loop over the custom definitions, with the names and the matches seen.
unfoldable pub load_custom :
    List String
    → List String
    → List Definition
    → List Definition
    → Result AdapterError (List Definition)
unfolding validate_definition merge_into to_lower
load_custom names matches [] ds = ok ds
load_custom names matches (d ∷ custom) ds =
    checks names matches d
    >> (adopt d ds >>= load_custom (to_lower d.name ∷ names) (match_key d ∷ matches) custom)
