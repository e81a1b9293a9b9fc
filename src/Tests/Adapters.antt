-- ===== src/Tests/Adapters.antt =====
-- Adapters and nodes.
use icinga_kubernetes.Adapter.Registry.Adopted.{Loaded, load-Loaded}
use icinga_kubernetes.Common.{◌≡◌, ◌||◌, not, any, refl, none, [], ◌∷◌, List, if◌then◌else◌}
use icinga_kubernetes.Common.Int.{pos}
use icinga_kubernetes.Model.{State, Condition}
use icinga_kubernetes.Adapter.Registry.{
  Definition, validate_definition, validate_metrics, sensitive_path,
}
use icinga_kubernetes.Adapter.Registry.File.{Document, document, plain}
use icinga_kubernetes.Adapter.Registry.Loaded.{Valid}
use icinga_kubernetes.Adapter.Node.{
  describe_node, describe_node-state, node_kinds, shows_problem, shows_unclear, has_kind,
}

abbrev widget : Definition
widget = plain "widget" "example.org" "Widget"

abbrev generic : Definition
generic = plain "other" "*" "*"

abbrev widgets : Document
widgets = record { version = pos 1; adapters = widget ∷ [] }

widget-Valid : Valid widget
unfolding validate_definition validate_metrics sensitive_path
widget-Valid = refl

abbrev pressure : List Condition
pressure =
    record {
      type = "Ready";
      status = "True";
      reason = "";
      message = "";
      last_transition_time = none;
    }
    ∷ record {
      type = "DiskPressure";
      status = "True";
      reason = "full";
      message = "";
      last_transition_time = none;
    }
    ∷ []

describe_node-state_example : (describe_node pressure).0 ≡ (
    if any (shows_problem pressure) node_kinds
    then State.critical
    else if any (shows_unclear pressure) node_kinds || not (has_kind pressure "Ready")
    then State.unknown
    else State.ok)
describe_node-state_example = describe_node-state pressure

load-Loaded_example : Loaded (document widgets) (widget ∷ [])
load-Loaded_example = load-Loaded (document widgets) (widget ∷ []) (widget-Valid, tt)
