-- ===== src/Tests/Described.antt =====
-- A deployment without a ready replica, and what adapters and the collector make of it.
use icinga_kubernetes.Common.{refl, none, some, [], ◌∷◌, List}
use icinga_kubernetes.Common.Int.{pos}
use icinga_kubernetes.Json.{end}
use icinga_kubernetes.Model.{Condition}
use icinga_kubernetes.Adapter.Registry.{
  Definition, validate_definition, validate_metrics, sensitive_path,
}
use icinga_kubernetes.Adapter.Registry.File.{plain}
use icinga_kubernetes.Adapter.Registry.Loaded.{Valid}
use icinga_kubernetes.Adapter.Object.{Nested, Object}
use icinga_kubernetes.Adapter.Describe.{describe}
use icinga_kubernetes.Adapter.Describe.Confined.{HarmlessKeys, describe-HarmlessKeys}

abbrev pub nested : Nested
nested = record {
  field = λ fs path. none;
  text = λ fs path. some "Failed";
  int64 = λ fs path. some (pos 0);
  bool = λ fs path. none;
  slice = λ fs path. none;
}

abbrev pub deployment : Object
deployment = record {
  content = end;
  kind = "Deployment";
  namespace = "web";
  name = "shop";
  uid = "u1";
  resource_version = "7";
  generation = pos 0;
  labels = ("app", "shop") ∷ [];
  annotations = ("api-token", "x") ∷ [];
  owner_references = [];
}

abbrev deployments : Definition
deployments = record (plain "deployments" "apps" "Deployment") { critical_phases = "failed" ∷ [] }

abbrev unready : List Condition
unready =
    record {
      type = "Ready";
      status = "False";
      reason = "down";
      message = "";
      last_transition_time = none;
    }
    ∷ []

deployments-Valid : Valid deployments
unfolding validate_definition validate_metrics sensitive_path
deployments-Valid = refl

describe-HarmlessKeys_example :
    HarmlessKeys (describe (deployments ∷ []) "apps" nested deployment unready).1
describe-HarmlessKeys_example =
    describe-HarmlessKeys (deployments ∷ []) "apps" nested deployment unready
      (deployments-Valid, tt)
