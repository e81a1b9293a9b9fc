-- ===== src/Adapter/Registry/File.antt =====
-- registry.go: the built-in definitions, and the adapter file that extends them. The decoder of the
-- file is a parameter.
use icinga_kubernetes.Common.{
  ◌==◌, not, Bool, false, none, some, Option, List, [], ◌∷◌, map, String,
}
use icinga_kubernetes.Common.Int.{ℤ, pos, negsuc}
use icinga_kubernetes.Common.Text.{to_lower}
use icinga_kubernetes.Common.Result.{Result, ok, err, refuse, ◌>>◌}
use icinga_kubernetes.Adapter.Registry.{StatusField, Definition, AdapterError, load_custom}

abbrev pub plain : String → String → String → Definition
plain name group kind = record {
  name = name;
  group = group;
  kind = kind;
  description_fields = [];
  summary_fields = [];
  healthy_conditions = [];
  critical_conditions = [];
  critical_phases = [];
  status_fields = [];
  metrics = [];
}

abbrev pub type_field : StatusField
type_field = record { path = "type"; healthy = "Normal" ∷ []; critical = [] }

unfoldable pub builtins : List Definition
builtins =
    record (plain "kubernetes-core-event" "core" "Event") {
      summary_fields =
          "type" ∷ "reason" ∷ "message" ∷ "count" ∷ "lastTimestamp" ∷ "eventTime"
          ∷ "series.lastObservedTime" ∷ "involvedObject.uid" ∷ "involvedObject.apiVersion"
          ∷ "involvedObject.fieldPath" ∷ "involvedObject.kind" ∷ "involvedObject.namespace"
          ∷ "involvedObject.name" ∷ "reportingComponent" ∷ "reportingInstance" ∷ [];
      status_fields = type_field ∷ [];
    }
    ∷ record (plain "kubernetes-events-event" "events.k8s.io" "Event") {
      summary_fields =
          "type" ∷ "reason" ∷ "note" ∷ "eventTime" ∷ "series.lastObservedTime"
          ∷ "deprecatedLastTimestamp" ∷ "regarding.uid" ∷ "regarding.apiVersion"
          ∷ "regarding.fieldPath" ∷ "regarding.kind" ∷ "regarding.namespace" ∷ "regarding.name"
          ∷ "reportingController" ∷ "reportingInstance" ∷ "deprecatedCount" ∷ [];
      status_fields = type_field ∷ [];
    }
    ∷ record (plain "openshift-route" "route.openshift.io" "Route") {
      description_fields = "spec.host" ∷ [];
      healthy_conditions = "Admitted" ∷ [];
    }
    ∷ record (plain "openshift-cluster-operator" "config.openshift.io" "ClusterOperator") {
      healthy_conditions = "Available" ∷ [];
      critical_conditions = "Degraded" ∷ [];
    }
    ∷ record (plain "openshift-machine-config-pool" "machineconfiguration.openshift.io"
        "MachineConfigPool") {
          healthy_conditions = "Updated" ∷ [];
          critical_conditions = "Degraded" ∷ [];
        }
    ∷ record (plain "openshift-build" "build.openshift.io" "Build") {
      summary_fields = "status.phase" ∷ [];
      critical_phases = "Failed" ∷ "Error" ∷ "Cancelled" ∷ [];
    }
    ∷ plain "openshift-build-config" "build.openshift.io" "BuildConfig"
    ∷ record (plain "openshift-deployment-config" "apps.openshift.io" "DeploymentConfig") {
      healthy_conditions = "Available" ∷ [];
    }
    ∷ plain "openshift-image-stream" "image.openshift.io" "ImageStream"
    ∷ record (plain "olm-subscription" "operators.coreos.com" "Subscription") {
      critical_conditions = "CatalogSourcesUnhealthy" ∷ [];
    }
    ∷ record (plain "olm-install-plan" "operators.coreos.com" "InstallPlan") {
      summary_fields = "status.phase" ∷ [];
      critical_phases = "Failed" ∷ [];
    }
    ∷ record (plain "olm-csv" "operators.coreos.com" "ClusterServiceVersion") {
      summary_fields = "status.phase" ∷ [];
      critical_phases = "Failed" ∷ [];
    }
    ∷ record (plain "argocd-application" "argoproj.io" "Application") {
      description_fields = "spec.project" ∷ [];
      status_fields =
          record {
            path = "status.health.status";
            healthy = "Healthy" ∷ [];
            critical = "Degraded" ∷ "Missing" ∷ [];
          }
          ∷ record { path = "status.sync.status"; healthy = "Synced" ∷ []; critical = [] }
          ∷ [];
    }
    ∷ record (plain "external-secret" "external-secrets.io" "ExternalSecret") {
      healthy_conditions = "Ready" ∷ [];
    }
    ∷ []

pub record Document : Type 0 where
  pub version : ℤ
  pub adapters : List Definition

-- The adapter file: it is not there, it cannot be read or decoded, or it is a document.
pub data AdapterFile : Type 0 where
  missing broken : AdapterFile
  document : Document → AdapterFile

abbrev pub is_version_1 : ℤ → Bool
is_version_1 (pos n) = n == 1
is_version_1 (negsuc n) = false

unfoldable pub load_document : Document → Result AdapterError (List Definition)
unfolding load_custom builtins to_lower
load_document doc =
    refuse (not (is_version_1 doc.version)) AdapterError.unsupported_version
    >> load_custom (map (λ d. to_lower d.name) builtins) [] doc.adapters builtins

-- Registry.Load: the definitions after it, and its error.
unfoldable pub load : AdapterFile → List Definition → List Definition × Option AdapterError
unfolding load_document
load missing ds = (ds, none)
load broken ds = (ds, some AdapterError.decode_failed)
load (document doc) ds = elim (load_document doc) [ err x ↦ (ds, some x) | ok ds' ↦ (ds', none) ]
