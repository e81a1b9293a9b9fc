-- ===== src/Tests/Validation.antt =====
-- Validation of a batch.
use icinga_kubernetes.Model.Limits.{BatchFits, validate-BatchFits}
use icinga_kubernetes.Common.{◌≡◌, refl, ◌↔◌, []}
use icinga_kubernetes.Common.Result.{ok, err}
use icinga_kubernetes.Model.{stable_id}
use icinga_kubernetes.Model.Validate.{
  validate, ValidationError, validate_events, validate_event, validate_resource, field_refused,
  metadata_refused, summary_refused, check_all,
}
use icinga_kubernetes.Tests.Data.{host, pod_id, batch}

stable_id_test : stable_id host.sha256 "campus" "u1" ≡ pod_id
unfolding stable_id
stable_id_test = refl

validate_test : validate host batch ≡ ok tt
unfolding validate validate_events validate_event validate_resource field_refused metadata_refused
    summary_refused check_all stable_id
validate_test = refl

validate_empty_test :
    validate host (record batch { events = [] }) ≡ err ValidationError.bad_event_count
unfolding validate
validate_empty_test = refl

validate-BatchFits_example : (validate host batch ≡ ok tt) ↔ BatchFits host batch
validate-BatchFits_example = validate-BatchFits host batch
