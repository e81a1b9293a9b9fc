-- ===== src/Tests/Inventory.antt =====
-- applyResource.
use icinga_kubernetes.Common.{
  ◌+◌, ◌≤◌, ◌<◌, ◌⊎◌, eq_iff, ◌≡◌, ◌≢◌, refl, true, false, none, some, [], ◌∷◌, length, str_eq,
  if◌then◌else◌,
}
use icinga_kubernetes.Common.Result.{ok, err}
use icinga_kubernetes.Model.{State, Owner, Resource}
use icinga_kubernetes.Json.{field, string, end}
use icinga_kubernetes.Store.Tables.{Db, log_change, notify, ShardKey, ResourceRow}
use icinga_kubernetes.Store.Events.{
  event_recovery, event_inactivity, event_occurrence, event_problem_window, ParseTime,
}
use icinga_kubernetes.Store.Events.Recovery.{event_recovery_sound, ProvesRecovery}
use icinga_kubernetes.Store.Apply.{
  find_row, apply_resource, watermark, write_resource, round_micro, should_notify,
  relations_unchanged, new_row, replace_row, without_owners, insert_owners, is_taken, reconcile,
  log_removed, is_removed, bury, set_watermark, marked_head, map_eq,
}
use icinga_kubernetes.Store.Apply.Monotone.{NoEarlier, apply_resource-NoEarlier}
use icinga_kubernetes.Store.Apply.Watermark.{NoLower, reconcile_watermark}
use icinga_kubernetes.Store.Apply.Reconcile.{reconcile-live}
use icinga_kubernetes.Store.Apply.Notify.{
  same_alert, write_resource-notifies, write_resource-duplicate_owner,
}
use icinga_kubernetes.Tests.Data.{pod, marker, clock, empty_db, stocked_db}

abbrev key : ShardKey
key = ("campus", "pods@web")

reconciled_db : Db
unfolding apply_resource watermark round_micro reconcile log_removed is_removed bury set_watermark
    marked_head log_change notify
reconciled_db = elim (apply_resource clock "reconcile" "pods@web" marker stocked_db) [
  | ok db ↦ db
  | err _ ↦ empty_db
]

reconcile_test : apply_resource clock "reconcile" "pods@web" marker stocked_db ≡ ok reconciled_db
unfolding reconciled_db
reconcile_test = refl

-- The pod was observed before the marker: it is deleted, with one notification.
reconciled_test : (length reconciled_db.outbox ≡ 1) × (length reconciled_db.changes ≡ 1)
unfolding reconciled_db
reconciled_test = (refl, refl)

apply_resource-NoEarlier_example :
    NoEarlier (find_row pod.id stocked_db.resources) (find_row pod.id reconciled_db.resources)
apply_resource-NoEarlier_example =
    apply_resource-NoEarlier clock "reconcile" "pods@web" marker stocked_db reconciled_db pod.id
      reconcile_test

marked : NoLower (some (round_micro marker.observed_at)) (watermark key reconciled_db)
marked = reconcile_watermark clock "pods@web" marker stocked_db reconciled_db reconcile_test

fresh_row : ResourceRow
fresh_row = record {
  resource = record pod { observed_at = 8_000_000 };
  shard = "pods@web";
  changed_at = 8_000_000;
}

abbrev fresh_db : Db
unfolding fresh_row
fresh_db = record empty_db { resources = fresh_row ∷ [] }

fresh_kept : find_row pod.id (reconcile 9_000_000 key 6_000_000 fresh_db).resources ≡ some fresh_row
unfolding fresh_row reconcile log_removed is_removed
fresh_kept = refl

reconcile-live_example :
    (6_000_000 ≤ fresh_row.resource.observed_at)
    × (find_row pod.id fresh_db.resources ≡ some fresh_row)
unfolding fresh_row
reconcile-live_example =
    reconcile-live 9_000_000 6_000_000 key fresh_db pod.id fresh_row fresh_kept
      (record { cluster = refl; shard = refl; not_deleted = refl })

written_db : Db
unfolding write_resource is_taken without_owners insert_owners should_notify new_row replace_row
    log_change notify
written_db = elim (write_resource clock "upsert" "pods@web" pod empty_db) [
  | ok db ↦ db
  | err _ ↦ empty_db
]

write_test : write_resource clock "upsert" "pods@web" pod empty_db ≡ ok written_db
unfolding written_db
write_test = refl

written_twice_db : Db
unfolding written_db relations_unchanged map_eq
written_twice_db = elim (write_resource clock "upsert" "pods@web" pod written_db) [
  | ok db ↦ db
  | err _ ↦ empty_db
]

write_twice_test : write_resource clock "upsert" "pods@web" pod written_db ≡ ok written_twice_db
unfolding written_twice_db
write_twice_test = refl

write_resource-notifies_example : length written_db.outbox ≡ 1
unfolding same_alert
write_resource-notifies_example =
    write_resource-notifies clock "upsert" "pods@web" pod empty_db written_db write_test

same_relations : relations_unchanged pod pod ≡ true
unfolding relations_unchanged map_eq
same_relations = refl

abbrev owner : Owner
owner = record {
  uid = "o";
  api_version = "apps/v1";
  kind = "ReplicaSet";
  name = "shop";
  controller = true;
}

abbrev twice_owned : Resource
twice_owned = record pod { owners = owner ∷ owner ∷ [] }

write_resource-duplicate_owner_example :
    write_resource clock "upsert" "pods@web" twice_owned empty_db ≢ ok empty_db
write_resource-duplicate_owner_example =
    write_resource-duplicate_owner clock "upsert" "pods@web" twice_owned empty_db owner owner [] []
      refl refl refl empty_db

-- Any text is a time of 5 nanoseconds, but the empty one, which does not parse.
abbrev parse_time : ParseTime
parse_time s = if str_eq s "" then none else some 5

abbrev event : Resource
event = record pod { kind = "Event"; summary = field "lastTimestamp" (string "then") end }

event_test : event_recovery parse_time 100 event State.ok "Pod" 7 false ≢ ""
unfolding event_recovery event_inactivity event_occurrence
event_test e = cc ((eq_iff "Historical event: referenced Pod is healthy" "").1 e)

event_recovery_sound_example :
    (0 < event_occurrence parse_time event)
    × ((event_occurrence parse_time event + event_problem_window ≤ 100)
        ⊎ ((event_occurrence parse_time event ≤ 7) × ProvesRecovery State.ok "Pod" false))
event_recovery_sound_example =
    event_recovery_sound parse_time 100 event State.ok "Pod" 7 false event_test
