-- ===== src/Store/Cleanup.antt =====
-- store.go: Cleanup, the retention of all tables in one transaction. `acquired` is what
-- pg_try_advisory_xact_lock returns. An interval is a number of nanoseconds; `x < now - interval` is
-- written without the subtraction.
pub mod Kept
use icinga_kubernetes.Common.{
  ℕ, ◌+◌, ◌==◌, ltb, ◌&&◌, ◌||◌, not, is_none, is_some, any, Bool, true, false, Option, none, some,
  List, String, str_eq, if◌then◌else◌,
}
use icinga_kubernetes.Common.Text.{to_lower}
use icinga_kubernetes.Common.Table.{select}
use icinga_kubernetes.Model.{Time}
use icinga_kubernetes.Store.Tables.{
  EventRow, ShardHead, ResourceRow, OwnerRow, ChangeRow, OutboxRow, CacheRow, Db,
}

pub record Retention : Type 0 where
  pub events : Time
  pub tombstones : Time
  pub history : Time
  pub federation_cache : Time

abbrev pub is_expired : Time → Time → Time → Bool
is_expired now retention t = ltb (t + retention) now

-- A comparison with NULL is not true.
abbrev pub is_expired_at : Time → Time → Option Time → Bool
is_expired_at now retention none = false
is_expired_at now retention (some t) = is_expired now retention t

-- lower(kind)='event' AND api_group IN ('core','events.k8s.io') AND observed_at < …
unfoldable pub is_old_event : Time → Retention → ResourceRow → Bool
unfolding to_lower
is_old_event now k r =
    str_eq (to_lower r.resource.kind) "event"
    && (str_eq r.resource.group "core" || str_eq r.resource.group "events.k8s.io")
    && is_expired now k.events r.resource.observed_at

abbrev pub is_old_tombstone : Time → Retention → ResourceRow → Bool
is_old_tombstone now k r = is_expired_at now k.tombstones r.resource.deleted_at

abbrev pub is_old_change : Time → Retention → ChangeRow → Bool
is_old_change now k c = is_expired now k.history c.changed_at

abbrev pub is_old_delivery : Time → Retention → OutboxRow → Bool
is_old_delivery now k o = is_expired_at now k.history o.delivered_at

-- pending_events=0 AND reconciled_at IS NULL AND last_applied_at < …
unfoldable pub is_old_head : Time → Retention → ShardHead → Bool
is_old_head now k h =
    (h.pending_events == 0)
    && is_none h.reconciled_at
    && is_expired_at now k.history h.last_applied_at

abbrev pub is_old_inbox : Time → Retention → EventRow → Bool
is_old_inbox now k e = is_expired_at now k.history e.applied_at

abbrev pub is_old_cache : Time → Retention → CacheRow → Bool
is_old_cache now k c = is_expired now k.federation_cache c.fetched_at

-- DELETE FROM table WHERE test
abbrev pub delete_from {ℓ} : {A : Type ℓ} → (A → Bool) → List A → List A
delete_from p = select (λ a. not (p a))

abbrev is_resource : String → ResourceRow → Bool
is_resource id r = str_eq r.resource.id id

-- DELETE FROM resource, with the ON DELETE CASCADE of resource_owner.
unfoldable pub delete_resources : (ResourceRow → Bool) → Db → Db
delete_resources p db = record db {
  resources = delete_from p db.resources;
  owners = select (λ o. any (is_resource o.resource_id) (delete_from p db.resources)) db.owners;
}

-- The statements, in their order; `now` is clock_timestamp() of each, by its number.
unfoldable pub delete_expired : (ℕ → Time) → Retention → Db → Db
unfolding is_old_event is_old_head delete_resources
delete_expired now k db =
    let swept =
      delete_resources (is_old_tombstone (now 1) k)
        (delete_resources (is_old_event (now 0) k) db) in
    record swept {
      changes = delete_from (is_old_change (now 2) k) swept.changes;
      outbox = delete_from (is_old_delivery (now 3) k) swept.outbox;
      heads = delete_from (is_old_head (now 4) k) swept.heads;
      events = delete_from (is_old_inbox (now 5) k) swept.events;
      federation = delete_from (is_old_cache (now 6) k) swept.federation;
    }

-- Store.Cleanup
unfoldable pub cleanup : Bool → (ℕ → Time) → Retention → Db → Db
unfolding delete_expired
cleanup acquired now k db = if acquired then delete_expired now k db else db
