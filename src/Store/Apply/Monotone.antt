-- ===== src/Store/Apply/Monotone.antt =====
-- store.go: the observation times of the resources under applyResource.
use icinga_kubernetes.Common.{
  ◌≤◌, ◌≡◌, subst, inl, inr, arith, true, false, is_none, ◌&&◌, Option, none, some, String, str_eq,
  eq_iff, Bool-cases, if◌then◌else◌,
}
use icinga_kubernetes.Common.Table.{upsert, at}
use icinga_kubernetes.Common.Result.{ok, Result-cases}
use icinga_kubernetes.Model.{Time, Resource}
use icinga_kubernetes.Store.Tables.{ResourceRow, Db, ShardKey, log_change, notify}
use icinga_kubernetes.Store.Apply.{
  Clock, row_id, find_row, new_row, replace_row, is_removed, bury, is_older, recovered, owners_for,
  round_micro, watermark, is_before, reconcile, write_resource, store_observation, apply_resource,
}
use icinga_kubernetes.Store.Apply.Rows.{written, buried, find_row-write, find_row-reconcile}

-- The deletion time that a write records.
abbrev pub deletion : Clock → String → Resource → Option Time
deletion c action r =
    if str_eq action "delete" && is_none r.deleted_at then some c.now else r.deleted_at

pub record Wrote (c : Clock) (action shard : String) (r : Resource) (db db' : Db) : Type 0 where
  pub resources :
      db'.resources
      ≡ upsert
          (at row_id str_eq r.id)
          (new_row c.db_now shard (deletion c action r) r)
          (replace_row c.db_now shard (deletion c action r) r)
          db.resources
  pub owners : owners_for action r db.owners ≡ ok db'.owners
  pub heads : db'.heads ≡ db.heads
  pub events : db'.events ≡ db.events

pub write_resource-Wrote :
    (c : Clock) (action shard : String) (r : Resource) (db db' : Db)
    → write_resource c action shard r db ≡ ok db'
    → Wrote c action shard r db db'
unfolding write_resource log_change notify
write_resource-Wrote c action shard r db db' e =
    elim (Result-cases (owners_for action r db.owners)) [
      | inr (x, o) ↦ absurd (ground arith)
      | inl (rows, o) ↦ record {
        resources = ground arith;
        owners = ground arith;
        heads = ground arith;
        events = ground arith;
      }
    ]

-- `o'` is no earlier an observation than `o`, and is there if `o` is.
abbrev pub NoEarlier : Option ResourceRow → Option ResourceRow → Type 0
NoEarlier none o' = Unit {0}
NoEarlier (some a) none = ⊥
NoEarlier (some a) (some b) = a.resource.observed_at ≤ b.resource.observed_at

NoEarlier-refl : (o : Option ResourceRow) → NoEarlier o o
NoEarlier-refl none = tt
NoEarlier-refl (some a) = omega arith

NoEarlier-buried :
    (now : Time) (k : ShardKey) (cutoff : Time) (o : Option ResourceRow)
    → NoEarlier o (buried now k cutoff o)
unfolding is_removed bury
NoEarlier-buried now k cutoff none = tt
NoEarlier-buried now k cutoff (some row) = ground arith

NoEarlier-written :
    (now : Time) (shard : String) (deleted : Option Time) (r : Resource) (o : Option ResourceRow)
    → is_older r o ≡ false
    → NoEarlier o (some (written now shard deleted r o))
unfolding replace_row
NoEarlier-written now shard deleted r none h = tt
NoEarlier-written now shard deleted r (some row) h = ground arith

write_resource-NoEarlier :
    (c : Clock) (action shard : String) (r : Resource) (db db' : Db) (j : String)
    → is_older r (find_row r.id db.resources) ≡ false
    → write_resource c action shard r db ≡ ok db'
    → NoEarlier (find_row j db.resources) (find_row j db'.resources)
write_resource-NoEarlier c action shard r db db' j fresh e =
    rw
      (
        (write_resource-Wrote c action shard r db db' e).resources,
        find_row-write j c.db_now shard (deletion c action r) r db.resources,
      )
      (elim (Bool-cases (str_eq r.id j)) [
        | inl same ↦ rw same (
            subst
              (λ i. NoEarlier (find_row i db.resources) (
                some (written c.db_now shard (deletion c action r) r (find_row r.id db.resources))))
              ((eq_iff r.id j).0 same)
              (NoEarlier-written c.db_now shard (deletion c action r) r (find_row r.id db.resources)
                fresh))
        | inr other ↦ rw other (NoEarlier-refl (find_row j db.resources))
      ])

abbrev pub rounded : Resource → Resource
rounded r = record r { observed_at = round_micro r.observed_at }

-- The ways in which applyResource returns nil, by what they leave.
pub data Outcome (c : Clock) (action shard : String) (r : Resource) (db db' : Db) : Type 0 where
  ignored : db' ≡ db → Outcome c action shard r db db'
  reconciled :
      str_eq action "reconcile" ≡ true
      → is_before r.observed_at (watermark (r.cluster, shard) db) ≡ false
      → db' ≡ reconcile c.db_now (r.cluster, shard) r.observed_at db
      → Outcome c action shard r db db'
  stored :
      is_before r.observed_at (watermark (r.cluster, shard) db) ≡ false
      → is_older (recovered c action db r) (find_row (recovered c action db r).id db.resources)
        ≡ false
      → write_resource c action shard (recovered c action db r) db ≡ ok db'
      → Outcome c action shard r db db'

pub apply_resource-Outcome :
    (c : Clock) (action shard : String) (resource : Resource) (db db' : Db)
    → apply_resource c action shard resource db ≡ ok db'
    → Outcome c action shard (rounded resource) db db'
unfolding apply_resource store_observation
apply_resource-Outcome c action shard resource db db' e =
    elim (Bool-cases (str_eq action "heartbeat")) [
      | inl beat ↦ ignored (ground arith)
      | inr silent ↦
          let r = rounded resource in
          elim (Bool-cases (is_before r.observed_at (watermark (r.cluster, shard) db))) [
            | inl stale ↦ ignored (ground arith)
            | inr current ↦ elim (Bool-cases (str_eq action "reconcile")) [
              | inl mark ↦ reconciled mark current (ground arith)
              | inr other ↦
                  let s = recovered c action db r in
                  elim (Bool-cases (is_older s (find_row s.id db.resources))) [
                    | inl older ↦ ignored (ground arith)
                    | inr fresh ↦ stored current fresh (ground arith)
                  ]
            ]
          ]
    ]

-- Whatever event is applied, no resource row disappears and none gets an earlier observation time:
-- a replayed or reordered event cannot roll the inventory back.
pub apply_resource-NoEarlier :
    (c : Clock) (action shard : String) (resource : Resource) (db db' : Db) (j : String)
    → apply_resource c action shard resource db ≡ ok db'
    → NoEarlier (find_row j db.resources) (find_row j db'.resources)
apply_resource-NoEarlier c action shard resource db db' j e =
    elim (apply_resource-Outcome c action shard resource db db' e) [
      | ignored same ↦ rw same (NoEarlier-refl (find_row j db.resources))
      | reconciled _ _ q ↦
          let k : ShardKey = (resource.cluster, shard) in
          let t = round_micro resource.observed_at in
          rw (q, find_row-reconcile j c.db_now k t db)
            (NoEarlier-buried c.db_now k t (find_row j db.resources))
      | stored _ fresh w ↦
          write_resource-NoEarlier c action shard (recovered c action db (rounded resource)) db db'
            j fresh w
    ]
