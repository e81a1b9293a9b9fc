-- ===== src/Store/Apply/Notify.antt =====
-- store.go: when applyResource queues a notification, against the alert that a resource stands for.
use icinga_kubernetes.Common.{
  ◌+◌, ◌≡◌, ◌≢◌, inl, inr, arith, Bool, true, false, not, ◌&&◌, ◌||◌, is_some, Option, none, some,
  String, str_eq, eq_iff, eq_refl, List, [], ◌∷◌, ◌++◌, length, any, if◌then◌else◌,
}
use icinga_kubernetes.Common.Result.{ok, err, Result-cases}
use icinga_kubernetes.Model.{Time, state_text, is_ok, Owner, Resource}
use icinga_kubernetes.Store.Tables.{ResourceRow, OwnerRow, Db, DbError, log_change, notify}
use icinga_kubernetes.Store.Apply.{
  Clock, find_row, relations_unchanged, owners_for, without_owners, insert_owners, is_owner,
  should_notify, write_resource, new_row, replace_row,
}
use icinga_kubernetes.Store.Apply.Rows.{written, find_row-write}
use icinga_kubernetes.Store.Apply.Monotone.{write_resource-Wrote}

-- The alert that the stored row stands for: none without a row, for a deleted one and for one that
-- is ok.
abbrev pub alert_of : Option ResourceRow → Option Resource
alert_of none = none
alert_of (some row) =
    if is_some row.resource.deleted_at || is_ok row.resource.state then none else some row.resource

-- The alert after the event.
abbrev pub alert_after : String → Resource → Option Resource
alert_after action r = if str_eq action "delete" || is_ok r.state then none else some r

-- The same problem, with the same reason, of the same object.
unfoldable pub same_alert : Option Resource → Option Resource → Bool
same_alert none none = true
same_alert none (some b) = false
same_alert (some a) none = false
same_alert (some a) (some b) =
    str_eq (state_text a.state) (state_text b.state)
    && str_eq a.reason b.reason
    && relations_unchanged a b

-- The decision of the code is that the alert changes: it appears, goes away, or is another one.
should_notify-same_alert :
    (action : String) (old : Option ResourceRow) (r : Resource)
    → should_notify action old r ≡ not (same_alert (alert_of old) (alert_after action r))
unfolding should_notify same_alert
should_notify-same_alert action none r = ground arith
should_notify-same_alert action (some row) r = ground (
  arith,
  eq_iff (state_text row.resource.state) (state_text r.state),
  eq_iff (state_text row.resource.state) "ok",
  eq_iff (state_text r.state) "ok",
)

-- A written observation queues one notification if the alert of its resource changes by it, and
-- none if it does not.
pub write_resource-notifies :
    (c : Clock) (action shard : String) (r : Resource) (db db' : Db)
    → write_resource c action shard r db ≡ ok db'
    → length db'.outbox
      ≡ length db.outbox
        + (if same_alert (alert_of (find_row r.id db.resources)) (alert_after action r)
            then 0
            else 1)
unfolding write_resource log_change notify
write_resource-notifies c action shard r db db' e =
    elim (Result-cases (owners_for action r db.owners)) [
      | inr (x, o) ↦ absurd (ground arith)
      | inl (rows, o) ↦
          ground (arith, should_notify-same_alert action (find_row r.id db.resources) r)
    ]

-- The row that an upsert leaves shows the alert of the event.
alert_of-written :
    (now : Time) (shard : String) (r : Resource) (o : Option ResourceRow)
    (live : r.deleted_at ≡ none)
    → same_alert (alert_of (some (written now shard none r o))) (alert_after "upsert" r)
      ≡ (is_ok r.state || relations_unchanged r r)
unfolding new_row replace_row same_alert relations_unchanged
alert_of-written now shard r none live =
    ground (arith, eq_iff (state_text r.state) (state_text r.state), eq_iff r.reason r.reason)
alert_of-written now shard r (some old) live =
    ground (arith, eq_iff (state_text r.state) (state_text r.state), eq_iff r.reason r.reason)

-- A second write of the same upsert queues nothing. (`relations_unchanged r r` says that the labels
-- of `r` are a map: no key occurs twice.)
pub write_resource-again :
    (c c' : Clock) (shard shard' : String) (r : Resource) (db db' db'' : Db)
    → r.deleted_at ≡ none
    → relations_unchanged r r ≡ true
    → write_resource c "upsert" shard r db ≡ ok db'
    → write_resource c' "upsert" shard' r db' ≡ ok db''
    → length db''.outbox ≡ length db'.outbox
write_resource-again c c' shard shard' r db db' db'' live same e e' =
    let row = find_row-write r.id c.db_now shard r.deleted_at r db.resources in
    let found : find_row r.id db'.resources
        ≡ some (written c.db_now shard none r (find_row r.id db.resources)) =
      rw ((write_resource-Wrote c "upsert" shard r db db' e).resources, row, eq_refl r.id, live) in
    let quiet : same_alert (alert_of (find_row r.id db'.resources)) (alert_after "upsert" r)
        ≡ true =
      rw (found, alert_of-written c.db_now shard r (find_row r.id db.resources) live, same)
        (ground arith) in
    omega (arith, rw quiet at (write_resource-notifies c' "upsert" shard' r db' db'' e'))

insert_owners-clash :
    (id : String) (b : Owner) (between after : List Owner) (rows : List OwnerRow)
    → any (is_owner id b.uid) rows ≡ true
    → insert_owners id (between ++ b ∷ after) rows ≡ err DbError.unique_violation
unfolding insert_owners
insert_owners-clash id b [] after rows h = ground arith
insert_owners-clash id b (x ∷ between) after rows h =
    ground (
      arith,
      insert_owners-clash id b between after (record { resource_id = id; owner = x } ∷ rows),
    )

insert_owners-duplicate :
    (id : String) (a b : Owner) (between after : List Owner) (rows : List OwnerRow)
    → a.uid ≡ b.uid
    → insert_owners id (a ∷ between ++ b ∷ after) rows ≡ err DbError.unique_violation
unfolding insert_owners
insert_owners-duplicate id a b between after rows e = ground (
  arith,
  insert_owners-clash id b between after (record { resource_id = id; owner = a } ∷ rows),
  eq_iff id id,
  eq_iff a.uid b.uid,
)

-- Two owner references with one uid, which Validate lets pass, make every write of the resource but
-- a deletion fail: the second INSERT meets the primary key of resource_owner.
pub write_resource-duplicate_owner :
    (c : Clock) (action shard : String) (r : Resource) (db : Db) (a b : Owner)
    (between after : List Owner)
    → str_eq action "delete" ≡ false
    → r.owners ≡ a ∷ between ++ b ∷ after
    → a.uid ≡ b.uid
    → (db' : Db) → write_resource c action shard r db ≢ ok db'
write_resource-duplicate_owner c action shard r db a b between after up owners dup db' e =
    let kept = (write_resource-Wrote c action shard r db db' e).owners in
    let clash =
      insert_owners-duplicate r.id a b between after (without_owners r.id db.owners) dup in
    ground (arith, kept, clash)
