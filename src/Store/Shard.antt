-- ===== src/Store/Shard.antt =====
-- store.go: ApplyShard, one transaction of a worker over the inbox of one shard. `locked` are the
-- shards whose row another transaction holds (FOR UPDATE SKIP LOCKED).
pub mod Marks
pub mod Others
pub mod Loop
pub mod Completed
pub mod Current
pub mod Heads
use icinga_kubernetes.Common.{
  ℕ, suc, ◌+◌, ◌-◌, ◌*◌, ◌==◌, ltb, leb, min, ◌&&◌, ◌||◌, not, any, Bool, true, false, is_none,
  is_empty, Option, none, some, List, [], ◌∷◌, ◌++◌, length, take, sort, String, if◌then◌else◌,
}
use icinga_kubernetes.Common.Table.{select, find, update, at}
use icinga_kubernetes.Common.Result.{Result, ok, err, refuse, ◌>>=◌, ◌>>◌}
use icinga_kubernetes.Model.{Time, Resource, normalize}
use icinga_kubernetes.Model.Validate.{Host}
use icinga_kubernetes.Store.Tables.{
  EventRow, ShardHead, malformed, encoded, Db, DbError, ShardKey, shard_eq, head_key, event_key,
}
use icinga_kubernetes.Store.Inbox.{is_pending, received_before, head?, next_event}
use icinga_kubernetes.Store.Events.{second}
use icinga_kubernetes.Store.Apply.{Clock, apply_resource}

abbrev pub event_id_of : EventRow → ℕ
event_id_of e = e.event_id

abbrev pub find_event : Option ℕ → List EventRow → Option EventRow
find_event none events = none
find_event (some id) events = find (at event_id_of ◌==◌ id) events

-- event.applied_at IS NULL AND event.available_at <= clock_timestamp()
abbrev pub is_due : Time → EventRow → Bool
is_due now e = is_none e.applied_at && leb e.available_at now

-- The join of the unlocked heads with their events, where the event is due.
unfoldable pub candidates :
    (ShardKey → Bool) → Time → List EventRow → List ShardHead → List EventRow
candidates locked now events [] = []
candidates locked now events (h ∷ heads) =
    let rest = candidates locked now events heads in
    if locked (head_key h) then rest else elim (find_event h.event_id events) [
      | none ↦ rest
      | some e ↦ if is_due now e then e ∷ rest else rest
    ]

-- The events of the claimed shard, in their order, at most `limit` of them.
unfoldable pub claim : ShardKey → Time → ℕ → List EventRow → List EventRow
claim k now limit events =
    take limit
      (sort received_before (select (λ e. at event_key shard_eq k e && is_due now e) events))

pub record Progress : Type 0 where
  pub db : Db
  pub completed : List ℕ
  pub failure : Option String

-- SET error=$2,attempts=attempts+1,available_at=… + LEAST('1 minute', (attempts+1) * '1 second')
unfoldable pub postpone : Time → String → EventRow → EventRow
postpone now message e = record e {
  error = some message;
  attempts = e.attempts + 1;
  available_at = now + min (60 * second) ((e.attempts + 1) * second);
}

unfoldable pub postpone_event : Time → String → ℕ → Db → Db
postpone_event now message id db = record db {
  events = update (at event_id_of ◌==◌ id) (postpone now message) db.events;
}

-- The loop over the claimed events: it stops at the first that does not decode.
unfoldable pub process : Host → Clock → List EventRow → Progress → Result DbError Progress
process h c [] p = ok p
process h c (e ∷ es) p = elim e.payload [
  | malformed message ↦
      ok (record p { db = postpone_event c.db_now message e.event_id p.db; failure = some message })
  | encoded resource ↦
      elim (apply_resource c e.action e.shard (normalize h.sha256 c.now resource) p.db) [
        | err x ↦ err x
        | ok db ↦ process h c es (record p { db = db; completed = p.completed ++ e.event_id ∷ [] })
      ]
]

-- UPDATE ingest_event SET applied_at=…,error=NULL WHERE event_id IN (…)
unfoldable pub mark_applied : Time → List ℕ → List EventRow → List EventRow
mark_applied now ids =
    update (λ e. any (λ id. e.event_id == id) ids)
      (λ e. record e { applied_at = some now; error = none })

unfoldable pub advance_head : Option ℕ → ℕ → Time → ShardHead → ShardHead
advance_head next n now h = record h {
  event_id = next;
  pending_events = h.pending_events - n;
  last_applied_at = some now;
}

-- CHECK (pending_events >= 0) would fail
unfoldable pub overdrawn : ShardKey → ℕ → List ShardHead → Bool
overdrawn k n heads = elim (find (at head_key shard_eq k) heads) [
  | none ↦ false
  | some h ↦ ltb h.pending_events n
]

-- From the marks to COMMIT.
unfoldable pub complete : ShardKey → Time → Progress → Result DbError Db
complete k now p =
    let n = length p.completed in
    let events = mark_applied now p.completed p.db.events in
    if is_empty p.completed
    then ok p.db
    else if overdrawn k n p.db.heads
    then err DbError.check_violation
    else ok (record p.db {
      events = events;
      heads = update (at head_key shard_eq k) (advance_head (next_event k events) n now) p.db.heads;
    })

pub record Applied : Type 0 where
  pub db : Db
  pub count : ℕ
  pub failure : Option String

unfoldable pub apply_claimed : Host → Clock → ℕ → ShardKey → Db → Result DbError Applied
apply_claimed h c limit k db = do
  p ←
      process h c (claim k c.db_now limit db.events)
        (record { db = db; completed = []; failure = none })
  db' ← complete k c.db_now p
  ok (record { db = db'; count = length p.completed; failure = p.failure })

-- Store.ApplyShard
unfoldable pub apply_shard : Host → Clock → (ShardKey → Bool) → ℕ → Db → Result DbError Applied
apply_shard h c locked limit db =
    if ltb limit 1 || ltb 64 limit
    then err DbError.bad_limit
    else elim (head? (sort received_before (candidates locked c.db_now db.events db.heads))) [
      | none ↦ ok (record { db = db; count = 0; failure = none })
      | some e ↦ apply_claimed h c limit (event_key e) db
    ]
