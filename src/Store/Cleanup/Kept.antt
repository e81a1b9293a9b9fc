-- ===== src/Store/Cleanup/Kept.antt =====
-- store.go: what Cleanup keeps.
use icinga_kubernetes.Common.{
  ℕ, ◌≤◌, ◌≡◌, refl, sym, ◌∙◌, arith, inl, inr, Bool-cases, Bool, true, false, ◌&&◌, not, is_none,
  none, some, Option, List, [], ◌∷◌, str_eq, if◌then◌else◌,
}
use icinga_kubernetes.Common.Table.{select, find, count, at}
use icinga_kubernetes.Common.Text.{to_lower}
use icinga_kubernetes.Model.{Time}
use icinga_kubernetes.Store.Tables.{
  EventRow, ShardHead, ResourceRow, OutboxRow, Db, ShardKey, shard_eq, head_key,
}
use icinga_kubernetes.Store.Inbox.{is_pending}
use icinga_kubernetes.Store.Inbox.Current.{Cached, next_event-cong, Cached-cong, head_of}
use icinga_kubernetes.Store.Shard.Heads.{HeadsUnique}
use icinga_kubernetes.Store.Shard.Marks.{has_id}
use icinga_kubernetes.Store.Shard.Completed.{InboxValid}
use icinga_kubernetes.Store.Cleanup.{
  Retention, is_old_event, is_old_head, is_old_tombstone, is_old_inbox, is_old_delivery,
  delete_from, delete_resources, delete_expired, cleanup,
}

abbrev unless_deleted : {A : Type 0} → (A → Bool) → Option A → Option A
unless_deleted p none = none
unless_deleted p (some a) = if p a then none else some a

-- Deletions, seen by a test of the rows.
module _ {A : Type 0} (p q : A → Bool) where
  select-delete_from :
      (rows : List A)
      → ((a : A) → q a ≡ true → p a ≡ false)
      → select q (delete_from p rows) ≡ select q rows
  select-delete_from [] h = refl
  select-delete_from (a ∷ rows) h = ground (arith, h a, select-delete_from rows h)

  count-delete_from :
      (rows : List A)
      → ((a : A) → q a ≡ true → p a ≡ false)
      → count q (delete_from p rows) ≡ count q rows
  count-delete_from [] h = refl
  count-delete_from (a ∷ rows) h = ground (arith, h a, count-delete_from rows h)

  count-delete_from-le : (rows : List A) → count q (delete_from p rows) ≤ count q rows
  count-delete_from-le [] = omega arith
  count-delete_from-le (a ∷ rows) = ground (arith, count-delete_from-le rows)

  find-absent : (rows : List A) → count q rows ≡ 0 → find q (delete_from p rows) ≡ none
  find-absent [] c = refl
  find-absent (a ∷ rows) c = ground (arith, c, find-absent rows)

  find-delete_from :
      (rows : List A)
      → count q rows ≤ 1
      → find q (delete_from p rows) ≡ unless_deleted p (find q rows)
  find-delete_from [] c = refl
  find-delete_from (a ∷ rows) c = ground (arith, c, find-absent rows, find-delete_from rows)

pending-young :
    (now : Time) (r : Retention) (k : ShardKey) (e : EventRow)
    → is_pending k e ≡ true
    → is_old_inbox now r e ≡ false
pending-young now r k e h = ground (arith, h)

old_head-empty :
    (now : Time) (r : Retention) (h : ShardHead) → is_old_head now r h ≡ true → h.pending_events ≡ 0
unfolding is_old_head
old_head-empty now r h e = ground (arith, e)

Cached-unless_deleted :
    (now : Time) (r : Retention) (k : ShardKey) (events : List EventRow) (h : Option ShardHead)
    → Cached k events h
    → Cached k events (unless_deleted (is_old_head now r) h)
Cached-unless_deleted now r k events none c = c
Cached-unless_deleted now r k events (some h) c = elim (Bool-cases (is_old_head now r h)) [
  | inl e ↦ rw e (let z = old_head-empty now r h e in omega (arith, z, c.0))
  | inr e ↦ rw e c
]

-- A resource that is no event and is not deleted.
abbrev pub is_live : ResourceRow → Bool
is_live r = is_none r.resource.deleted_at && not (str_eq (to_lower r.resource.kind) "event")

abbrev pub is_undelivered : OutboxRow → Bool
is_undelivered o = is_none o.delivered_at

pub record Kept (db db' : Db) : Type 0 where
  pub pending : (k : ShardKey) → select (is_pending k) db'.events ≡ select (is_pending k) db.events
  pub undelivered : select is_undelivered db'.outbox ≡ select is_undelivered db.outbox
  pub live : select is_live db'.resources ≡ select is_live db.resources

live-young_event :
    (now : Time) (k : Retention) (r : ResourceRow) → is_live r ≡ true → is_old_event now k r ≡ false
unfolding is_old_event
live-young_event now k r e = ground (arith, e)

delete_expired-live :
    (now : ℕ → Time) (k : Retention) (db : Db)
    → select is_live (delete_expired now k db).resources ≡ select is_live db.resources
unfolding delete_expired delete_resources
delete_expired-live now k db =
    select-delete_from (is_old_tombstone (now 1) k) is_live
      (delete_from (is_old_event (now 0) k) db.resources) (λ r e. ground (arith, e))
    ∙ select-delete_from (is_old_event (now 0) k) is_live db.resources (live-young_event (now 0) k)

delete_expired-Kept : (now : ℕ → Time) (k : Retention) (db : Db) → Kept db (delete_expired now k db)
unfolding delete_expired delete_resources
delete_expired-Kept now k db = record {
  pending = λ key.
      select-delete_from (is_old_inbox (now 5) k) (is_pending key) db.events
        (pending-young (now 5) k key);
  undelivered =
      select-delete_from (is_old_delivery (now 3) k) is_undelivered db.outbox
        (λ o e. ground (arith, e));
  live = delete_expired-live now k db;
}

delete_expired-InboxValid :
    (now : ℕ → Time) (k : Retention) (db : Db)
    → HeadsUnique db
    → InboxValid db
    → InboxValid (delete_expired now k db)
unfolding delete_expired delete_resources
delete_expired-InboxValid now k db unique v = record {
  distinct = λ id.
      let d = v.distinct id in
      omega (arith, d, count-delete_from-le (is_old_inbox (now 5) k) (has_id id) db.events);
  current = λ key.
      let young = pending-young (now 5) k key in
      let events = delete_from (is_old_inbox (now 5) k) db.events in
      rw (find-delete_from (is_old_head (now 4) k) (at head_key shard_eq key) db.heads (unique key))
        (Cached-unless_deleted (now 4) k key events (head_of key db.heads) (
          Cached-cong key db.events events (head_of key db.heads)
            (sym (count-delete_from (is_old_inbox (now 5) k) (is_pending key) db.events young))
            (sym (
              next_event-cong key events db.events
                (select-delete_from (is_old_inbox (now 5) k) (is_pending key) db.events young)))
            (v.current key)));
}

-- Cleanup, at whatever times and retentions, keeps every inbox event that is not applied, every
-- notification that is not delivered and every resource that is neither an event nor deleted, in
-- their order, and leaves the inbox valid; given that it is valid and that no shard has two heads.
pub cleanup-Kept :
    (acquired : Bool) (now : ℕ → Time) (k : Retention) (db : Db)
    → HeadsUnique db
    → InboxValid db
    → Kept db (cleanup acquired now k db) × InboxValid (cleanup acquired now k db)
unfolding cleanup
cleanup-Kept true now k db unique v =
    (delete_expired-Kept now k db, delete_expired-InboxValid now k db unique v)
cleanup-Kept false now k db unique v =
    (record { pending = λ key. refl; undelivered = refl; live = refl }, v)

-- Cleanup leaves no two heads of one shard.
pub cleanup-HeadsUnique :
    (acquired : Bool) (now : ℕ → Time) (k : Retention) (db : Db)
    → HeadsUnique db
    → HeadsUnique (cleanup acquired now k db)
unfolding cleanup delete_expired delete_resources
cleanup-HeadsUnique true now k db unique key =
    let u = unique key in
    let fewer = count-delete_from-le (is_old_head (now 4) k) (at head_key shard_eq key) db.heads in
    omega (arith, u, fewer)
cleanup-HeadsUnique false now k db unique key = unique key
