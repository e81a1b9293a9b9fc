-- ===== src/Store/Resolve/Closed.antt =====
-- store/event_recovery.go: what ResolveEvents writes.
use icinga_kubernetes.Common.{
  ℕ, ◌+◌, ◌≡◌, refl, sym, ◌∙◌, arith, inl, inr, Bool-cases, Bool, true, ◌&&◌, ◌||◌, not, any, some,
  List, [], ◌∷◌, length, insert, sort, String, str_eq, eq_refl,
}
use icinga_kubernetes.Common.Table.{select, find, update}
use icinga_kubernetes.Model.{Time}
use icinga_kubernetes.Store.Tables.{ResourceRow, Db, notify, log_change}
use icinga_kubernetes.Store.Resolve.{
  Transaction, is_open_event, open_events, closing_reason, recoveries, close_row, has_resource_id,
  close_event, close_events, by_id, resolve_events,
}

-- The rows of a table are there or not, whatever their order and their other columns.
any-insert :
    (p : ResourceRow → Bool) (r : ResourceRow) (rows : List ResourceRow)
    → any p (insert by_id r rows) ≡ (p r || any p rows)
any-insert p r [] = refl
any-insert p r (x ∷ rows) = ground (arith, any-insert p r rows)

any-sort : (p : ResourceRow → Bool) (rows : List ResourceRow) → any p (sort by_id rows) ≡ any p rows
any-sort p [] = refl
any-sort p (r ∷ rows) = ground (arith, any-insert p r (sort by_id rows), any-sort p rows)

unfoldable pub has_row : List ResourceRow → String → Bool
has_row rows id = any (has_resource_id id) rows

any-select :
    (p q : ResourceRow → Bool) (rows : List ResourceRow)
    → any p (select q rows) ≡ true
    → any p rows ≡ true
any-select p q [] e = e
any-select p q (r ∷ rows) e = ground (arith, e, any-select p q rows)

pub find-present :
    (p : ResourceRow → Bool) (rows : List ResourceRow)
    → any p rows ≡ true
    → (r : ResourceRow) × (find p rows ≡ some r)
find-present p [] e = absurd (ground (arith, e))
find-present p (r ∷ rows) e = elim (Bool-cases (p r)) [
  | inl q ↦ (r, rw q refl)
  | inr q ↦ let (s, f) = find-present p rows (ground (arith, e, q)) in (s, rw q f)
]

-- An update that keeps the id.
pub has_row-update :
    (id other reason : String) (now : Time) (rows : List ResourceRow)
    → has_row (update (has_resource_id id) (close_row now reason) rows) other ≡ has_row rows other
unfolding has_row close_row
has_row-update id other reason now [] = refl
has_row-update id other reason now (r ∷ rows) =
    ground (arith, has_row-update id other reason now rows)

-- What one statement writes, where its row is there.
pub record Announced (n : ℕ) (db db' : Db) : Type 0 where
  pub outbox : length db'.outbox ≡ length db.outbox + n
  pub changes : length db'.changes ≡ length db.changes + n
  pub rows : length db'.resources ≡ length db.resources
  pub events : db'.events ≡ db.events
  pub heads : db'.heads ≡ db.heads

length-update :
    {A : Type 0} (p : A → Bool) (f : A → A) (xs : List A) → length (update p f xs) ≡ length xs
length-update p f [] = refl
length-update p f (x ∷ xs) = omega (arith, length-update p f xs)

pub close_event-Announced :
    (now : Time) (id reason : String) (db : Db)
    → has_row db.resources id ≡ true
    → Announced 1 db (close_event now id reason db)
      × ((other : String)
          → has_row (close_event now id reason db).resources other ≡ has_row db.resources other)
unfolding close_event has_row notify log_change
close_event-Announced now id reason db e =
    let rows = update (has_resource_id id) (close_row now reason) db.resources in
    let (row, f) =
      find-present (has_resource_id id) rows (has_row-update id id reason now db.resources ∙ e) in
    rw f (
      record {
        outbox = omega arith;
        changes = omega arith;
        rows = length-update (has_resource_id id) (close_row now reason) db.resources;
        events = refl;
        heads = refl;
      },
      λ other. has_row-update id other reason now db.resources,
    )

abbrev pub AllPresent : Db → List (String × String) → Type 0
AllPresent db [] = Unit
AllPresent db ((id, reason) ∷ rest) = (has_row db.resources id ≡ true) × AllPresent db rest

pub AllPresent-kept :
    (db db' : Db) (rs : List (String × String))
    → ((id : String) → has_row db'.resources id ≡ has_row db.resources id)
    → AllPresent db rs
    → AllPresent db' rs
AllPresent-kept db db' [] h a = tt
AllPresent-kept db db' ((id, reason) ∷ rest) h (p, a) = (h id ∙ p, AllPresent-kept db db' rest h a)

close_events-Announced :
    (now : Time) (rs : List (String × String)) (db : Db)
    → AllPresent db rs
    → Announced (length rs) db (close_events now rs db)
unfolding close_events
close_events-Announced now [] db a = record {
  outbox = omega arith;
  changes = omega arith;
  rows = refl;
  events = refl;
  heads = refl;
}
close_events-Announced now ((id, reason) ∷ rest) db (p, a) =
    let (one, kept) = close_event-Announced now id reason db p in
    let db' = close_event now id reason db in
    let more = close_events-Announced now rest db' (AllPresent-kept db db' rest kept a) in
    record {
      outbox = omega (arith, one.outbox, more.outbox);
      changes = omega (arith, one.changes, more.changes);
      rows = more.rows ∙ one.rows;
      events = more.events ∙ one.events;
      heads = more.heads ∙ one.heads;
    }

pub recoveries-present :
    (t : Transaction) (db : Db) (es : List ResourceRow)
    → ((id : String) → has_row es id ≡ true → has_row db.resources id ≡ true)
    → AllPresent db (recoveries t db es)
unfolding recoveries has_row
recoveries-present t db [] h = tt
recoveries-present t db (e ∷ es) h =
    let rest = recoveries-present t db es (λ id q. h id (ground (arith, q))) in
    elim (Bool-cases (str_eq (closing_reason t db e) "")) [
      | inl q ↦ rw (q, recoveries) rest
      | inr q ↦ rw (q, recoveries) (h e.resource.id (ground (arith, eq_refl e.resource.id)), rest)
    ]

pub open_events-present :
    (t : Transaction) (db : Db) → AllPresent db (recoveries t db (open_events t db))
unfolding open_events has_row
open_events-present t db =
    let test : ResourceRow → Bool = λ e. is_open_event e && not (t.locked e.resource.id) in
    recoveries-present t db (open_events t db) (λ id q.
      any-select (has_resource_id id) test db.resources
        (sym (any-sort (has_resource_id id) (select test db.resources)) ∙ q))

-- ResolveEvents queues one notification and records one change for each closing, and does not touch
-- the inbox.
pub resolve_events-Announced :
    (t : Transaction) (db : Db)
    → Announced (length (recoveries t db (open_events t db))) db (resolve_events t db)
unfolding resolve_events
resolve_events-Announced t db =
    close_events-Announced t.db_now (recoveries t db (open_events t db)) db
      (open_events-present t db)
