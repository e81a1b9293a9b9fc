-- ===== src/Store/Resolve/Resolved.antt =====
-- store/event_recovery.go: which events ResolveEvents closes, and what it leaves of each row.
use icinga_kubernetes.Common.{
  ◌≤◌, ◌≡◌, refl, sym, ap, ◌∙◌, subst, arith, inl, inr, Bool-cases, Option-cases, Bool, true, ◌&&◌,
  not, Option, none, some, List, [], ◌∷◌, length, map, insert, sort, String, str_eq, eq_iff,
  eq_refl, if◌then◌else◌,
}
use icinga_kubernetes.Common.Table.{select, find, update, count, find-update, find-count}
use icinga_kubernetes.Json.{put, string}
use icinga_kubernetes.Model.{Time, State}
use icinga_kubernetes.Store.Tables.{ResourceRow, OutboxRow, ChangeRow, Db, notify, log_change}
use icinga_kubernetes.Store.Events.{event_lifecycle}
use icinga_kubernetes.Store.Resolve.{
  Transaction, is_open_event, open_events, closing_reason, recoveries, close_row, has_resource_id,
  announce, close_event, close_events, by_id, resolve_events,
}
use icinga_kubernetes.Store.Resolve.Closed.{
  has_row, find-present, resolve_events-Announced, close_event-Announced, AllPresent,
  AllPresent-kept, open_events-present,
}

-- PRIMARY KEY (id)
abbrev pub IdsUnique : Db → Type 0
IdsUnique db = (id : String) → count (has_resource_id id) db.resources ≤ 1

-- The row is that of a problem event, no other transaction holds it, and there is a reason to close it.
abbrev pub closes : Transaction → Db → ResourceRow → Bool
closes t db r =
    is_open_event r && not (t.locked r.resource.id) && not (str_eq (closing_reason t db r) "")

-- The event is over: the row is ok, with the reason, and its summary says so.
abbrev pub closed : Time → String → ResourceRow → ResourceRow
closed now reason r = record r {
  resource = record (r.resource) {
    state = State.ok;
    reason = reason;
    summary = put "eventLifecycle" (string (event_lifecycle reason)) r.resource.summary;
  };
  changed_at = now;
}

-- What a notification is about.
abbrev pub Notice : Type 0
Notice = String × State × String × String

abbrev pub notice : OutboxRow → Notice
notice o = (o.resource_id, o.state, o.reason, o.action)

abbrev pub change : ChangeRow → String × String
change c = (c.resource_id, c.action)

-- One more notice for each closing, the latest first.
abbrev pub with_notices : List (String × String) → List Notice → List Notice
with_notices [] ns = ns
with_notices ((id, reason) ∷ rs) ns = with_notices rs ((id, State.ok, reason, "upsert") ∷ ns)

abbrev pub with_changes : List (String × String) → List (String × String) → List (String × String)
with_changes [] cs = cs
with_changes ((id, reason) ∷ rs) cs = with_changes rs ((id, "upsert") ∷ cs)

abbrev pub keyed : String → String × String → Bool
keyed id p = str_eq p.0 id

-- What a run leaves, where `rs` are its closings, each with the id of a row and its reason.
pub record Resolved (t : Transaction) (db db' : Db) (rs : List (String × String)) : Type 0 where
  pub row :
      (r : ResourceRow)
      → find (has_resource_id r.resource.id) db.resources ≡ some r
      → find (has_resource_id r.resource.id) db'.resources
        ≡ some (if closes t db r then closed t.db_now (closing_reason t db r) r else r)
  pub closing :
      (r : ResourceRow)
      → find (has_resource_id r.resource.id) db.resources ≡ some r
      → find (keyed r.resource.id) rs
        ≡ (if closes t db r then some (r.resource.id, closing_reason t db r) else none)
  pub once : (id : String) → count (keyed id) rs ≤ 1
  pub size : length db'.resources ≡ length db.resources
  pub notices : map notice db'.outbox ≡ with_notices rs (map notice db.outbox)
  pub changes : map change db'.changes ≡ with_changes rs (map change db.changes)
  pub events : db'.events ≡ db.events
  pub heads : db'.heads ≡ db.heads

module _ (p : ResourceRow → Bool) where
  count-insert :
      (x : ResourceRow) (xs : List ResourceRow) → count p (insert by_id x xs) ≡ count p (x ∷ xs)
  count-insert x [] = refl
  count-insert x (y ∷ xs) = ground (arith, count-insert x xs)

  count-sort : (xs : List ResourceRow) → count p (sort by_id xs) ≡ count p xs
  count-sort [] = refl
  count-sort (x ∷ xs) = ground (arith, count-insert x (sort by_id xs), count-sort xs)

  find-insert :
      (x : ResourceRow) (xs : List ResourceRow)
      → count p (x ∷ xs) ≤ 1
      → find p (insert by_id x xs) ≡ find p (x ∷ xs)
  find-insert x [] h = refl
  find-insert x (y ∷ xs) h = ground (arith, h, find-insert x xs, find-count p xs)

  find-sort : (xs : List ResourceRow) → count p xs ≤ 1 → find p (sort by_id xs) ≡ find p xs
  find-sort [] h = refl
  find-sort (x ∷ xs) h =
      let c = count-sort xs in
      find-insert x (sort by_id xs) (ground (arith, c, h)) ∙ ground (arith, find-sort xs, h)

  count-select :
      (q : ResourceRow → Bool) (xs : List ResourceRow) → count p (select q xs) ≤ count p xs
  count-select q [] = omega arith
  count-select q (x ∷ xs) = ground (arith, count-select q xs)

  find-select :
      (q : ResourceRow → Bool) (xs : List ResourceRow) (r : ResourceRow)
      → count p xs ≤ 1
      → find p xs ≡ some r
      → find p (select q xs) ≡ (if q r then some r else none)
  find-select q [] r h e = absurd (ground (arith, e))
  find-select q (x ∷ xs) r h e = elim (Bool-cases (p x)) [
    | inr n ↦ ground (arith, n, h, e, find-select q xs r)
    | inl y ↦
        let same : x ≡ r = ground (arith, e, y) in
        let rest = find-count p (select q xs) in
        let c = count-select q xs in rw (sym same) (ground (arith, y, h, rest, c))
  ]

module _ (t : Transaction) (db : Db) (id : String) where
  abbrev reason_in : Option ResourceRow → Option (String × String)
  reason_in none = none
  reason_in (some e) =
      if str_eq (closing_reason t db e) ""
      then none
      else some (e.resource.id, closing_reason t db e)

  count-recoveries :
      (es : List ResourceRow)
      → count (keyed id) (recoveries t db es) ≤ count (has_resource_id id) es
  unfolding recoveries
  count-recoveries [] = omega arith
  count-recoveries (e ∷ es) = ground (arith, count-recoveries es)

  find-recoveries :
      (es : List ResourceRow)
      → count (has_resource_id id) es ≤ 1
      → find (keyed id) (recoveries t db es) ≡ reason_in (find (has_resource_id id) es)
  unfolding recoveries
  find-recoveries [] h = refl
  find-recoveries (e ∷ es) h = ground (
    arith,
    h,
    find-recoveries es,
    count-recoveries es,
    find-count (keyed id) (recoveries t db es),
  )

abbrev id_of : ResourceRow → String
id_of r = r.resource.id

announce-resources :
    (now : Time) (o : Option ResourceRow) (db : Db) → (announce now o db).resources ≡ db.resources
unfolding notify log_change
announce-resources now none db = refl
announce-resources now (some r) db = refl

close_event-resources :
    (now : Time) (id reason : String) (db : Db)
    → (close_event now id reason db).resources
      ≡ update (has_resource_id id) (close_row now reason) db.resources
unfolding close_event
close_event-resources now id reason db =
    let rows = update (has_resource_id id) (close_row now reason) db.resources in
    announce-resources now (find (has_resource_id id) rows) (record db { resources = rows })

abbrev after : Time → Option (String × String) → Option ResourceRow → Option ResourceRow
after now none o = o
after now (some (id, reason)) none = none
after now (some (id, reason)) (some r) = some (closed now reason r)

close_row-id :
    (now : Time) (reason : String) (r : ResourceRow) → id_of (close_row now reason r) ≡ id_of r
unfolding close_row
close_row-id now reason r = refl

find-close_events :
    (now : Time) (id : String) (rs : List (String × String)) (db : Db)
    → count (keyed id) rs ≤ 1
    → find (has_resource_id id) (close_events now rs db).resources
      ≡ after now (find (keyed id) rs) (find (has_resource_id id) db.resources)
unfolding close_events close_row
find-close_events now id [] db h = refl
find-close_events now id ((i, reason) ∷ rs) db h =
    let ih = find-close_events now id rs (close_event now i reason db) (ground (arith, h)) in
    let one =
      ap (find (has_resource_id id)) (close_event-resources now i reason db)
      ∙ find-update id_of str_eq eq_iff id i (close_row now reason) db.resources
          (close_row-id now reason) in
    ih ∙ ap (after now (find (keyed id) rs)) one ∙ elim (Bool-cases (str_eq i id)) [
      | inr n ↦ rw n refl
      | inl y ↦
          let free : find (keyed id) rs ≡ none = find-count (keyed id) rs (ground (arith, h, y)) in
          rw (y, free)
            (elim (Option-cases (find (has_resource_id id) db.resources)) [
              | inl o ↦ rw o refl
              | inr (r, o) ↦ rw o refl
            ])
    ]

find-holds :
    (p : ResourceRow → Bool) (xs : List ResourceRow) (r : ResourceRow)
    → find p xs ≡ some r
    → p r ≡ true
find-holds p [] r e = absurd (ground (arith, e))
find-holds p (x ∷ xs) r e = elim (Bool-cases (p x)) [
  | inr n ↦ find-holds p xs r (ground (arith, n, e))
  | inl y ↦ let same : x ≡ r = ground (arith, e, y) in subst (λ z. p z ≡ true) same y
]

close_event-notice :
    (now : Time) (id reason : String) (db : Db)
    → has_row db.resources id ≡ true
    → (map notice (close_event now id reason db).outbox
        ≡ (id, State.ok, reason, "upsert") ∷ map notice db.outbox)
      × (map change (close_event now id reason db).changes ≡ (id, "upsert") ∷ map change db.changes)
unfolding close_event close_row notify log_change has_row
close_event-notice now id reason db p =
    let (q, f) = find-present (has_resource_id id) db.resources p in
    let same : q.resource.id ≡ id =
      (eq_iff q.resource.id id).0 (find-holds (has_resource_id id) db.resources q f) in
    let found =
      find-update id_of str_eq eq_iff id id (close_row now reason) db.resources
        (close_row-id now reason) in
    rw (found, eq_refl id, f, same) (refl, refl)

close_events-notices :
    (now : Time) (rs : List (String × String)) (db : Db)
    → AllPresent db rs
    → (map notice (close_events now rs db).outbox ≡ with_notices rs (map notice db.outbox))
      × (map change (close_events now rs db).changes ≡ with_changes rs (map change db.changes))
unfolding close_events
close_events-notices now [] db a = (refl, refl)
close_events-notices now ((id, reason) ∷ rs) db (p, a) =
    let (_, kept) = close_event-Announced now id reason db p in
    let db' = close_event now id reason db in
    let (n, c) = close_event-notice now id reason db p in
    let (ns, cs) = close_events-notices now rs db' (AllPresent-kept db db' rs kept a) in
    (ns ∙ ap (with_notices rs) n, cs ∙ ap (with_changes rs) c)

closing_of :
    (t : Transaction) (db : Db) (r : ResourceRow)
    → reason_in t db r.resource.id
        (if is_open_event r && not (t.locked r.resource.id) then some r else none)
      ≡ (if closes t db r then some (r.resource.id, closing_reason t db r) else none)
closing_of t db r = elim (Bool-cases (is_open_event r && not (t.locked r.resource.id))) [
  | inr n ↦ ground (arith, n)
  | inl y ↦ elim (Bool-cases (str_eq (closing_reason t db r) "")) [
    | inl q ↦ ground (arith, y, q)
    | inr q ↦ ground (arith, y, q)
  ]
]

-- ResolveEvents closes exactly the problem events that no other transaction holds and that have a
-- reason to be closed: the row of each becomes ok with that reason, and every other row stays as it
-- is. It queues one notification of a closed event and records one change, in the order of the
-- closings and after what was there, and leaves the inbox alone; given that no two rows have one id.
pub resolve_events-Resolved :
    (t : Transaction) (db : Db)
    → IdsUnique db
    → Resolved t db (resolve_events t db) (recoveries t db (open_events t db))
unfolding resolve_events open_events
resolve_events-Resolved t db unique =
    let rs = recoveries t db (open_events t db) in
    let test : ResourceRow → Bool = λ e. is_open_event e && not (t.locked e.resource.id) in
    let chosen = select test db.resources in
    let bound : (id : String) → count (has_resource_id id) (sort by_id chosen) ≤ 1 = λ id. omega (
      arith,
      unique id,
      count-sort (has_resource_id id) chosen,
      count-select (has_resource_id id) test db.resources,
    ) in
    let once : (id : String) → count (keyed id) rs ≤ 1 =
      λ id. omega (arith, bound id, count-recoveries t db id (sort by_id chosen)) in
    let closing : (r : ResourceRow)
        → find (has_resource_id r.resource.id) db.resources ≡ some r
        → find (keyed r.resource.id) rs
          ≡ (if closes t db r then some (r.resource.id, closing_reason t db r) else none) =
      λ r e.
        let p = has_resource_id r.resource.id in
        find-recoveries t db r.resource.id (sort by_id chosen) (bound r.resource.id)
        ∙ ap (reason_in t db r.resource.id) (
            find-sort p chosen
              (omega (arith, unique r.resource.id, count-select p test db.resources))
            ∙ find-select p test db.resources r (unique r.resource.id) e)
        ∙ closing_of t db r in
    let a = resolve_events-Announced t db in
    let (notices, changes) = close_events-notices t.db_now rs db (open_events-present t db) in
    record {
      row = λ r e.
          find-close_events t.db_now r.resource.id rs db (once r.resource.id)
          ∙ rw (closing r e, e) (row_after t db r);
      closing = closing;
      once = once;
      size = a.rows;
      notices = notices;
      changes = changes;
      events = a.events;
      heads = a.heads;
    }
  where
    row_after :
        (t : Transaction) (db : Db) (r : ResourceRow)
        → after t.db_now
            (if closes t db r then some (r.resource.id, closing_reason t db r) else none)
            (some r)
          ≡ some (if closes t db r then closed t.db_now (closing_reason t db r) r else r)
    row_after t db r = elim (Bool-cases (closes t db r)) [ inl y ↦ rw y refl | inr n ↦ rw n refl ]
