-- ===== src/Store/Apply/Watermark.antt =====
-- store.go: the watermark of a shard, reconciled_at, under applyResource.
use icinga_kubernetes.Common.{
  ◌≤◌, ◌<◌, ◌≡◌, refl, subst, inl, inr, arith, true, lt→ltb, Option, none, some, String, List,
  Bool-cases, if◌then◌else◌,
}
use icinga_kubernetes.Common.Table.{find, at, find-upsert}
use icinga_kubernetes.Common.Result.{ok}
use icinga_kubernetes.Model.{Time, Resource}
use icinga_kubernetes.Store.Tables.{ShardHead, Db, ShardKey, shard_eq, head_key}
use icinga_kubernetes.Store.Inbox.Current.{shard_eq_iff}
use icinga_kubernetes.Store.Apply.{
  Clock, round_micro, watermark_of, watermark, is_before, greatest, raise_watermark, marked_head,
  set_watermark, reconcile, apply_resource,
}
use icinga_kubernetes.Store.Apply.Rows.{heads-reconcile}
use icinga_kubernetes.Store.Apply.Monotone.{
  ignored, reconciled, stored, write_resource-Wrote, apply_resource-Outcome,
}

-- NULL is below every time.
abbrev pub NoLower : Option Time → Option Time → Type 0
NoLower none b = Unit {0}
NoLower (some a) none = ⊥
NoLower (some a) (some b) = a ≤ b

NoLower-refl : (a : Option Time) → NoLower a a
NoLower-refl none = tt
NoLower-refl (some a) = omega arith

raise_watermark-key :
    (cutoff : Time) (h : ShardHead) → head_key (raise_watermark cutoff h) ≡ head_key h
unfolding raise_watermark
raise_watermark-key cutoff h = refl

marked_head-key : (k : ShardKey) (cutoff : Time) → head_key (marked_head k cutoff) ≡ k
unfolding marked_head
marked_head-key k cutoff = refl

-- The watermarks after the statement, of every shard.
watermark-set_watermark :
    (j k : ShardKey) (cutoff : Time) (heads : List ShardHead)
    → watermark_of (find (at head_key shard_eq j) (set_watermark k cutoff heads)) ≡ (
        if shard_eq k j
        then some (greatest (watermark_of (find (at head_key shard_eq k) heads)) cutoff)
        else watermark_of (find (at head_key shard_eq j) heads))
unfolding set_watermark raise_watermark marked_head
watermark-set_watermark j k cutoff heads =
    rw
      (find-upsert head_key shard_eq shard_eq_iff j k (marked_head k cutoff)
        (raise_watermark cutoff) heads (marked_head-key k cutoff) (raise_watermark-key cutoff))
      (ground arith)

pub watermark-reconcile :
    (j k : ShardKey) (now cutoff : Time) (db : Db)
    → watermark j (reconcile now k cutoff db)
      ≡ (if shard_eq k j then some (greatest (watermark k db) cutoff) else watermark j db)
unfolding watermark
watermark-reconcile j k now cutoff db =
    rw (heads-reconcile now k cutoff db) (watermark-set_watermark j k cutoff db.heads)

greatest-NoLower : (a : Option Time) (t : Time) → NoLower a (some (greatest a t))
greatest-NoLower none t = tt
greatest-NoLower (some a) t = omega arith

reconcile-NoLower :
    (j k : ShardKey) (now cutoff : Time) (db : Db)
    → NoLower (watermark j db) (watermark j (reconcile now k cutoff db))
reconcile-NoLower j k now cutoff db =
    rw (watermark-reconcile j k now cutoff db) (elim (Bool-cases (shard_eq k j)) [
      | inl same ↦ rw same (
          subst (λ i. NoLower (watermark i db) (some (greatest (watermark k db) cutoff)))
            ((shard_eq_iff k j).0 same) (greatest-NoLower (watermark k db) cutoff))
      | inr other ↦ rw other (NoLower-refl (watermark j db))
    ])

-- No event lowers the watermark of any shard.
pub apply_resource-NoLower :
    (c : Clock) (action shard : String) (resource : Resource) (db db' : Db) (j : ShardKey)
    → apply_resource c action shard resource db ≡ ok db'
    → NoLower (watermark j db) (watermark j db')
apply_resource-NoLower c action shard resource db db' j e =
    elim (apply_resource-Outcome c action shard resource db db' e) [
      | ignored same ↦ rw same (NoLower-refl (watermark j db))
      | reconciled _ _ q ↦ rw q (
          reconcile-NoLower j (resource.cluster, shard) c.db_now (round_micro resource.observed_at)
            db)
      | stored _ _ w ↦
          unfold watermark in
          rw (write_resource-Wrote c action shard _ db db' w).heads (NoLower-refl (watermark j db))
    ]

is_before-NoLower :
    (t cutoff : Time) (w : Option Time)
    → t < cutoff
    → NoLower (some cutoff) w
    → is_before t w ≡ true
is_before-NoLower t cutoff none lt h = absurd h
is_before-NoLower t cutoff (some s) lt h = lt→ltb t s (omega arith)

-- Once a shard has been reconciled at a cutoff, an observation of that shard from before the cutoff
-- changes nothing, whatever its action is and whether or not its resource still has a row.
pub apply_resource-superseded :
    (c : Clock) (action shard : String) (resource : Resource) (cutoff : Time) (db : Db)
    → NoLower (some cutoff) (watermark (resource.cluster, shard) db)
    → round_micro resource.observed_at < cutoff
    → apply_resource c action shard resource db ≡ ok db
unfolding apply_resource
apply_resource-superseded c action shard resource cutoff db w lt =
    let old =
      is_before-NoLower (round_micro resource.observed_at) cutoff
        (watermark (resource.cluster, shard) db) lt w in
    ground arith

is_before→NoLower : (t : Time) (w : Option Time) → is_before t w ≡ true → NoLower (some t) w
is_before→NoLower t none h = absurd (ground arith)
is_before→NoLower t (some s) h = ground arith

greatest-ge : (a : Option Time) (t : Time) → NoLower (some t) (some (greatest a t))
greatest-ge none t = omega arith
greatest-ge (some a) t = omega arith

-- After a reconciliation marker is applied, also one that a newer marker has overtaken, the
-- watermark of its shard is at its cutoff or above.
pub reconcile_watermark :
    (c : Clock) (shard : String) (marker : Resource) (db db' : Db)
    → apply_resource c "reconcile" shard marker db ≡ ok db'
    → NoLower (some (round_micro marker.observed_at)) (watermark (marker.cluster, shard) db')
unfolding apply_resource
reconcile_watermark c shard marker db db' e =
    let t = round_micro marker.observed_at in
    let k : ShardKey = (marker.cluster, shard) in
    elim (Bool-cases (is_before t (watermark k db))) [
      | inl old ↦
          let same : db' ≡ db = ground arith in rw same (is_before→NoLower t (watermark k db) old)
      | inr new ↦
          let done : db' ≡ reconcile c.db_now k t db = ground arith in
          rw (done, watermark-reconcile k k c.db_now t db, (shard_eq_iff k k).1 refl)
            (greatest-ge (watermark k db) t)
    ]
