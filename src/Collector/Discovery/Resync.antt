-- ===== src/Collector/Discovery/Resync.antt =====
-- collector.go: which shards applyResyncRequests restarts.
use icinga_kubernetes.Common.{
  ◌≡◌, ◌⊎◌, refl, ap, ◌∙◌, inl, inr, arith, not, is_some, true, false, Option-cases, Bool-cases,
  List, [], ◌∷◌, All, String, str_eq,
}
use icinga_kubernetes.Common.Table.{find, select, at}
use icinga_kubernetes.Collector.Permissions.{Gvr, gvr_eq}
use icinga_kubernetes.Collector.Wanted.{LeaseShard, shard_eq, shard_eq_iff, NamesBy, key_of}
use icinga_kubernetes.Collector.Discovery.{
  Shard, Collector, ResyncRequest, of_gvr, stop_shards, request_id, apply_resync_requests,
}
use icinga_kubernetes.Collector.Discovery.Keeps.{find_shard}

-- The request is for another resource, or its ID is among the applied ones.
abbrev pub Spares : LeaseShard → List (String × Gvr) → ResyncRequest → Type 0
Spares t applied r =
    (gvr_eq t.gvr r.gvr ≡ false) ⊎ (is_some (find (at request_id str_eq r.id) applied) ≡ true)

find-stopped :
    (t : LeaseShard) (gvr : Gvr) (shards : List Shard)
    → gvr_eq t.gvr gvr ≡ false
    → find_shard t (select (λ s. not (of_gvr gvr s)) shards) ≡ find_shard t shards
find-stopped t gvr [] d = refl
find-stopped t gvr (s ∷ shards) d = elim (Bool-cases (shard_eq s.target t)) [
  | inr q ↦ ground (arith, q, find-stopped t gvr shards d)
  | inl q ↦
      let p = ap (λ j. gvr_eq j.gvr gvr) ((shard_eq_iff s.target t).0 q) in ground (arith, q, p, d)
]

All-Spares :
    (t : LeaseShard) (id : String) (gvr : Gvr) (applied : List (String × Gvr))
    (rs : List ResyncRequest)
    → All (Spares t applied) rs
    → All (Spares t ((id, gvr) ∷ applied)) rs
All-Spares t id gvr applied [] a = tt
All-Spares t id gvr applied (r ∷ rs) (a, b) =
    (elim a [ inl x ↦ inl x | inr x ↦ inr (ground (arith, x)) ], All-Spares t id gvr applied rs b)

-- A lease shard runs on through the requests of a resync file if each of them is for another
-- resource or was applied before; what other requests do does not matter, errors included.
pub apply_resync_requests-Spares :
    (t : LeaseShard) (rs : List ResyncRequest) (wanted : NamesBy Gvr) (c : Collector)
    → All (Spares t c.applied_resync) rs
    → find_shard t (apply_resync_requests rs wanted c).0.shards ≡ find_shard t c.shards
unfolding apply_resync_requests stop_shards
apply_resync_requests-Spares t [] wanted c a = refl
apply_resync_requests-Spares t (r ∷ rs) wanted c (a, b) =
    let skipped = apply_resync_requests-Spares t rs wanted c b in
    elim (Option-cases (find (at request_id str_eq r.id) c.applied_resync)) [
      | inr (e, n) ↦ ground (arith, n, skipped)
      | inl n ↦ elim a [
        | inr x ↦ absurd (ground (arith, n, x))
        | inl d ↦
            let stopped = stop_shards (of_gvr r.gvr) c in
            let next : Collector = record stopped {
              applied_resync = (r.id, r.gvr) ∷ c.applied_resync;
            } in
            let applied =
              apply_resync_requests-Spares t rs wanted next
                (All-Spares t r.id r.gvr c.applied_resync rs b) in
            let kept = find-stopped t r.gvr c.shards d in
            elim (Bool-cases (is_some (find (at key_of gvr_eq r.gvr) wanted))) [
              | inr m ↦ rw (n, m, apply_resync_requests) skipped
              | inl m ↦ rw (n, m, apply_resync_requests) (applied ∙ kept)
            ]
      ]
    ]
