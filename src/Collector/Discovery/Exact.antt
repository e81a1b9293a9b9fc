-- ===== src/Collector/Discovery/Exact.antt =====
-- collector.go: reconcile after a complete discovery and a complete review of the permissions.
use icinga_kubernetes.Common.{
  ◌≡◌, ◌↔◌, refl, ap, ◌∙◌, inl, inr, arith, not, is_some, Bool, true, false, Option, none, some,
  Option-cases, Bool-cases, List, [], ◌∷◌, String, if◌then◌else◌,
}
use icinga_kubernetes.Common.Table.{select}
use icinga_kubernetes.Collector.Permissions.{Gvr, has}
use icinga_kubernetes.Collector.Wanted.{
  LeaseShard, shard_eq, shard_eq_iff, NamesBy, names_in, partition_namespaces,
}
use icinga_kubernetes.Collector.Wanted.Partition.{find_names, Falls, partition_namespaces_iff}
use icinga_kubernetes.Collector.Discovery.{
  Shard, Collector, start_shards, stop_shards, is_unwanted, elect, resync, reconcile, Settings,
  Observation, permissions_complete, wanted_of,
}
use icinga_kubernetes.Collector.Discovery.Keeps.{find_shard, start_shards-Started}
use icinga_kubernetes.Collector.Wanted.Keys.{partition_namespaces-DistinctKeys}
use icinga_kubernetes.Common.{ℕ, Exists, ◌≢◌}
use icinga_kubernetes.Collector.Wanted.Nonempty.{partition_namespaces-Named}

abbrev pub namespaces_in : Option Shard → List String
namespaces_in none = []
namespaces_in (some s) = s.namespaces

find-wanted :
    (t : LeaseShard) (m : NamesBy LeaseShard) (shards : List Shard)
    → find_shard t (select (λ s. not (is_unwanted m s)) shards)
      ≡ (if is_some (find_names t m) then find_shard t shards else none)
find-wanted t m [] = ground arith
find-wanted t m (s ∷ shards) = elim (Bool-cases (shard_eq s.target t)) [
  | inr q ↦ ground (arith, q, find-wanted t m shards)
  | inl q ↦
      let p = ap (λ j. is_some (find_names j m)) ((shard_eq_iff s.target t).0 q) in
      ground (arith, q, p, find-wanted t m shards)
]

elect-names :
    (settings : Settings) (wanted : NamesBy Gvr) (c : Collector) (t : LeaseShard)
    → namespaces_in (find_shard t (elect settings false true wanted c).shards)
      ≡ names_in (find_names t (partition_namespaces settings.crc32 wanted))
unfolding elect stop_shards
elect-names settings wanted c t =
    let m = partition_namespaces settings.crc32 wanted in
    let st = start_shards-Started t m c (partition_namespaces-DistinctKeys settings.crc32 wanted) in
    ap namespaces_in (find-wanted t m (start_shards m c).shards)
    ∙ elim (Option-cases (find_names t m)) [
      | inl n ↦ rw n refl
      | inr (e, n) ↦ let (s, after, names, run) = st.wanted e n in rw (n, after) names
    ]

-- A shard runs exactly if a name falls into its partition.
elect-runs :
    (settings : Settings) (wanted : NamesBy Gvr) (c : Collector) (t : LeaseShard)
    → is_some (find_shard t (elect settings false true wanted c).shards)
      ≡ is_some (find_names t (partition_namespaces settings.crc32 wanted))
unfolding elect stop_shards
elect-runs settings wanted c t =
    let m = partition_namespaces settings.crc32 wanted in
    let st = start_shards-Started t m c (partition_namespaces-DistinctKeys settings.crc32 wanted) in
    ap is_some (find-wanted t m (start_shards m c).shards) ∙ elim (Option-cases (find_names t m)) [
      | inl n ↦ rw n refl
      | inr (e, n) ↦ let (s, after, names, run) = st.wanted e n in rw (n, after) refl
    ]

-- Exactly the names that fall into the shard's partition are watched in it, and it runs exactly if
-- there is one.
abbrev pub Watches : (String → ℕ) → NamesBy Gvr → LeaseShard → Option Shard → Type 0
Watches crc32 wanted t shard =
    ((n : String) → (has (namespaces_in shard) n ≡ true) ↔ Exists (Falls crc32 t n) wanted)
    × ((is_some shard ≡ true) ↔ ((n : String) × Exists (Falls crc32 t n) wanted))

absent : (n : String) (o : Option (LeaseShard × List String)) → o ≡ none → has (names_in o) n ≢ true
unfolding has
absent n none e h = ground (arith, h)
absent n (some x) e h = ground (arith, e)

elect-Watches :
    (settings : Settings) (failed complete : Bool) (wanted : NamesBy Gvr) (c : Collector)
    (t : LeaseShard)
    → failed ≡ false
    → complete ≡ true
    → Watches settings.crc32 wanted t
        (find_shard t (elect settings failed complete wanted c).shards)
elect-Watches settings true complete wanted c t f e = absurd (ground (arith, f))
elect-Watches settings false false wanted c t f e = absurd (ground (arith, e))
elect-Watches settings false true wanted c t f e =
    let m = partition_namespaces settings.crc32 wanted in
    let falls = λ (n : String). partition_namespaces_iff settings.crc32 t n wanted in
    (
      λ n. rw (elect-names settings wanted c t) (falls n),
      rw (elect-runs settings wanted c t) (elim (Option-cases (find_names t m)) [
        | inl o ↦ (
          λ x. absurd (ground (arith, x, o)),
          λ (n, x). let h = (falls n).1 x in absurd (absent n (find_names t m) o h),
        )
        | inr (k, o) ↦ (
          λ x.
              let (n, h) = partition_namespaces-Named settings.crc32 wanted t k o in
              (n, (falls n).0 (rw o h)),
          λ x. rw o refl,
        )
      ]),
    )

-- After a discovery without an error and a complete review of the permissions, every lease shard watches
-- exactly the wanted namespaces that fall into its partition, and it runs exactly if there is such a
-- namespace: a shard without one is stopped.
pub reconcile-exact :
    (settings : Settings) (o : Observation) (c : Collector) (t : LeaseShard)
    → o.discovery_error ≡ false
    → permissions_complete settings o ≡ true
    → Watches settings.crc32
        (wanted_of settings o)
        t
        (find_shard t (reconcile settings o c).0.shards)
unfolding reconcile
reconcile-exact settings o c t found complete =
    elect-Watches settings o.discovery_error (permissions_complete settings o)
      (wanted_of settings o) (resync o (permissions_complete settings o) (wanted_of settings o) c).0
      t found complete
