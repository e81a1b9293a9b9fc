-- ===== src/Collector/Wanted/Nonempty.antt =====
-- collector.go: partitionNamespaces makes a partition only for a namespace that falls into it.
use icinga_kubernetes.Common.{
  ℕ, ◌≡◌, ◌≢◌, refl, arith, inl, inr, true, none, some, Option, Option-cases, Bool-cases, List, [],
  ◌∷◌, String, eq_refl,
}
use icinga_kubernetes.Common.Table.{find-upsert}
use icinga_kubernetes.Collector.Permissions.{Gvr, has}
use icinga_kubernetes.Collector.Wanted.{
  LeaseShard, shard_eq, shard_eq_iff, NamesBy, key_of, add_name, partition_of, partition_gvr,
  partition_all, partition_namespaces,
}
use icinga_kubernetes.Collector.Wanted.Partition.{find_names}

-- A list of names, if there is one, is not empty.
abbrev pub Named : Option (LeaseShard × List String) → Type 0
Named none = Unit
Named (some (t, names)) = names ≢ []

abbrev AllNamed : NamesBy LeaseShard → Type 0
AllNamed m = (t : LeaseShard) → Named (find_names t m)

add_name-AllNamed :
    (k : LeaseShard) (name : String) (m : NamesBy LeaseShard)
    → AllNamed m
    → AllNamed (add_name shard_eq k name m)
add_name-AllNamed k name m a t =
    rw
      (find-upsert key_of shard_eq shard_eq_iff t k (k, name ∷ []) (λ e. (e.0, name ∷ e.1)) m refl
        (λ b. refl))
      (elim (Bool-cases (shard_eq k t)) [
        | inr n ↦ rw n (a t)
        | inl y ↦ rw y (elim (Option-cases (find_names k m)) [
          | inl o ↦ rw o (λ q. absurd (ground (arith, q)))
          | inr (b, o) ↦ rw o (λ q. absurd (ground (arith, q)))
        ])
      ])

partition_gvr-AllNamed :
    (crc32 : String → ℕ) (gvr : Gvr) (nss : List String) (m : NamesBy LeaseShard)
    → AllNamed m
    → AllNamed (partition_gvr crc32 gvr nss m)
unfolding partition_gvr
partition_gvr-AllNamed crc32 gvr [] m a = a
partition_gvr-AllNamed crc32 gvr (ns ∷ nss) m a =
    let k : LeaseShard = record { gvr = gvr; partition = partition_of crc32 ns } in
    partition_gvr-AllNamed crc32 gvr nss (add_name shard_eq k ns m) (add_name-AllNamed k ns m a)

partition_all-AllNamed :
    (crc32 : String → ℕ) (wanted : NamesBy Gvr) (m : NamesBy LeaseShard)
    → AllNamed m
    → AllNamed (partition_all crc32 wanted m)
unfolding partition_all
partition_all-AllNamed crc32 [] m a = a
partition_all-AllNamed crc32 ((gvr, nss) ∷ wanted) m a =
    partition_all-AllNamed crc32 wanted (partition_gvr crc32 gvr nss m)
      (partition_gvr-AllNamed crc32 gvr nss m a)

first_name : (names : List String) → names ≢ [] → (n : String) × (has names n ≡ true)
unfolding has
first_name [] d = absurd (d refl)
first_name (n ∷ names) d = (n, ground (arith, eq_refl n))

-- A partition that is there has a namespace.
pub partition_namespaces-Named :
    (crc32 : String → ℕ) (wanted : NamesBy Gvr) (t : LeaseShard) (e : LeaseShard × List String)
    → find_names t (partition_namespaces crc32 wanted) ≡ some e
    → (n : String) × (has e.1 n ≡ true)
unfolding partition_namespaces
partition_namespaces-Named crc32 wanted t (k, names) q =
    first_name names (rw q at (partition_all-AllNamed crc32 wanted [] (λ s. tt) t))
