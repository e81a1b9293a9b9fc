-- ===== src/Collector/Wanted/Keys.antt =====
-- collector.go: the keys of the maps of namespaces.
use icinga_kubernetes.Common.{ℕ, ◌≤◌, ◌≡◌, refl, arith, List, [], ◌∷◌, String}
use icinga_kubernetes.Common.Table.{upsert, count, at, count-upsert}
use icinga_kubernetes.Collector.Permissions.{Gvr}
use icinga_kubernetes.Collector.Wanted.{
  LeaseShard, shard_eq, shard_eq_iff, NamesBy, key_of, add_name, partition_of, partition_gvr,
  partition_all, partition_namespaces, keep_names, preserve_existing_namespaces,
}

-- A map has each key once.
abbrev pub DistinctKeys : NamesBy LeaseShard → Type 0
DistinctKeys m = (k : LeaseShard) → count (at key_of shard_eq k) m ≤ 1

pub upsert-DistinctKeys :
    (k : LeaseShard) (a : LeaseShard × List String)
    (f : LeaseShard × List String → LeaseShard × List String) (m : NamesBy LeaseShard)
    → a.0 ≡ k
    → ((b : LeaseShard × List String) → (f b).0 ≡ b.0)
    → DistinctKeys m
    → DistinctKeys (upsert (at key_of shard_eq k) a f m)
upsert-DistinctKeys k a f m ka kf d j =
    ground (arith, count-upsert key_of shard_eq shard_eq_iff j k a f m ka kf, d j)

pub keep_names-DistinctKeys :
    (k : LeaseShard) (nss : List String) (m : NamesBy LeaseShard)
    → DistinctKeys m
    → DistinctKeys (keep_names k nss m)
unfolding keep_names
keep_names-DistinctKeys k [] m d = upsert-DistinctKeys k (k, []) (λ e. e) m refl (λ b. refl) d
keep_names-DistinctKeys k (ns ∷ nss) m d =
    upsert-DistinctKeys k (k, ns ∷ []) (λ e. (e.0, ns ∷ e.1)) (keep_names k nss m) refl (λ b. refl)
      (keep_names-DistinctKeys k nss m d)

pub preserve-DistinctKeys :
    (m : NamesBy LeaseShard) (ex : NamesBy LeaseShard)
    → DistinctKeys m
    → DistinctKeys (preserve_existing_namespaces m ex)
unfolding preserve_existing_namespaces
preserve-DistinctKeys m [] d = d
preserve-DistinctKeys m ((k, nss) ∷ ex) d =
    preserve-DistinctKeys (keep_names k nss m) ex (keep_names-DistinctKeys k nss m d)

pub partition_gvr-DistinctKeys :
    (crc32 : String → ℕ) (gvr : Gvr) (nss : List String) (m : NamesBy LeaseShard)
    → DistinctKeys m
    → DistinctKeys (partition_gvr crc32 gvr nss m)
unfolding partition_gvr
partition_gvr-DistinctKeys crc32 gvr [] m d = d
partition_gvr-DistinctKeys crc32 gvr (ns ∷ nss) m d =
    let k : LeaseShard = record { gvr = gvr; partition = partition_of crc32 ns } in
    partition_gvr-DistinctKeys crc32 gvr nss (add_name shard_eq k ns m)
      (upsert-DistinctKeys k (k, ns ∷ []) (λ e. (e.0, ns ∷ e.1)) m refl (λ b. refl) d)

pub partition_all-DistinctKeys :
    (crc32 : String → ℕ) (wanted : NamesBy Gvr) (m : NamesBy LeaseShard)
    → DistinctKeys m
    → DistinctKeys (partition_all crc32 wanted m)
unfolding partition_all
partition_all-DistinctKeys crc32 [] m d = d
partition_all-DistinctKeys crc32 ((gvr, nss) ∷ wanted) m d =
    partition_all-DistinctKeys crc32 wanted (partition_gvr crc32 gvr nss m)
      (partition_gvr-DistinctKeys crc32 gvr nss m d)

pub partition_namespaces-DistinctKeys :
    (crc32 : String → ℕ) (wanted : NamesBy Gvr) → DistinctKeys (partition_namespaces crc32 wanted)
unfolding partition_namespaces
partition_namespaces-DistinctKeys crc32 wanted =
    partition_all-DistinctKeys crc32 wanted [] (λ k. omega arith)
