-- ===== src/Collector/Wanted.antt =====
-- collector.go: the namespaces that are wanted of each resource, and their partition into lease
-- shards. CRC-32 is a parameter.
pub mod Partition
pub mod Nonempty
pub mod Keys
pub mod Preserved
use icinga_kubernetes.Common.{
  ℕ, ◌%◌, ◌==◌, ==_iff, ◌≡◌, ◌↔◌, arith, eq_iff, ◌&&◌, Bool, true, Option, none, some, List, [],
  ◌∷◌, String, str_eq, if◌then◌else◌,
}
use icinga_kubernetes.Common.Table.{find, upsert, at}
use icinga_kubernetes.Collector.Permissions.{
  Gvr, gvr_eq, gvr_eq_iff, ResourceRule, rule_allows, list_watch,
}

pub record LeaseShard : Type 0 where
  pub gvr : Gvr
  pub partition : ℕ

abbrev pub shard_eq : LeaseShard → LeaseShard → Bool
shard_eq a b = gvr_eq a.gvr b.gvr && (a.partition == b.partition)

pub shard_eq_iff : (a b : LeaseShard) → (shard_eq a b ≡ true) ↔ (a ≡ b)
shard_eq_iff a b = ground (arith, gvr_eq_iff a.gvr b.gvr, ==_iff a.partition b.partition)

-- map[K]map[string]bool
abbrev pub NamesBy {ℓ} : Type ℓ → Type ℓ
NamesBy K = List (K × List String)

abbrev pub key_of {ℓ} : {K : Type ℓ} → K × List String → K
key_of e = e.0

-- `m[k][name] = true`, where m[k] is made if it is nil.
abbrev pub add_name {ℓ} : {K : Type ℓ} → (K → K → Bool) → K → String → NamesBy K → NamesBy K
add_name eq k name = upsert (at key_of eq k) (k, name ∷ []) (λ e. (e.0, name ∷ e.1))

abbrev pub names_in {ℓ} : {K : Type ℓ} → Option (K × List String) → List String
names_in none = []
names_in (some e) = e.1

abbrev pub names_of {ℓ} : {K : Type ℓ} → (K → K → Bool) → K → NamesBy K → List String
names_of eq k m = names_in (find (at key_of eq k) m)

abbrev pub namespace_lease_partitions : ℕ
namespace_lease_partitions = 16

abbrev pub partition_of : (String → ℕ) → String → ℕ
partition_of crc32 namespace =
    if str_eq namespace "" then 0 else crc32 namespace % namespace_lease_partitions

-- The inner loop of partitionNamespaces.
unfoldable pub partition_gvr :
    (String → ℕ) → Gvr → List String → NamesBy LeaseShard → NamesBy LeaseShard
partition_gvr crc32 gvr [] result = result
partition_gvr crc32 gvr (ns ∷ nss) result =
    partition_gvr crc32 gvr nss
      (add_name shard_eq (record { gvr = gvr; partition = partition_of crc32 ns }) ns result)

unfoldable pub partition_all : (String → ℕ) → NamesBy Gvr → NamesBy LeaseShard → NamesBy LeaseShard
unfolding partition_gvr
partition_all crc32 [] result = result
partition_all crc32 ((gvr, nss) ∷ wanted) result =
    partition_all crc32 wanted (partition_gvr crc32 gvr nss result)

-- partitionNamespaces
unfoldable pub partition_namespaces : (String → ℕ) → NamesBy Gvr → NamesBy LeaseShard
unfolding partition_all
partition_namespaces crc32 wanted = partition_all crc32 wanted []

-- `if wanted[target] == nil { wanted[target] = map[string]bool{} }` and the loop over the snapshot.
unfoldable pub keep_names : LeaseShard → List String → NamesBy LeaseShard → NamesBy LeaseShard
keep_names target [] wanted = upsert (at key_of shard_eq target) (target, []) (λ e. e) wanted
keep_names target (ns ∷ nss) wanted = add_name shard_eq target ns (keep_names target nss wanted)

-- preserveExistingNamespaces
unfoldable pub preserve_existing_namespaces :
    NamesBy LeaseShard → NamesBy LeaseShard → NamesBy LeaseShard
unfolding keep_names
preserve_existing_namespaces wanted [] = wanted
preserve_existing_namespaces wanted ((target, nss) ∷ existing) =
    preserve_existing_namespaces (keep_names target nss wanted) existing

-- The namespaced resources that the rules of one namespace permit.
unfoldable pub want_permitted :
    String → List ResourceRule → List (Gvr × Bool) → NamesBy Gvr → NamesBy Gvr
want_permitted ns rules [] wanted = wanted
want_permitted ns rules ((gvr, namespaced) ∷ preferred) wanted = want_permitted ns rules preferred (
    if namespaced && rule_allows rules gvr list_watch
    then add_name gvr_eq gvr ns wanted
    else wanted)

unfoldable pub want_namespaced :
    List (String × List ResourceRule) → List (Gvr × Bool) → NamesBy Gvr → NamesBy Gvr
unfolding want_permitted
want_namespaced [] preferred wanted = wanted
want_namespaced ((ns, rules) ∷ more) preferred wanted =
    want_namespaced more preferred (want_permitted ns rules preferred wanted)

-- `wanted[gvr] = map[string]bool{"": true}` for each permitted resource of the cluster.
unfoldable pub want_cluster : List Gvr → NamesBy Gvr → NamesBy Gvr
want_cluster [] wanted = wanted
want_cluster (gvr ∷ gvrs) wanted =
    want_cluster gvrs (upsert (at key_of gvr_eq gvr) (gvr, "" ∷ []) (λ e. (e.0, "" ∷ [])) wanted)
