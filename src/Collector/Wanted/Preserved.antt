-- ===== src/Collector/Wanted/Preserved.antt =====
-- collector.go: the namespaces that preserveExistingNamespaces finds and adds.
use icinga_kubernetes.Common.{
  ◌≡◌, refl, sym, ap, ◌∙◌, subst, inl, inr, arith, true, none, some, Option-cases, Bool-cases, List,
  [], ◌∷◌, String, str_eq, eq_iff,
}
use icinga_kubernetes.Common.Table.{upsert, at, find-upsert}
use icinga_kubernetes.Collector.Permissions.{has}
use icinga_kubernetes.Collector.Wanted.{
  LeaseShard, shard_eq, shard_eq_iff, NamesBy, key_of, names_in, names_of, keep_names,
  preserve_existing_namespaces,
}
use icinga_kubernetes.Collector.Wanted.Partition.{find_names, HasName, add_name_iff}

pub names_of-touched :
    (t k : LeaseShard) (m : NamesBy LeaseShard)
    → names_of shard_eq t (upsert (at key_of shard_eq k) (k, []) (λ e. e) m) ≡ names_of shard_eq t m
names_of-touched t k m =
    ap names_in (find-upsert key_of shard_eq shard_eq_iff t k (k, []) (λ e. e) m refl (λ b. refl))
    ∙ elim (Bool-cases (shard_eq k t)) [
      | inr d ↦ rw d refl
      | inl d ↦ rw d (
          subst
            (λ j.
              names_in {K = LeaseShard}
                (some (elim (find_names k m) [ none ↦ (k, []) | some b ↦ b ]))
              ≡ names_of shard_eq j m)
            ((shard_eq_iff k t).0 d)
            (elim (Option-cases (find_names k m)) [ inl n ↦ rw n refl | inr (b, n) ↦ rw n refl ]))
    ]

pub keep_names-old :
    (t k : LeaseShard) (n : String) (nss : List String) (m : NamesBy LeaseShard)
    → HasName t n m
    → HasName t n (keep_names k nss m)
unfolding keep_names
keep_names-old t k n [] m h = subst (λ names. has names n ≡ true) (sym (names_of-touched t k m)) h
keep_names-old t k n (ns ∷ nss) m h =
    (add_name_iff t k n ns (keep_names k nss m)).1 (inr (keep_names-old t k n nss m h))

pub keep_names-new :
    (t : LeaseShard) (n : String) (nss : List String) (m : NamesBy LeaseShard)
    → has nss n ≡ true
    → HasName t n (keep_names t nss m)
unfolding keep_names has
keep_names-new t n [] m h = absurd (ground (arith, h))
keep_names-new t n (ns ∷ nss) m h =
    (add_name_iff t t n ns (keep_names t nss m)).1 (elim (Bool-cases (str_eq ns n)) [
      | inl e ↦ inl (refl, (eq_iff ns n).0 e)
      | inr e ↦ inr (keep_names-new t n nss m (ground (arith, h, e)))
    ])

pub preserve-old :
    (t : LeaseShard) (n : String) (ex m : NamesBy LeaseShard)
    → HasName t n m
    → HasName t n (preserve_existing_namespaces m ex)
unfolding preserve_existing_namespaces
preserve-old t n [] m h = h
preserve-old t n ((k, nss) ∷ ex) m h =
    preserve-old t n ex (keep_names k nss m) (keep_names-old t k n nss m h)
