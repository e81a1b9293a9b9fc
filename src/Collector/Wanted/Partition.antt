-- ===== src/Collector/Wanted/Partition.antt =====
-- collector.go: what partitionNamespaces and preserveExistingNamespaces make of their maps.
use icinga_kubernetes.Common.{
  ℕ, ◌≡◌, ◌↔◌, ◌⊎◌, inl, inr, refl, ap, sym, ◌∙◌, subst, arith, true, false, Option, none, some,
  Option-cases, Bool-cases, List, [], ◌∷◌, Exists, String, str_eq, eq_iff, if◌then◌else◌,
}
use icinga_kubernetes.Common.Table.{find, at, find-upsert}
use icinga_kubernetes.Collector.Permissions.{Gvr, has}
use icinga_kubernetes.Collector.Wanted.{
  LeaseShard, shard_eq, shard_eq_iff, NamesBy, key_of, add_name, names_of, names_in, partition_of,
  partition_gvr, partition_all, partition_namespaces,
}

abbrev pub find_names : LeaseShard → NamesBy LeaseShard → Option (LeaseShard × List String)
find_names t = find (at key_of shard_eq t)

-- Is the namespace among those of the shard?
abbrev pub HasName : LeaseShard → String → NamesBy LeaseShard → Type 0
HasName t n m = has (names_of shard_eq t m) n ≡ true

add_name-find :
    (k : LeaseShard) (name : String) (m : NamesBy LeaseShard)
    → names_of shard_eq k (add_name shard_eq k name m) ≡ name ∷ names_of shard_eq k m
add_name-find k name m = ap names_in found ∙ elim (Option-cases (find_names k m)) [
  | inl n ↦ rw (same, n) refl
  | inr (e, n) ↦ rw (same, n) refl
]
  where
    found : find_names k (add_name shard_eq k name m) ≡ (
        if shard_eq k k
        then some (elim (find_names k m) [ none ↦ (k, name ∷ []) | some b ↦ (b.0, name ∷ b.1) ])
        else find_names k m)
    found =
        find-upsert key_of shard_eq shard_eq_iff k k (k, name ∷ []) (λ e. (e.0, name ∷ e.1)) m refl
          (λ b. refl)

    same : shard_eq k k ≡ true
    same = (shard_eq_iff k k).1 refl

add_name-others :
    (t k : LeaseShard) (name : String) (m : NamesBy LeaseShard)
    → shard_eq k t ≡ false
    → names_of shard_eq t (add_name shard_eq k name m) ≡ names_of shard_eq t m
add_name-others t k name m d = ap names_in found ∙ rw d refl
  where
    found : find_names t (add_name shard_eq k name m) ≡ (
        if shard_eq k t
        then some (elim (find_names k m) [ none ↦ (k, name ∷ []) | some b ↦ (b.0, name ∷ b.1) ])
        else find_names t m)
    found =
        find-upsert key_of shard_eq shard_eq_iff t k (k, name ∷ []) (λ e. (e.0, name ∷ e.1)) m refl
          (λ b. refl)

head_iff :
    (k : LeaseShard) (n name : String) (m : NamesBy LeaseShard)
    → (has (name ∷ names_of shard_eq k m) n ≡ true) ↔ (((k ≡ k) × (name ≡ n)) ⊎ HasName k n m)
unfolding has
head_iff k n name m = elim (Bool-cases (str_eq name n)) [
  | inl e ↦ (λ h. inl (refl, (eq_iff name n).0 e), λ _. rw e refl)
  | inr e ↦ (
    λ h. inr (ground (arith, h, e)),
    λ z. elim z [
      | inl (x, y) ↦ absurd (ground (arith, (eq_iff name n).1 y, e))
      | inr h ↦ ground (arith, h, e)
    ],
  )
]

pub add_name_iff :
    (t k : LeaseShard) (n name : String) (m : NamesBy LeaseShard)
    → HasName t n (add_name shard_eq k name m) ↔ (((k ≡ t) × (name ≡ n)) ⊎ HasName t n m)
unfolding has
add_name_iff t k n name m = elim (Bool-cases (shard_eq k t)) [
  | inl e ↦
      subst
        (λ t. HasName t n (add_name shard_eq k name m) ↔ (((k ≡ t) × (name ≡ n)) ⊎ HasName t n m))
        ((shard_eq_iff k t).0 e) (rw (add_name-find k name m) (head_iff k n name m))
  | inr e ↦ rw (add_name-others t k name m e) (
    λ h. inr h,
    λ z. elim z [ inl (x, y) ↦ absurd (ground (arith, (shard_eq_iff k t).1 x, e)) | inr h ↦ h ],
  )
]

shard_made :
    (g : Gvr) (p : ℕ) (t : LeaseShard)
    → g ≡ t.gvr
    → p ≡ t.partition
    → record { gvr = g; partition = p } ≡ t
shard_made g p t a b = λ i. record { gvr = a i; partition = b i }

-- The wanted namespace `n` of the shard's resource falls into the shard's partition.
abbrev pub Falls : (String → ℕ) → LeaseShard → String → Gvr × List String → Type 0
Falls crc32 t n (gvr, nss) =
    (gvr ≡ t.gvr) × (partition_of crc32 n ≡ t.partition) × (has nss n ≡ true)

module _ (crc32 : String → ℕ) (t : LeaseShard) (n : String) where
  first_name_iff :
      (gvr : Gvr) (ns : String) (nss : List String)
      → Falls crc32 t n (gvr, ns ∷ nss) ↔ (
          ((record { gvr = gvr; partition = partition_of crc32 ns } ≡ t) × (ns ≡ n))
          ⊎ Falls crc32 t n (gvr, nss))
  unfolding has
  first_name_iff gvr ns nss = elim (Bool-cases (str_eq ns n)) [
    | inl e ↦
        let same : ns ≡ n = (eq_iff ns n).0 e in
        let part : partition_of crc32 ns ≡ partition_of crc32 n = ap (partition_of crc32) same in
        (
          λ f. inl (shard_made gvr (partition_of crc32 ns) t f.0 (part ∙ f.1), same),
          λ z. elim z [
            | inl (q, r) ↦ (ap (λ s. s.gvr) q, sym part ∙ ap (λ s. s.partition) q, rw e refl)
            | inr (p, q, r) ↦ (p, q, rw e refl)
          ],
        )
    | inr e ↦ (
      λ f. inr (f.0, f.1, ground (arith, f.2, e)),
      λ z. elim z [
        | inl (q, r) ↦ absurd (ground (arith, (eq_iff ns n).1 r, e))
        | inr (p, q, r) ↦ (p, q, ground (arith, r, e))
      ],
    )
  ]

  partition_gvr_iff :
      (gvr : Gvr) (nss : List String) (r : NamesBy LeaseShard)
      → HasName t n (partition_gvr crc32 gvr nss r) ↔ (Falls crc32 t n (gvr, nss) ⊎ HasName t n r)
  unfolding partition_gvr has
  partition_gvr_iff gvr [] r =
      (λ h. inr h, λ z. elim z [ inl (a, b, c) ↦ absurd (ground (arith, c)) | inr h ↦ h ])
  partition_gvr_iff gvr (ns ∷ nss) r =
      let k : LeaseShard = record { gvr = gvr; partition = partition_of crc32 ns } in
      let a = partition_gvr_iff gvr nss (add_name shard_eq k ns r) in
      let b = add_name_iff t k n ns r in
      let c = first_name_iff gvr ns nss in
      (
        λ h. elim (a.0 h) [
          | inl f ↦ inl (c.1 (inr f))
          | inr h' ↦ elim (b.0 h') [ inl q ↦ inl (c.1 (inl q)) | inr h'' ↦ inr h'' ]
        ],
        λ z. elim z [
          | inl f ↦ elim (c.0 f) [ inl q ↦ a.1 (inr (b.1 (inl q))) | inr f' ↦ a.1 (inl f') ]
          | inr h ↦ a.1 (inr (b.1 (inr h)))
        ],
      )

  partition_all_iff :
      (wanted : NamesBy Gvr) (r : NamesBy LeaseShard)
      → HasName t n (partition_all crc32 wanted r)
        ↔ (Exists (Falls crc32 t n) wanted ⊎ HasName t n r)
  unfolding partition_all
  partition_all_iff [] r = (λ h. inr h, λ z. elim z [ inl x ↦ absurd x | inr h ↦ h ])
  partition_all_iff ((gvr, nss) ∷ wanted) r =
      let a = partition_all_iff wanted (partition_gvr crc32 gvr nss r) in
      let b = partition_gvr_iff gvr nss r in
      (
        λ h. elim (a.0 h) [
          | inl f ↦ inl (inr f)
          | inr h' ↦ elim (b.0 h') [ inl q ↦ inl (inl q) | inr h'' ↦ inr h'' ]
        ],
        λ z. elim z [
          | inl f ↦ elim f [ inl q ↦ a.1 (inr (b.1 (inl q))) | inr f' ↦ a.1 (inl f') ]
          | inr h ↦ a.1 (inr (b.1 (inr h)))
        ],
      )

  -- A lease shard has exactly the wanted namespaces of its resource that fall into its partition:
  -- the cluster scope into the first, and any other name by its checksum.
  pub partition_namespaces_iff :
      (wanted : NamesBy Gvr)
      → HasName t n (partition_namespaces crc32 wanted) ↔ Exists (Falls crc32 t n) wanted
  unfolding partition_namespaces has
  partition_namespaces_iff wanted =
      let a = partition_all_iff wanted [] in
      (λ h. elim (a.0 h) [ inl f ↦ f | inr e ↦ absurd (ground (arith, e)) ], λ f. a.1 (inl f))
