-- ===== src/Collector/Discovery/Keeps.antt =====
-- collector.go: what the election makes of the shards that run, seen from one lease shard.
use icinga_kubernetes.Common.{
  ◌≡◌, refl, sym, ap, ◌∙◌, subst, inl, inr, arith, Bool, true, false, Option, none, some,
  Option-cases, Bool-cases, List, [], ◌∷◌, String, if◌then◌else◌,
}
use icinga_kubernetes.Common.Table.{find, at, find-upsert, find-count}
use icinga_kubernetes.Collector.Permissions.{Gvr, has}
use icinga_kubernetes.Collector.Wanted.{
  LeaseShard, shard_eq, shard_eq_iff, NamesBy, key_of, names_in, partition_namespaces, keep_names,
  preserve_existing_namespaces,
}
use icinga_kubernetes.Collector.Wanted.Partition.{find_names, HasName}
use icinga_kubernetes.Collector.Wanted.Keys.{
  DistinctKeys, preserve-DistinctKeys, partition_namespaces-DistinctKeys,
}
use icinga_kubernetes.Collector.Wanted.Preserved.{keep_names-new, preserve-old}
use icinga_kubernetes.Collector.Discovery.{
  Shard, Collector, target_of, start_shard, start_shards, existing, elect, resync, can_apply_resync,
  reconcile, Settings, Observation, permissions_complete, wanted_of,
}

abbrev pub find_shard : LeaseShard → List Shard → Option Shard
find_shard t = find (at target_of shard_eq t)

preserve-existing :
    (t : LeaseShard) (n : String) (shards : List Shard) (s : Shard) (m : NamesBy LeaseShard)
    → find_shard t shards ≡ some s
    → has s.namespaces n ≡ true
    → HasName t n (preserve_existing_namespaces m (existing shards))
unfolding preserve_existing_namespaces
preserve-existing t n [] s m e h = absurd (ground (arith, e))
preserve-existing t n (a ∷ shards) s m e h = elim (Bool-cases (shard_eq a.target t)) [
  | inl q ↦
      let here : a ≡ s = ground (arith, e, q) in
      let named : has a.namespaces n ≡ true = subst (λ x. has x.namespaces n ≡ true) (sym here) h in
      preserve-old t n (existing shards) (keep_names a.target a.namespaces m) (
        subst (λ k. HasName t n (keep_names k a.namespaces m)) (sym ((shard_eq_iff a.target t).0 q))
          (keep_names-new t n a.namespaces m named))
  | inr q ↦
      preserve-existing t n shards s (keep_names a.target a.namespaces m) (ground (arith, e, q)) h
]

-- The shard `t` after the start of the shards that `m` wants.
pub record Started (t : LeaseShard) (m : NamesBy LeaseShard) (before after : Option Shard)
    : Type 0 where
  pub unwanted : find_names t m ≡ none → after ≡ before
  pub wanted :
      (e : LeaseShard × List String)
      → find_names t m ≡ some e
      → (s : Shard) × (after ≡ some s)
        × (s.namespaces ≡ e.1)
        × ((o : Shard) → before ≡ some o → s.run ≡ o.run)

start_shard-find :
    (t k : LeaseShard) (nss : List String) (c : Collector)
    → find_shard t (start_shard k nss c).shards ≡ (
        if shard_eq k t
        then some (elim (find_shard k c.shards) [
          | none ↦ record { target = k; namespaces = nss; run = c.next_run }
          | some s ↦ record s { namespaces = nss }
        ])
        else find_shard t c.shards)
unfolding start_shard
start_shard-find t k nss c =
    find-upsert target_of shard_eq shard_eq_iff t k
      (record { target = k; namespaces = nss; run = c.next_run })
      (λ s. record s { namespaces = nss }) c.shards refl (λ b. refl)

election_head :
    (k : LeaseShard) (nss : List String) (m : NamesBy LeaseShard) (c : Collector)
    → DistinctKeys ((k, nss) ∷ m)
    → Started k m
        (find_shard k (start_shard k nss c).shards)
        (find_shard k (start_shards m (start_shard k nss c)).shards)
    → Started k
        ((k, nss) ∷ m)
        (find_shard k c.shards)
        (find_shard k (start_shards m (start_shard k nss c)).shards)
election_head k nss m c d r =
    let here : shard_eq k k ≡ true = (shard_eq_iff k k).1 refl in
    let once : find_names k m ≡ none =
      find-count (at key_of shard_eq k) m (ground (arith, d k, here)) in
    let after = r.unwanted once ∙ start_shard-find k k nss c in
    record {
      unwanted = λ n. absurd (ground (arith, n, here));
      wanted = λ e n.
          let names : e.1 ≡ nss = sym (ap (λ o. names_in o) (the_first here e n)) in
          elim (Option-cases (find_shard k c.shards)) [
            | inl f ↦ (
              record { target = k; namespaces = nss; run = c.next_run },
              after ∙ rw (here, f) refl,
              sym names,
              λ o b. absurd (ground (arith, f, b)),
            )
            | inr (s, f) ↦ (
              record s { namespaces = nss },
              after ∙ rw (here, f) refl,
              sym names,
              λ o b. ground (arith, f, b),
            )
          ];
    }
  where
    the_first :
        shard_eq k k ≡ true
        → (e : LeaseShard × List String) → find_names k ((k, nss) ∷ m) ≡ some e
        → some (k, nss) ≡ some e
    the_first h e n = sym (rw h refl) ∙ n

pub start_shards-Started :
    (t : LeaseShard) (m : NamesBy LeaseShard) (c : Collector)
    → DistinctKeys m
    → Started t m (find_shard t c.shards) (find_shard t (start_shards m c).shards)
unfolding start_shards
start_shards-Started t [] c d = record {
  unwanted = λ _. refl;
  wanted = λ e q. absurd (ground (arith, q));
}
start_shards-Started t ((k, nss) ∷ m) c d =
    let r = start_shards-Started t m (start_shard k nss c) (λ j. ground (arith, d j)) in
    elim (Bool-cases (shard_eq k t)) [
      | inr q ↦ record {
        unwanted = λ n. r.unwanted (ground (arith, n, q)) ∙ start_shard-find t k nss c ∙ rw q refl;
        wanted = λ e n.
            let (s, x, y, z) = r.wanted e (ground (arith, n, q)) in
            (s, x, y, λ o b. z o (start_shard-find t k nss c ∙ rw q b));
      }
      | inl q ↦
          let p = (shard_eq_iff k t).0 q in
          subst
            (λ j.
              Started j ((k, nss) ∷ m) (find_shard j c.shards)
                (find_shard j (start_shards m (start_shard k nss c)).shards))
            p
            (election_head k nss m c d (
              subst
                (λ j.
                  Started j m (find_shard j (start_shard k nss c).shards)
                    (find_shard j (start_shards m (start_shard k nss c)).shards))
                (sym p) r))
    ]

-- The same run of the shard goes on, with all of its namespaces at least.
abbrev pub Kept : Shard → Option Shard → Type 0
Kept s after =
    (s' : Shard) × (after ≡ some s')
    × (s'.run ≡ s.run)
    × ((n : String) → has s.namespaces n ≡ true → has s'.namespaces n ≡ true)

swept_shards :
    (settings : Settings) (failed : Bool) (wanted : NamesBy Gvr) (c : Collector)
    → (elect settings failed false wanted c).shards
      ≡ (start_shards
          (preserve_existing_namespaces
            (partition_namespaces settings.crc32 wanted)
            (existing c.shards))
          c).shards
unfolding elect
swept_shards settings true wanted c = refl
swept_shards settings false wanted c = refl

resync-incomplete :
    (o : Observation) (wanted : NamesBy Gvr) (c : Collector) → (resync o false wanted c).0 ≡ c
unfolding resync can_apply_resync
resync-incomplete o wanted c = elim (Option-cases o.resync) [
  | inl n ↦ rw (n, resync) refl
  | inr (requests, n) ↦ elim (Bool-cases o.discovery_error) [
    | inl d ↦ rw (n, d, resync) refl
    | inr d ↦ rw (n, d, resync) refl
  ]
]

elect-keeps :
    (settings : Settings) (failed : Bool) (wanted : NamesBy Gvr) (c : Collector) (t : LeaseShard)
    (s : Shard)
    → find_shard t c.shards ≡ some s
    → Kept s (find_shard t (elect settings failed false wanted c).shards)
unfolding elect
elect-keeps settings failed wanted c t s e =
    let m = partition_namespaces settings.crc32 wanted in
    let election = preserve_existing_namespaces m (existing c.shards) in
    let started = start_shards election c in
    let d =
      preserve-DistinctKeys m (existing c.shards)
        (partition_namespaces-DistinctKeys settings.crc32 wanted) in
    let st = start_shards-Started t election c d in
    let same : (elect settings failed false wanted c).shards ≡ started.shards =
      swept_shards settings failed wanted c in
    elim (Option-cases (find_names t election)) [
      | inl n ↦ (s, ap (find_shard t) same ∙ st.unwanted n ∙ e, refl, λ x h. h)
      | inr (found, n) ↦
          let (s', after, names, run) = st.wanted found n in
          (
            s',
            ap (find_shard t) same ∙ after,
            run s e,
            λ x h.
                subst (λ l. has l x ≡ true) (ap names_in n ∙ sym names)
                  (preserve-existing t x c.shards s m e h),
          )
    ]

-- Where a review of the permissions is incomplete, reconcile keeps every shard running that runs,
-- with each of its namespaces, whatever discovery finds.
pub reconcile-Kept :
    (settings : Settings) (o : Observation) (c : Collector) (t : LeaseShard) (s : Shard)
    → permissions_complete settings o ≡ false
    → find_shard t c.shards ≡ some s
    → Kept s (find_shard t (reconcile settings o c).0.shards)
unfolding reconcile resync can_apply_resync
reconcile-Kept settings o c t s incomplete e = rw incomplete (
    rw (resync-incomplete o (wanted_of settings o) c)
      (elect-keeps settings o.discovery_error (wanted_of settings o) c t s e))
