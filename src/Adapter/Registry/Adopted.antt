-- ===== src/Adapter/Registry/Adopted.antt =====
-- registry.go: what becomes of the definitions that a file adds and of those that are built in.
use icinga_kubernetes.Common.{
  ◌≡◌, ◌≢◌, refl, sym, subst, arith, inl, inr, Bool-cases, true, ◌&&◌, not, none, List, [], ◌∷◌,
  ◌++◌, All, Exists, map, String, str_eq, eq_iff, eq_refl,
}
use icinga_kubernetes.Common.Text.{to_lower, equal_fold}
use icinga_kubernetes.Common.Result.{ok, refuse, ◌>>=◌, Result-cases}
use icinga_kubernetes.Adapter.Registry.{
  Definition, AdapterError, validate_definition, merge_definition, extends, merge_into, adopt,
  match_key, checks, load_custom,
}
use icinga_kubernetes.Adapter.Registry.File.{
  builtins, AdapterFile, missing, document, is_version_1, load_document, load, Document,
}
use icinga_kubernetes.Adapter.Registry.Fresh.{AllNew, load_custom-AllNew}
use icinga_kubernetes.Common.Int.{pos}
use icinga_kubernetes.Adapter.Registry.Loaded.{Valid, both_ok, load-Valid}

-- Every entry of the first list is one of the second.
abbrev pub Sub : {A : Type 0} → List A → List A → Type 0
Sub xs ys = All (λ a. Exists (λ b. b ≡ a) ys) xs

-- A definition for the same group and kind, with all the fields, rules and metrics of the first.
pub record Carries (d x : Definition) : Type 0 where
  pub group : x.group ≡ d.group
  pub kind : equal_fold x.kind d.kind ≡ true
  pub description_fields : Sub d.description_fields x.description_fields
  pub summary_fields : Sub d.summary_fields x.summary_fields
  pub healthy_conditions : Sub d.healthy_conditions x.healthy_conditions
  pub critical_conditions : Sub d.critical_conditions x.critical_conditions
  pub critical_phases : Sub d.critical_phases x.critical_phases
  pub status_fields : Sub d.status_fields x.status_fields
  pub metrics : Sub d.metrics x.metrics

abbrev pub Has : Definition → List Definition → Type 0
Has d = Exists (Carries d)

module _ {A : Type 0} where
  Exists-left : (P : A → Type 0) (xs ys : List A) → Exists P xs → Exists P (xs ++ ys)
  Exists-left P [] ys e = elim e [ ]
  Exists-left P (x ∷ xs) ys (inl p) = inl p
  Exists-left P (x ∷ xs) ys (inr e) = inr (Exists-left P xs ys e)

  Exists-right : (P : A → Type 0) (xs ys : List A) → Exists P ys → Exists P (xs ++ ys)
  Exists-right P [] ys e = e
  Exists-right P (x ∷ xs) ys e = inr (Exists-right P xs ys e)

  Sub-left : (xs ys zs : List A) → Sub xs ys → Sub xs (ys ++ zs)
  Sub-left [] ys zs s = tt
  Sub-left (x ∷ xs) ys zs (e, s) = (Exists-left (λ b. b ≡ x) ys zs e, Sub-left xs ys zs s)

  Sub-right : (xs ys zs : List A) → Sub xs zs → Sub xs (ys ++ zs)
  Sub-right [] ys zs s = tt
  Sub-right (x ∷ xs) ys zs (e, s) = (Exists-right (λ b. b ≡ x) ys zs e, Sub-right xs ys zs s)

  Sub-refl : (xs : List A) → Sub xs xs
  Sub-refl [] = tt
  Sub-refl (x ∷ xs) = (inl refl, Sub-right xs (x ∷ []) xs (Sub-refl xs))

Carries-refl : (d : Definition) → Carries d d
unfolding equal_fold
Carries-refl d = record {
  group = refl;
  kind = eq_refl (to_lower d.kind);
  description_fields = Sub-refl d.description_fields;
  summary_fields = Sub-refl d.summary_fields;
  healthy_conditions = Sub-refl d.healthy_conditions;
  critical_conditions = Sub-refl d.critical_conditions;
  critical_phases = Sub-refl d.critical_phases;
  status_fields = Sub-refl d.status_fields;
  metrics = Sub-refl d.metrics;
}

-- A merge keeps what the base carries.
Carries-base : (d base e : Definition) → Carries d base → Carries d (merge_definition base e)
unfolding merge_definition
Carries-base d base e c = record {
  group = c.group;
  kind = c.kind;
  description_fields =
      Sub-left d.description_fields base.description_fields e.description_fields
        c.description_fields;
  summary_fields = Sub-left d.summary_fields base.summary_fields e.summary_fields c.summary_fields;
  healthy_conditions =
      Sub-left d.healthy_conditions base.healthy_conditions e.healthy_conditions
        c.healthy_conditions;
  critical_conditions =
      Sub-left d.critical_conditions base.critical_conditions e.critical_conditions
        c.critical_conditions;
  critical_phases =
      Sub-left d.critical_phases base.critical_phases e.critical_phases c.critical_phases;
  status_fields = Sub-left d.status_fields base.status_fields e.status_fields c.status_fields;
  metrics = Sub-left d.metrics base.metrics e.metrics c.metrics;
}

-- A merge carries its extension.
Carries-extension :
    (d base : Definition) → extends d base ≡ true → Carries d (merge_definition base d)
unfolding merge_definition
Carries-extension d base e = record {
  group = ground (arith, e, eq_iff base.group d.group);
  kind = ground (arith, e);
  description_fields =
      Sub-right d.description_fields base.description_fields d.description_fields
        (Sub-refl d.description_fields);
  summary_fields =
      Sub-right d.summary_fields base.summary_fields d.summary_fields (Sub-refl d.summary_fields);
  healthy_conditions =
      Sub-right d.healthy_conditions base.healthy_conditions d.healthy_conditions
        (Sub-refl d.healthy_conditions);
  critical_conditions =
      Sub-right d.critical_conditions base.critical_conditions d.critical_conditions
        (Sub-refl d.critical_conditions);
  critical_phases =
      Sub-right d.critical_phases base.critical_phases d.critical_phases
        (Sub-refl d.critical_phases);
  status_fields =
      Sub-right d.status_fields base.status_fields d.status_fields (Sub-refl d.status_fields);
  metrics = Sub-right d.metrics base.metrics d.metrics (Sub-refl d.metrics);
}

-- A step keeps the definitions that were there, and has the one that it adds.
abbrev Adds : Definition → List Definition → List Definition → Type 0
Adds d ds ds' = Has d ds' × ((b : Definition) → Has b ds → Has b ds')

merge_into-Adds :
    (d : Definition) (ds ds' : List Definition) → merge_into d ds ≡ ok ds' → Adds d ds ds'
unfolding merge_into
merge_into-Adds d [] ds' e =
    let q : d ∷ [] ≡ ds' = ground (arith, e) in
    subst (Adds d []) q (inl (Carries-refl d), λ b h. elim h [ ])
merge_into-Adds d (base ∷ ds) ds' e = elim (Bool-cases (extends d base)) [
  | inl x ↦ elim (Result-cases (validate_definition (merge_definition base d))) [
    | inr (y, w) ↦ absurd (ground (arith, e, x, w))
    | inl (u, w) ↦
        let q : merge_definition base d ∷ ds ≡ ds' = ground (arith, e, x, w) in
        subst (Adds d (base ∷ ds)) q (
          inl (Carries-extension d base x),
          λ b h. elim h [ inl c ↦ inl (Carries-base b base d c) | inr m ↦ inr m ],
        )
  ]
  | inr x ↦ elim (Result-cases (merge_into d ds)) [
    | inr (y, w) ↦ absurd (ground (arith, e, x, w))
    | inl (rest, w) ↦
        let q : base ∷ rest ≡ ds' = ground (arith, e, x, w) in
        let (a, k) = merge_into-Adds d ds rest w in
        subst (Adds d (base ∷ ds)) q (inr a, λ b h. elim h [ inl c ↦ inl c | inr m ↦ inr (k b m) ])
  ]
]

adopt-Adds : (d : Definition) (ds ds' : List Definition) → adopt d ds ≡ ok ds' → Adds d ds ds'
adopt-Adds d ds ds' e = elim (Bool-cases (not (str_eq d.group "*") && not (str_eq d.kind "*"))) [
  | inl x ↦ merge_into-Adds d ds ds' (ground (arith, e, x))
  | inr x ↦
      let q : ds ++ d ∷ [] ≡ ds' = ground (arith, e, x) in
      subst (Adds d ds) q (
        Exists-right (Carries d) ds (d ∷ []) (inl (Carries-refl d)),
        λ b h. Exists-left (Carries b) ds (d ∷ []) h,
      )
]

All-Has :
    (ds ds' cs : List Definition)
    → ((b : Definition) → Has b ds → Has b ds')
    → All (λ c. Has c ds) cs
    → All (λ c. Has c ds') cs
All-Has ds ds' [] k a = tt
All-Has ds ds' (c ∷ cs) k (h, a) = (k c h, All-Has ds ds' cs k a)

load_custom-Adds :
    (names matches : List String) (custom ds ds' : List Definition)
    → load_custom names matches custom ds ≡ ok ds'
    → All (λ c. Has c ds') custom × ((b : Definition) → Has b ds → Has b ds')
unfolding load_custom
load_custom-Adds names matches [] ds ds' e =
    let q : ds ≡ ds' = ground (arith, e) in (tt, λ b h. subst (Has b) q h)
load_custom-Adds names matches (d ∷ custom) ds ds' e =
    let more = load_custom (to_lower d.name ∷ names) (match_key d ∷ matches) custom in
    let (checked, loaded) = both_ok (checks names matches d) (adopt d ds >>= more) ds' e in
    elim (Result-cases (adopt d ds)) [
      | inr (y, x) ↦ absurd (ground (arith, loaded, x))
      | inl (next, x) ↦
          let q : more next ≡ ok ds' = ground (arith, loaded, x) in
          let (a, k) = adopt-Adds d ds next x in
          let (as', k') =
            load_custom-Adds (to_lower d.name ∷ names) (match_key d ∷ matches) custom next ds' q in
          ((k' d a, as'), λ b h. k' b (k b h))
    ]

all_there : (ds : List Definition) → All (λ d. Has d ds) ds
all_there [] = tt
all_there (d ∷ ds) = (inl (Carries-refl d), All-Has ds (d ∷ ds) ds (λ b h. inr h) (all_there ds))

-- What Load leaves.
pub record Loaded (f : AdapterFile) (ds : List Definition) : Type 0 where
  pub valid : All Valid (load f ds).0
  pub refused : (load f ds).1 ≢ none → (load f ds).0 ≡ ds
  pub absent : f ≡ missing → load f ds ≡ (ds, none)
  pub adopted :
      (doc : Document)
      → f ≡ document doc
      → (load f ds).1 ≡ none
      → All (λ d. Has d (load f ds).0) doc.adapters × All (λ b. Has b (load f ds).0) builtins
  pub accepted :
      (doc : Document)
      → f ≡ document doc
      → doc.version ≡ pos 1
      → AllNew (map (λ d. to_lower d.name) builtins) [] builtins doc.adapters
      → load f ds ≡ (builtins ++ doc.adapters, none)

-- Load keeps the registry's definitions valid. Where it finds no file, and where it fails, it leaves them
-- as they were. A document that it accepts replaces them by definitions among which each one of the
-- document and each built-in one is carried, merged or not: one has its group and kind and all its
-- fields, state rules and metrics. It does accept a document of version 1 whose definitions are valid,
-- have a name and a kind, share no name and no match, and extend none that is there; then it leaves the
-- built-in definitions followed by these.
pub load-Loaded : (f : AdapterFile) (ds : List Definition) → All Valid ds → Loaded f ds
unfolding load load_document
load-Loaded f ds a =
    let (valid, refused) = load-Valid f ds a in
    record {
      valid = valid;
      refused = refused;
      absent = λ e. subst (λ g. load g ds ≡ (ds, none)) (sym e) refl;
      adopted = λ doc e n.
          subst
            (λ g.
              All (λ d. Has d (load g ds).0) doc.adapters × All (λ b. Has b (load g ds).0) builtins)
            (sym e) (of_document ds doc (subst (λ g. (load g ds).1 ≡ none) e n));
      accepted = λ doc e v n.
          subst (λ g. load g ds ≡ (builtins ++ doc.adapters, none)) (sym e) (of_new ds doc v n);
    }
  where
    of_document :
        (ds : List Definition) (doc : Document)
        → (load (document doc) ds).1 ≡ none
        → All (λ d. Has d (load (document doc) ds).0) doc.adapters
          × All (λ b. Has b (load (document doc) ds).0) builtins
    of_document ds doc n = elim (Result-cases (load_document doc)) [
      | inr (x, e) ↦ absurd (ground (arith, n, e))
      | inl (ds', e) ↦
          let (_, custom) =
            both_ok (refuse (not (is_version_1 doc.version)) AdapterError.unsupported_version)
              (load_custom (map (λ d. to_lower d.name) builtins) [] doc.adapters builtins) ds' e in
          let (as', k) =
            load_custom-Adds (map (λ d. to_lower d.name) builtins) [] doc.adapters builtins ds'
              custom in
          rw (e, load) (as', All-Has builtins ds' builtins k (all_there builtins))
    ]

    of_new :
        (ds : List Definition) (doc : Document)
        → doc.version ≡ pos 1
        → AllNew (map (λ d. to_lower d.name) builtins) [] builtins doc.adapters
        → load (document doc) ds ≡ (builtins ++ doc.adapters, none)
    of_new ds doc v n =
        let e =
          load_custom-AllNew (map (λ d. to_lower d.name) builtins) [] builtins doc.adapters n in
        rw (v, e, load, load_document) refl
