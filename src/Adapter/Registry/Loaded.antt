-- ===== src/Adapter/Registry/Loaded.antt =====
-- registry.go: the checks that the definitions of a registry have passed.
use icinga_kubernetes.Common.{
  ◌≡◌, ◌≢◌, map, refl, subst, arith, inl, inr, Bool-cases, ◌&&◌, not, none, List, [], ◌∷◌, ◌++◌,
  All, All-append, String, str_eq,
}
use icinga_kubernetes.Common.Text.{to_lower}
use icinga_kubernetes.Common.Result.{Result, ok, err, refuse, ◌>>◌, ◌>>=◌, Result-cases}
use icinga_kubernetes.Adapter.Registry.{
  Definition, AdapterError, validate_definition, merge_definition, extends, merge_into, adopt,
  match_key, unseen, checks, load_custom, sensitive_path, validate_metrics,
}
use icinga_kubernetes.Adapter.Registry.File.{
  builtins, AdapterFile, missing, broken, document, is_version_1, load_document, load,
}

abbrev pub Valid : Definition → Type 0
Valid d = validate_definition d ≡ ok tt

builtins-Valid : All Valid builtins
unfolding builtins validate_definition sensitive_path validate_metrics to_lower
builtins-Valid = (
  refl,
  (
    refl,
    (
      refl,
      (refl, (refl, (refl, (refl, (refl, (refl, (refl, (refl, (refl, (refl, (refl, tt))))))))))),
    ),
  ),
)

-- Both parts of a sequence that returns no error.
pub both_ok :
    {A : Type 0} (r : Result AdapterError (Unit {0})) (k : Result AdapterError A) (a : A)
    → (r >> k) ≡ ok a
    → (r ≡ ok tt) × (k ≡ ok a)
both_ok (ok u) k a e = (refl, e)
both_ok (err x) k a e = absurd (ground (arith, e))

merge_into-Valid :
    (d : Definition) (ds ds' : List Definition)
    → Valid d
    → All Valid ds
    → merge_into d ds ≡ ok ds'
    → All Valid ds'
unfolding merge_into
merge_into-Valid d [] ds' v a e =
    let q : d ∷ [] ≡ ds' = ground (arith, e) in subst (All Valid) q (v, tt)
merge_into-Valid d (base ∷ ds) ds' v (b, a) e = elim (Bool-cases (extends d base)) [
  | inl x ↦ elim (Result-cases (validate_definition (merge_definition base d))) [
    | inl (u, w) ↦
        let q : merge_definition base d ∷ ds ≡ ds' = ground (arith, e, x, w) in
        subst (All Valid) q (w, a)
    | inr (y, w) ↦ absurd (ground (arith, e, x, w))
  ]
  | inr x ↦ elim (Result-cases (merge_into d ds)) [
    | inl (rest, w) ↦
        let q : base ∷ rest ≡ ds' = ground (arith, e, x, w) in
        subst (All Valid) q (b, merge_into-Valid d ds rest v a w)
    | inr (y, w) ↦ absurd (ground (arith, e, x, w))
  ]
]

adopt-Valid :
    (d : Definition) (ds ds' : List Definition)
    → Valid d
    → All Valid ds
    → adopt d ds ≡ ok ds'
    → All Valid ds'
adopt-Valid d ds ds' v a e =
    elim (Bool-cases (not (str_eq d.group "*") && not (str_eq d.kind "*"))) [
      | inl x ↦ merge_into-Valid d ds ds' v a (ground (arith, e, x))
      | inr x ↦
          let q : ds ++ d ∷ [] ≡ ds' = ground (arith, e, x) in
          subst (All Valid) q (All-append Valid ds (d ∷ []) a (v, tt))
    ]

load_custom-Valid :
    (names matches : List String) (custom ds ds' : List Definition)
    → All Valid ds
    → load_custom names matches custom ds ≡ ok ds'
    → All Valid ds'
unfolding load_custom
load_custom-Valid names matches [] ds ds' a e =
    let q : ds ≡ ds' = ground (arith, e) in subst (All Valid) q a
load_custom-Valid names matches (d ∷ custom) ds ds' a e =
    let more = load_custom (to_lower d.name ∷ names) (match_key d ∷ matches) custom in
    let (checked, loaded) = both_ok (checks names matches d) (adopt d ds >>= more) ds' e in
    let valid : Valid d = (both_ok (unseen names matches d) (validate_definition d) tt checked).1 in
    elim (Result-cases (adopt d ds)) [
      | inr (y, x) ↦ absurd (ground (arith, loaded, x))
      | inl (next, x) ↦
          let q : more next ≡ ok ds' = ground (arith, loaded, x) in
          load_custom-Valid (to_lower d.name ∷ names) (match_key d ∷ matches) custom next ds'
            (adopt-Valid d ds next valid a x) q
    ]

-- Load keeps the registry's definitions valid, merged ones included, and where it fails it leaves
-- them as they were.
pub load-Valid :
    (f : AdapterFile) (ds : List Definition)
    → All Valid ds
    → All Valid (load f ds).0 × ((load f ds).1 ≢ none → (load f ds).0 ≡ ds)
unfolding load load_document
load-Valid missing ds a = (a, λ _. refl)
load-Valid broken ds a = (a, λ _. refl)
load-Valid (document doc) ds a = elim (Result-cases (load_document doc)) [
  | inr (x, e) ↦ rw (e, load) (a, λ _. refl)
  | inl (ds', e) ↦
      rw (e, load)
        (
          load_custom-Valid (map (λ d. to_lower d.name) builtins) [] doc.adapters builtins ds'
              builtins-Valid
              ((both_ok (refuse (not (is_version_1 doc.version)) AdapterError.unsupported_version)
                (load_custom (map (λ d. to_lower d.name) builtins) [] doc.adapters builtins) ds'
                e).1),
          λ n. absurd (n refl),
        )
]
