-- ===== src/Collector/Normalize/Parts.antt =====
-- collector.go, model.go: the owners, conditions, labels and annotations of a normalised resource before
-- the checks of the API.
use icinga_kubernetes.Common.{
  ℕ, ◌+◌, ◌*◌, ◌≤◌, ◌≡◌, ◌≢◌, refl, sym, arith, inl, inr, Bool-cases, eq_iff, Bool, true, false,
  ltb, ◌==◌, ◌||◌, Option, none, some, List, [], ◌∷◌, ◌++◌, length, length-append, All, All-append,
  String, str_eq, len,
}
use icinga_kubernetes.Json.{
  Value, null, boolean, integer, string, array, object, Items, nil, cons, Fields, get, put,
}
use icinga_kubernetes.Model.{Owner, Condition}
use icinga_kubernetes.Model.Validate.{
  label_refused, annotation_refused, contains_sensitive_name, owner_refused, condition_refused,
}
use icinga_kubernetes.Adapter.Object.{OwnerReference}
use icinga_kubernetes.Collector.Normalize.{
  text_of, truncate, Calls, is_within, keep_fields, normalize_owner, add_owners,
  normalize_condition, is_incomplete, add_conditions, label_limits, annotation_limits, contains_any,
}
use icinga_kubernetes.Collector.Normalize.Truncate.{truncate_lem, truncate-nonempty}
use icinga_kubernetes.Collector.Normalize.Bounded.{Passes}

abbrev pub Unrefused : {A : Type 0} → (A → Bool) → A → Type 0
Unrefused p a = p a ≡ false

pub truncate-len : (s : String) (limit : ℕ) → len (truncate s limit) ≤ limit
truncate-len s limit = let (_, bound, _, _) = truncate_lem s limit in bound

pub truncate-short : (s : String) (limit : ℕ) → ltb limit (len (truncate s limit)) ≡ false
truncate-short s limit = let b = truncate-len s limit in ground (arith, b)

-- One more than a number below the limit of a list.
one_more : (n m : ℕ) → n ≤ 64 → (n == 64) ≡ false → m ≡ n + 1 → m ≤ 64
one_more n m a b e = ground (arith, a, b, e)

pub not_empty : (s : String) → s ≢ "" → str_eq s "" ≡ false
not_empty s h = ground (arith, h, eq_iff s "")

pub normalize_owner-Unrefused :
    (r : OwnerReference)
    → (r.uid ≢ "") × (r.kind ≢ "") × (r.name ≢ "")
    → Unrefused owner_refused (normalize_owner r)
unfolding owner_refused normalize_owner
normalize_owner-Unrefused r (uid, kind, name) =
    let four : 4 ≤ 512 = omega arith in
    rw
      (
        not_empty (truncate r.uid 512) (truncate-nonempty r.uid 512 uid four),
        not_empty (truncate r.kind 512) (truncate-nonempty r.kind 512 kind four),
        not_empty (truncate r.name 512) (truncate-nonempty r.name 512 name four),
        truncate-short r.uid 512,
        truncate-short r.api_version 512,
        truncate-short r.kind 512,
        truncate-short r.name 512,
      )
      refl

pub add_owners-Unrefused :
    (refs : List OwnerReference) (owners : List Owner)
    → length owners ≤ 64
    → All (Unrefused owner_refused) owners
    → All (λ r. (r.uid ≢ "") × (r.kind ≢ "") × (r.name ≢ "")) refs
    → (length (add_owners refs owners) ≤ 64)
      × All (Unrefused owner_refused) (add_owners refs owners)
unfolding add_owners
add_owners-Unrefused [] owners n a named = (n, a)
add_owners-Unrefused (r ∷ refs) owners n a (named, rest) = elim (Bool-cases (length owners == 64)) [
  | inl e ↦ rw e (n, a)
  | inr e ↦ rw e (
      add_owners-Unrefused refs (owners ++ normalize_owner r ∷ [])
        (one_more (length owners) _ n e (length-append owners (normalize_owner r ∷ [])))
        (All-append (Unrefused owner_refused) owners (normalize_owner r ∷ []) a
          (normalize_owner-Unrefused r named, tt))
        rest)
]

neither : (a b : Bool) → (a || b) ≡ false → (a ≡ false) × (b ≡ false)
neither a b e = ground (arith, e)

pub normalize_condition-Unrefused :
    (c : Calls) (m : Fields)
    → is_incomplete (normalize_condition c m) ≡ false
    → Unrefused condition_refused (normalize_condition c m)
unfolding condition_refused normalize_condition
normalize_condition-Unrefused c m e =
    let r = normalize_condition c m in
    let (type, status) = neither (str_eq r.type "") (str_eq r.status "") e in
    rw
      (
        type,
        status,
        truncate-short (text_of (get "type" m)) 512,
        truncate-short (text_of (get "status" m)) 512,
        truncate-short (text_of (get "reason" m)) 1024,
        truncate-short (text_of (get "message" m)) 4096,
      )
      refl

pub add_conditions-Unrefused :
    (c : Calls) (items : Items) (conditions : List Condition)
    → length conditions ≤ 64
    → All (Unrefused condition_refused) conditions
    → (length (add_conditions c items conditions) ≤ 64)
      × All (Unrefused condition_refused) (add_conditions c items conditions)
unfolding add_conditions
add_conditions-Unrefused c nil conditions n a = (n, a)
add_conditions-Unrefused c (cons null items) conditions n a =
    add_conditions-Unrefused c items conditions n a
add_conditions-Unrefused c (cons (boolean b) items) conditions n a =
    add_conditions-Unrefused c items conditions n a
add_conditions-Unrefused c (cons (integer i) items) conditions n a =
    add_conditions-Unrefused c items conditions n a
add_conditions-Unrefused c (cons (string s) items) conditions n a =
    add_conditions-Unrefused c items conditions n a
add_conditions-Unrefused c (cons (array v) items) conditions n a =
    add_conditions-Unrefused c items conditions n a
add_conditions-Unrefused c (cons (object m) items) conditions n a =
    let condition = normalize_condition c m in
    elim (Bool-cases (length conditions == 64)) [
      | inl e ↦ rw e (n, a)
      | inr e ↦ elim (Bool-cases (is_incomplete condition)) [
        | inl i ↦ rw (e, i) (add_conditions-Unrefused c items conditions n a)
        | inr i ↦
            rw (e, i)
              (add_conditions-Unrefused c items (conditions ++ condition ∷ [])
                (one_more (length conditions) _ n e (length-append conditions (condition ∷ [])))
                (All-append (Unrefused condition_refused) conditions (condition ∷ []) a
                  (normalize_condition-Unrefused c m i, tt)))
      ]
    ]

pub keep_fields-within :
    (c : Calls) (limit : ℕ) (entries : List (String × Value)) (out : Fields)
    → is_within (c.marshal_size out) limit ≡ true
    → is_within (c.marshal_size (keep_fields c limit entries out)) limit ≡ true
unfolding keep_fields
keep_fields-within c limit [] out w = w
keep_fields-within c limit ((key, value) ∷ entries) out w =
    let added = put key value out in
    elim (Bool-cases (is_within (c.marshal_size added) limit)) [
      | inl e ↦ rw (e, keep_fields) (keep_fields-within c limit entries added e)
      | inr e ↦ rw (e, keep_fields) (keep_fields-within c limit entries out w)
    ]

pub All-map {ℓ} :
    {A : Type ℓ} (P Q : A → Type 0) → ((a : A) → P a → Q a) → (xs : List A) → All P xs → All Q xs
All-map P Q f [] a = tt
All-map P Q f (x ∷ xs) (p, ps) = (f x p, All-map P Q f xs ps)

pub label-Unrefused : (e : String × String) → Passes label_limits e → Unrefused label_refused e
unfolding label_refused
label-Unrefused (k, v) ((key, _), value) = ground (arith, key, value)

pub annotation-Unrefused :
    (e : String × String) → Passes annotation_limits e → Unrefused annotation_refused e
unfolding annotation_refused contains_sensitive_name contains_any
annotation-Unrefused (k, v) ((key, filtered), value) =
    let a : ltb 253 (len k) ≡ false = ground (arith, key) in
    let b : ltb 4096 (len v) ≡ false = ground (arith, value) in rw (a, b) filtered

pub within-Unrefused :
    (size : Option ℕ)
    → is_within size 65_536 ≡ true
    → (elim size [ none ↦ true | some n ↦ ltb (64 * 1024) n ]) ≡ false
within-Unrefused none e = sym e
within-Unrefused (some n) e = ground (arith, e)
