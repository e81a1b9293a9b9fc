-- ===== src/Adapter/Registry/Fresh.antt =====
-- registry.go: a file whose definitions are new to the registry.
use icinga_kubernetes.Common.{
  ◌≡◌, ◌≢◌, refl, arith, ◌&&◌, ◌∙◌, ap, inl, inr, Bool-cases, false, not, any, List, [], ◌∷◌, ◌++◌,
  All, String, str_eq, eq_iff,
}
use icinga_kubernetes.Common.Text.{to_lower}
use icinga_kubernetes.Common.Result.{ok}
use icinga_kubernetes.Adapter.Registry.{
  Definition, extends, merge_into, adopt, match_key, checks, load_custom,
}
use icinga_kubernetes.Adapter.Registry.Loaded.{Valid}

-- A definition with a name and a kind of its own, valid, and of another group or kind than those that
-- are there.
pub record New (names matches : List String) (ds : List Definition) (d : Definition) : Type 0 where
  pub name : d.name ≢ ""
  pub kind : d.kind ≢ ""
  pub own_name : All (λ n. n ≢ to_lower d.name) names
  pub own_match : All (λ m. m ≢ match_key d) matches
  pub valid : Valid d
  pub own_kind : All (λ b. extends d b ≡ false) ds

-- Each definition is new beside those before it.
abbrev pub AllNew : List String → List String → List Definition → List Definition → Type 0
AllNew names matches ds [] = Unit
AllNew names matches ds (d ∷ custom) =
    New names matches ds d
    × AllNew (to_lower d.name ∷ names) (match_key d ∷ matches) (ds ++ d ∷ []) custom

any-none : (x : String) (xs : List String) → All (λ n. n ≢ x) xs → any (λ n. str_eq n x) xs ≡ false
any-none x [] a = refl
any-none x (n ∷ xs) (p, a) = ground (arith, p, eq_iff n x, any-none x xs a)

merge_into-unextended :
    (d : Definition) (ds : List Definition)
    → All (λ b. extends d b ≡ false) ds
    → merge_into d ds ≡ ok (ds ++ d ∷ [])
unfolding merge_into
merge_into-unextended d [] a = refl
merge_into-unextended d (base ∷ ds) (p, a) = rw (p, merge_into-unextended d ds a, merge_into) refl

adopt-unextended :
    (d : Definition) (ds : List Definition)
    → All (λ b. extends d b ≡ false) ds
    → adopt d ds ≡ ok (ds ++ d ∷ [])
adopt-unextended d ds a = elim (Bool-cases (not (str_eq d.group "*") && not (str_eq d.kind "*"))) [
  | inl x ↦ rw x (merge_into-unextended d ds a)
  | inr x ↦ rw x refl
]

checks-New :
    (names matches : List String) (ds : List Definition) (d : Definition)
    → New names matches ds d
    → checks names matches d ≡ ok tt
checks-New names matches ds d n =
    let named : str_eq d.name "" ≡ false = ground (arith, n.name, eq_iff d.name "") in
    let of_kind : str_eq d.kind "" ≡ false = ground (arith, n.kind, eq_iff d.kind "") in
    rw
      (
        named,
        of_kind,
        any-none (to_lower d.name) names n.own_name,
        any-none (match_key d) matches n.own_match,
      )
      n.valid

append_assoc :
    (xs : List Definition) (d : Definition) (ys : List Definition)
    → (xs ++ d ∷ []) ++ ys ≡ xs ++ d ∷ ys
append_assoc [] d ys = refl
append_assoc (x ∷ xs) d ys = ap (λ l. x ∷ l) (append_assoc xs d ys)

append_nil : (xs : List Definition) → xs ≡ xs ++ []
append_nil [] = refl
append_nil (x ∷ xs) = ap (λ l. x ∷ l) (append_nil xs)

pub load_custom-AllNew :
    (names matches : List String) (ds custom : List Definition)
    → AllNew names matches ds custom
    → load_custom names matches custom ds ≡ ok (ds ++ custom)
unfolding load_custom
load_custom-AllNew names matches ds [] a = ap ok (append_nil ds)
load_custom-AllNew names matches ds (d ∷ custom) (n, a) =
    rw (checks-New names matches ds d n, adopt-unextended d ds n.own_kind)
      (load_custom-AllNew (to_lower d.name ∷ names) (match_key d ∷ matches) (ds ++ d ∷ []) custom a
        ∙ ap ok (append_assoc ds d custom))
