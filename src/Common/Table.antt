-- ===== src/Common/Table.antt =====
-- SQL tables as lists of rows: selection, update, deletion, and upsert on a key.
use icinga_kubernetes.Common.Tests.{if◌then◌else◌}
use Prim.Native.Nat.{ℕ, suc, ◌≤◌, max}
use mathlib.Core.Path.{◌≡◌, refl}
use mathlib.Core.Logic.{◌↔◌}
use native.Mathlib.Omega.{arith}
use mathlib.Core.List.{List, [], ◌∷◌}
use mathlib.Core.Bool.{Bool, true}
use mathlib.Core.Option.{Option, none, some}

module _ {ℓ} {A : Type ℓ} where
  -- SELECT * FROM table WHERE test
  abbrev pub select : (A → Bool) → List A → List A
  select p [] = []
  select p (x ∷ xs) = if p x then x ∷ select p xs else select p xs

  -- The first row that passes, in the order of the table.
  abbrev pub find : (A → Bool) → List A → Option A
  find p [] = none
  find p (x ∷ xs) = if p x then some x else find p xs

  -- UPDATE table SET f WHERE test
  abbrev pub update : (A → Bool) → (A → A) → List A → List A
  update p f [] = []
  update p f (x ∷ xs) = (if p x then f x else x) ∷ update p f xs

  -- SELECT count(*) FROM table WHERE test
  abbrev pub count : (A → Bool) → List A → ℕ
  count p [] = 0
  count p (x ∷ xs) = if p x then suc (count p xs) else count p xs

  -- INSERT … ON CONFLICT DO UPDATE: the row with the key is replaced by `f` of it, or `a` is added.
  abbrev pub upsert : (A → Bool) → A → (A → A) → List A → List A
  upsert p a f [] = a ∷ []
  upsert p a f (x ∷ xs) = if p x then f x ∷ xs else x ∷ upsert p a f xs

-- Does the row have the key `k`?
abbrev pub at {ℓ κ} : {A : Type ℓ} {K : Type κ} → (A → K) → (K → K → Bool) → K → A → Bool
at key eq k a = eq (key a) k

-- Tables with a primary key.
module _ {ℓ κ} {A : Type ℓ} {K : Type κ} (key : A → K) (eq : K → K → Bool)
    (eq_iff : (j k : K) → (eq j k ≡ true) ↔ (j ≡ k)) where
  pub find-upsert :
      (j k : K) (a : A) (f : A → A) (rows : List A)
      → key a ≡ k
      → ((b : A) → key (f b) ≡ key b)
      → find (at key eq j) (upsert (at key eq k) a f rows) ≡ (
          if eq k j
          then some (elim (find (at key eq k) rows) [ none ↦ a | some b ↦ f b ])
          else find (at key eq j) rows)
  find-upsert j k a f [] ka kf = ground (arith, eq_iff (key a) j, eq_iff k j)
  find-upsert j k a f (b ∷ rows) ka kf = ground (
    arith,
    kf b,
    find-upsert j k a f rows ka kf,
    eq_iff (key b) j,
    eq_iff (key b) k,
    eq_iff k j,
    eq_iff (key (f b)) j,
  )

  pub find-update :
      (j k : K) (f : A → A) (rows : List A)
      → ((b : A) → key (f b) ≡ key b)
      → find (at key eq j) (update (at key eq k) f rows) ≡ (
          if eq k j
          then (elim (find (at key eq j) rows) [ none ↦ none | some b ↦ some (f b) ])
          else find (at key eq j) rows)
  find-update j k f [] kf = ground (arith, eq_iff k j)
  find-update j k f (b ∷ rows) kf = ground (
    arith,
    kf b,
    find-update j k f rows kf,
    eq_iff (key b) j,
    eq_iff (key b) k,
    eq_iff k j,
    eq_iff (key (f b)) j,
  )

  -- An update that keeps the key, seen from one key.
  pub find-update_where :
      (j : K) (p : A → Bool) (f : A → A) (rows : List A)
      → ((b : A) → key (f b) ≡ key b)
      → find (at key eq j) (update p f rows)
        ≡ (elim (find (at key eq j) rows) [ none ↦ none | some b ↦ some (if p b then f b else b) ])
  find-update_where j p f [] kf = refl
  find-update_where j p f (b ∷ rows) kf =
      ground (arith, kf b, find-update_where j p f rows kf, eq_iff (key b) j, eq_iff (key (f b)) j)

  -- An upsert adds a second row of a key to no table.
  pub count-upsert :
      (j k : K) (a : A) (f : A → A) (rows : List A)
      → key a ≡ k
      → ((b : A) → key (f b) ≡ key b)
      → count (at key eq j) (upsert (at key eq k) a f rows)
        ≤ max (count (at key eq j) rows) (if eq k j then 1 else 0)
  count-upsert j k a f [] ka kf = ground (arith, eq_iff (key a) j, eq_iff k j)
  count-upsert j k a f (b ∷ rows) ka kf = ground (
    arith,
    kf b,
    count-upsert j k a f rows ka kf,
    eq_iff (key b) j,
    eq_iff (key b) k,
    eq_iff k j,
    eq_iff (key (f b)) j,
  )

pub find-count {ℓ} :
    {A : Type ℓ} (p : A → Bool) (rows : List A) → count p rows ≤ 0 → find p rows ≡ none
find-count p [] h = refl
find-count p (b ∷ rows) h = ground (arith, find-count p rows, h)
