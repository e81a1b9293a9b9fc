-- ===== src/Notifier/Outbox/Moves.antt =====
-- notifier.go: the order of delivery, as an invariant of the table that an update keeps.
use icinga_kubernetes.Common.{
  ℕ, ◌<◌, ◌≡◌, refl, sym, ap, ◌∙◌, subst, ◌⊎◌, inl, inr, arith, ◌||◌, Bool, true, is_some,
  Bool-cases, List, [], ◌∷◌, Exists, if◌then◌else◌,
}
use icinga_kubernetes.Common.Table.{update}
use icinga_kubernetes.Store.Tables.{OutboxRow}

abbrev pub Member : OutboxRow → List OutboxRow → Type 0
Member x = Exists (λ y. y ≡ x)

-- A notifier has claimed or delivered the row.
abbrev pub is_busy : OutboxRow → Bool
is_busy e = is_some e.claimed_by || is_some e.delivered_at

-- Every row of a resource before `e` is delivered.
abbrev pub First : List OutboxRow → OutboxRow → Type 0
First rows e =
    (x : OutboxRow)
    → Member x rows
    → x.resource_id ≡ e.resource_id
    → x.id < e.id
    → is_some x.delivered_at ≡ true

-- The ids are below the next one and tell the rows apart, and a row that is claimed or delivered has
-- only delivered ones of its resource before it.
pub record IsOrdered (next : ℕ) (rows : List OutboxRow) : Type 0 where
  pub below : (x : OutboxRow) → Member x rows → x.id < next
  pub distinct : (x y : OutboxRow) → Member x rows → Member y rows → x.id ≡ y.id → x ≡ y
  pub first : (x : OutboxRow) → Member x rows → is_busy x ≡ true → First rows x

abbrev pub changed : (OutboxRow → Bool) → (OutboxRow → OutboxRow) → OutboxRow → OutboxRow
changed p f x = if p x then f x else x

pub Member-update :
    (p : OutboxRow → Bool) (f : OutboxRow → OutboxRow) (rows : List OutboxRow) (x : OutboxRow)
    → Member x (update p f rows)
    → (y : OutboxRow) × Member y rows × (changed p f y ≡ x)
Member-update p f [] x m = elim m [ ]
Member-update p f (a ∷ rows) x (inl e) = (a, inl refl, e)
Member-update p f (a ∷ rows) x (inr m) = let (y, n, e) = Member-update p f rows x m in (y, inr n, e)

-- An update that keeps ids and resources, never takes a delivery back, and makes a row busy only if
-- it was so or is the first of its resource.
pub record IsMove (rows : List OutboxRow) (p : OutboxRow → Bool) (f : OutboxRow → OutboxRow)
    : Type 0 where
  pub id : (x : OutboxRow) → (f x).id ≡ x.id
  pub resource : (x : OutboxRow) → (f x).resource_id ≡ x.resource_id
  pub keeps :
      (x : OutboxRow)
      → p x ≡ true
      → is_some x.delivered_at ≡ true
      → is_some (f x).delivered_at ≡ true
  pub busy :
      (x : OutboxRow)
      → Member x rows
      → p x ≡ true
      → is_busy (f x) ≡ true
      → (is_busy x ≡ true) ⊎ First rows x

module _ (next : ℕ) (rows : List OutboxRow) (p : OutboxRow → Bool) (f : OutboxRow → OutboxRow)
    (m : IsMove rows p f) where
  changed-id : (x : OutboxRow) → (changed p f x).id ≡ x.id
  changed-id x = elim (Bool-cases (p x)) [ inl e ↦ rw e (m.id x) | inr e ↦ rw e refl ]

  changed-resource : (x : OutboxRow) → (changed p f x).resource_id ≡ x.resource_id
  changed-resource x = elim (Bool-cases (p x)) [ inl e ↦ rw e (m.resource x) | inr e ↦ rw e refl ]

  changed-keeps :
      (x : OutboxRow) → is_some x.delivered_at ≡ true → is_some (changed p f x).delivered_at ≡ true
  changed-keeps x d = elim (Bool-cases (p x)) [ inl e ↦ rw e (m.keeps x e d) | inr e ↦ rw e d ]

  changed-busy :
      (x : OutboxRow)
      → Member x rows
      → is_busy (changed p f x) ≡ true
      → (is_busy x ≡ true) ⊎ First rows x
  changed-busy x n b = elim (Bool-cases (p x)) [
    | inl e ↦ m.busy x n e (subst (λ c. is_busy (if c then f x else x) ≡ true) e b)
    | inr e ↦ inl (subst (λ c. is_busy (if c then f x else x) ≡ true) e b)
  ]

  pub update-IsOrdered : IsOrdered next rows → IsOrdered next (update p f rows)
  update-IsOrdered v = record {
    below = λ x n.
        let (y, l, e) = Member-update p f rows x n in
        subst (λ i. i < next) (sym (changed-id y) ∙ ap (λ r. r.id) e) (v.below y l);
    distinct = λ x x' n n' same.
        let (y, l, e) = Member-update p f rows x n in
        let (y', l', e') = Member-update p f rows x' n' in
        let q =
          sym (changed-id y) ∙ ap (λ r. r.id) e ∙ same ∙ sym (ap (λ r. r.id) e') ∙ changed-id y' in
        sym e ∙ ap (changed p f) (v.distinct y y' l l' q) ∙ e';
    first = λ x n b z k r i.
        let (y, l, e) = Member-update p f rows x n in
        let (y', l', e') = Member-update p f rows z k in
        let before : First rows y =
          elim (changed-busy y l (subst (λ w. is_busy w ≡ true) (sym e) b)) [
            | inl o ↦ v.first y l o
            | inr o ↦ o
          ] in
        let same =
          sym (changed-resource y')
          ∙ ap (λ w. w.resource_id) e'
          ∙ r
          ∙ sym (ap (λ w. w.resource_id) e)
          ∙ changed-resource y in
        let a = sym (changed-id y') ∙ ap (λ w. w.id) e' in
        let c = sym (changed-id y) ∙ ap (λ w. w.id) e in
        subst (λ w. is_some w.delivered_at ≡ true) e'
          (changed-keeps y' (before y' l' same (omega (arith, a, c, i))));
  }
