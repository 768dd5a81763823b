-- ===== src/Mempool/Tree.antt =====
-- The tree of hot slabs: include/small/rb.h is the library of another project, and a parameter here.
use small.Base.{
  ℕ, ◌≤◌, ◌<◌, ◌≡◌, refl, sym, ap, ◌∙◌, ◌≢◌, ◌⊎◌, inl, inr, Bool, true, false, ◌&&◌, ◌||◌, not,
  Option, none, some, arith, ltb, ◌==◌, Bool-cases,
}

-- A set of slabs in the order of their addresses, which `mslab_cmp` says: `next` is the slab after
-- one, or NULL.
pub record SlabTree : Type 1 where
  pub Tree : Type 0
  pub empty : Tree
  pub insert : Tree → ℕ → Tree
  pub remove : Tree → ℕ → Tree
  pub next : Tree → ℕ → Option ℕ
  pub has : Tree → ℕ → Bool
  pub has-empty : (x : ℕ) → has empty x ≡ false
  pub has-insert : (t : Tree) (y x : ℕ) → has (insert t y) x ≡ (y == x) || has t x
  pub has-remove : (t : Tree) (y x : ℕ) → has (remove t y) x ≡ not (y == x) && has t x
  pub next_none : (t : Tree) (x : ℕ) → next t x ≡ none → (y : ℕ) → has t y ≡ true → y ≤ x
  pub next_some :
      (t : Tree) (x z : ℕ)
      → next t x ≡ some z
      → (has t z ≡ true) × (x < z) × ((y : ℕ) → has t y ≡ true → x < y → z ≤ y)

-- Two slabs are the same or not.
pub eq_cases : (a b : ℕ) → (a ≡ b) ⊎ (a ≢ b)
eq_cases a b = elim (Bool-cases (a == b)) [
  | inl same ↦ inl (ground arith)
  | inr other ↦ inr (λ q. absurd (ground arith))
]

-- The first of the slabs in a tree, by address.
abbrev pub IsFirst : (T : SlabTree) → Option ℕ → T.Tree → Type 0
IsFirst T none t = (y : ℕ) → T.has t y ≡ false
IsFirst T (some f) t = (T.has t f ≡ true) × ((y : ℕ) → T.has t y ≡ true → f ≤ y)

strict : (a b : ℕ) → a ≤ b → a ≢ b → a < b
strict a b h other = elim (Bool-cases (ltb a b)) [
  | inl less ↦ ground arith
  | inr not_less ↦ absurd (other (ground arith))
]

module _ (T : SlabTree) (t : T.Tree) where
  pub has_inserted : (s y : ℕ) → s ≢ y → T.has (T.insert t s) y ≡ T.has t y
  has_inserted s y other = let e : (s == y) ≡ false = ground arith in T.has-insert t s y ∙ rw e refl

  pub has_own : (s : ℕ) → T.has (T.insert t s) s ≡ true
  has_own s = let e : (s == s) ≡ true = ground arith in T.has-insert t s s ∙ rw e refl

  -- Everything but the slab itself is as before.
  pub has_inserted_true : (s y : ℕ) → T.has (T.insert t s) y ≡ true → (s ≡ y) ⊎ (T.has t y ≡ true)
  has_inserted_true s y h = elim (eq_cases s y) [
    | inl same ↦ inl same
    | inr other ↦ inr (sym (has_inserted s y other) ∙ h)
  ]

  pub has_inserted_false :
      (s y : ℕ) → T.has (T.insert t s) y ≡ false → (s ≢ y) × (T.has t y ≡ false)
  has_inserted_false s y h = elim (eq_cases s y) [
    | inl same ↦ absurd (ground (arith, sym h ∙ ap (T.has (T.insert t s)) (sym same) ∙ has_own s))
    | inr other ↦ (other, sym (has_inserted s y other) ∙ h)
  ]

  pub removed_own : (s : ℕ) → T.has (T.remove t s) s ≡ false
  removed_own s = let e : (s == s) ≡ true = ground arith in T.has-remove t s s ∙ rw e refl

  pub removed_other : (s y : ℕ) → s ≢ y → T.has (T.remove t s) y ≡ T.has t y
  removed_other s y other =
      let e : (s == y) ≡ false = ground arith in T.has-remove t s y ∙ rw e refl

  pub removed_true : (s y : ℕ) → T.has (T.remove t s) y ≡ true → (s ≢ y) × (T.has t y ≡ true)
  removed_true s y h = elim (eq_cases s y) [
    | inl same ↦
        absurd (ground (arith, sym h ∙ ap (T.has (T.remove t s)) (sym same) ∙ removed_own s))
    | inr other ↦ (other, sym (removed_other s y other) ∙ h)
  ]

  -- The slab after the first becomes the first.
  pub next_first :
      (s : ℕ) → IsFirst T (some s) t → (o : Option ℕ) → T.next t s ≡ o → IsFirst T o (T.remove t s)
  next_first s is none e = λ y. elim (Bool-cases (T.has (T.remove t s) y)) [
    | inl still ↦
        (let old = removed_true s y still in
          let most = T.next_none t s e y old.1 in
          let least = is.1 y old.1 in absurd (old.0 (omega arith)))
    | inr gone ↦ gone
  ]
  next_first s is (some z) e =
      let n = T.next_some t s z e in
      (
        removed_other s z (λ q. absurd (omega (arith, n.1))) ∙ n.0,
        λ y still.
            let old = removed_true s y still in
            let least = is.1 y old.1 in n.2 y old.1 (strict s y least old.0),
      )
