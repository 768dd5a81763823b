-- ===== src/SlabCache/Found.antt =====
-- The search for a list with a free slab.
use mathlib.Core.Path.{subst}
use small.Base.{
  ℕ, zero, suc, ◌+◌, ◌%◌, ◌≤◌, ◌<◌, ◌≡◌, refl, sym, ap, ◌∙◌, inl, inr, true, false, Option, none,
  some, List, [], ◌∷◌, arith, ◌==◌, Bool-cases,
}
use small.Base.Update.{update_self}
use small.SlabCache.{
  Arena, Slab, SlabList, SlabCache, slab_list_add, is_empty, slab_order_size, slab_create,
}
use small.SlabCache.Get.{add_mapped, find_list}
use small.SlabCache.Order.{IsSized, order_size}
use small.SlabCache.Split.{IsFree, SameSizes, slab_create_lem}

-- The first slab of a list is free and has the order of the list.
abbrev pub HasFreeHead : {A : Arena} → SlabCache A → (order : ℕ) → List ℕ → Type 0
HasFreeHead c order [] = Unit
HasFreeHead c order (x ∷ xs) = IsFree c x order

pub record IsValid {A : Arena} (c : SlabCache A) : Type 0 where
  pub sized : IsSized c
  pub heads : (order : ℕ) → order ≤ c.order_max → HasFreeHead c order (c.orders order).slabs

-- The arena aligns a slab to its size.
pub record MapsAligned (A : Arena) : Type 0 where
  pub map_aligned :
      (s s' : A.State) (slab : ℕ) → A.slab_map s ≡ (some slab, s') → slab % A.slab_size ≡ 0

-- The lists from an order on are empty, and the arena has no slab.
pub record IsOut {A : Arena} (c : SlabCache A) (order : ℕ) (s : A.State) : Type 0 where
  pub unmapped : A.slab_map c.arena ≡ (none, s)
  pub empty : (o : ℕ) → order ≤ o → o ≤ c.order_max → is_empty (c.orders o).slabs ≡ true

-- The outcomes of the search: a list of an order that is at least this, with a free slab in front.
pub data Found {A : Arena} (c : SlabCache A) (order : ℕ) : Option ℕ × SlabCache A → Type 0 where
  missing : {s : A.State} → IsOut c order s → Found c order (none, record c { arena = s })
  found_at :
      {c' : SlabCache A} {found : ℕ}
      → SameSizes c c'
      → order ≤ found
      → is_empty (c'.orders found).slabs ≡ false
      → HasFreeHead c' found (c'.orders found).slabs
      → Found c order (some found, c')

module _ {A : Arena} where
  add_mapped-Found :
      (c : SlabCache A) (order : ℕ)
      → IsSized c
      → order ≤ c.order_max
      → (order == c.order_max) ≡ true
      → is_empty (c.orders order).slabs ≡ true
      → (r : Option ℕ × A.State) → A.slab_map c.arena ≡ r
      → ((slab : ℕ) (s' : A.State) → r ≡ (some slab, s') → slab % A.slab_size ≡ 0)
      → Found c order (add_mapped c r)
  unfolding slab_create slab_order_size
  add_mapped-Found c order v h last empty (none, s) e aligned = missing (record {
    unmapped = e;
    empty = λ o low high.
        (let at : order ≡ o = ground arith in
          ap (λ (i : ℕ). is_empty (c.orders i).slabs) (sym at) ∙ empty);
  })
  add_mapped-Found c order v h last empty (some slab, s) e aligned =
      let mapped : SlabCache A = record c { arena = s } in
      let created : SlabCache A = slab_create mapped slab c.order_max A.slab_size in
      let header = slab_create_lem mapped slab c.order_max A.slab_size in
      let l : SlabList = slab_list_add (c.orders c.order_max) slab A.slab_size in
      let whole = order_size c v c.order_max (omega arith) in
      let size_eq : A.slab_size ≡ slab_order_size c c.order_max = v.whole ∙ sym whole in
      found_at (record { same_max = refl; same_lb = refl; same_order0 = refl }) h
        (ap (λ (m : SlabList). is_empty m.slabs) (update_self c.orders c.order_max l))
        (subst (λ (m : SlabList). HasFreeHead (add_mapped c (some slab, s)).1 c.order_max m.slabs)
          (sym (update_self c.orders c.order_max l))
          (record {
            order_is = ap (λ (b : Slab). b.order) header;
            size_is = ap (λ (b : Slab). b.size) header ∙ size_eq;
            aligned = ap (λ (t : ℕ). slab % t) (sym size_eq) ∙ aligned slab s refl;
            inside = omega arith;
          }))

  -- The list of `order` is empty too.
  later :
      {c : SlabCache A} {order : ℕ}
      → is_empty (c.orders order).slabs ≡ true
      → {r : Option ℕ × SlabCache A} → Found c (order + 1) r
      → Found c order r
  later {c} {order} here (missing out) = missing (record {
    unmapped = out.unmapped;
    empty = λ o low high. elim (Bool-cases (order == o)) [
      | inl same ↦
          (let at : order ≡ o = ground arith in
            ap (λ (i : ℕ). is_empty (c.orders i).slabs) (sym at) ∙ here)
      | inr differs ↦ out.empty o (ground arith) high
    ];
  })
  later here (found_at same h filled f) = found_at same (omega arith) filled f

  pub find_list-Found :
      (fuel order : ℕ) (c : SlabCache A)
      → IsValid c
      → MapsAligned A
      → order ≤ c.order_max
      → c.order_max < fuel + order
      → Found c order (find_list fuel order c)
  unfolding find_list
  find_list-Found zero order c v a h enough = absurd (omega arith)
  find_list-Found (suc fuel) order c v a h enough =
      elim (Bool-cases (is_empty (c.orders order).slabs)) [
        | inl empty ↦ elim (Bool-cases (order == c.order_max)) [
          | inl last ↦
              rw (empty, last)
                (add_mapped-Found c order v.sized h last empty (A.slab_map c.arena) refl
                  (λ slab s' e. a.map_aligned c.arena s' slab e))
          | inr more ↦
              rw (empty, more)
                (later empty (find_list-Found fuel (order + 1) c v a (ground arith) (omega arith)))
        ]
        | inr filled ↦ rw filled (
            found_at (record { same_max = refl; same_lb = refl; same_order0 = refl }) (omega arith)
              filled (v.heads order h))
      ]
