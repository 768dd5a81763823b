-- ===== src/Mempool/Spare.antt =====
-- A slab of which all objects are free leaves the tree, and is kept as the spare one or given back.
use mathlib.Core.Path.{subst}
use mathlib.Core.Option.{some-injective}
use small.Base.{
  ℕ, ◌+◌, ◌*◌, ◌≤◌, ◌≡◌, refl, sym, ap, ◌∙◌, ◌≢◌, inl, inr, true, false, Option, none, some, List,
  arith, ltb, ◌==◌, if◌then◌else◌, Bool-cases, length,
}
use small.Base.Update.{update, update_self, update_other}
use small.SlabCache.{Arena, SlabList, erase}
use small.Mempool.{Mslab, Mempool, cool, is_slab, free_spare, keep_spare, mempool_free_spare_slab}
use small.Mempool.Tree.{
  SlabTree, IsFirst, eq_cases, removed_own, removed_other, removed_true, next_first,
}
use small.Mempool.Slab.{IsFree}
use small.Mempool.Pool.{contains, IsPool, reflag}
use small.Mempool.Cold.{put_slab-IsPool, spared-IsPool}

-- The slabs of a pool after an object was freed: as before, or without one, of which all objects are
-- free.
pub data HasFewer (slabs : List ℕ) (objcount : ℕ) (free : ℕ → List ℕ) : List ℕ → Type 0 where
  no_fewer : HasFewer slabs objcount free slabs
  one_fewer : (x : ℕ) → objcount ≤ length (free x) → HasFewer slabs objcount free (erase x slabs)

-- A pool after one of its slabs found its place again.
pub data Settled {A : Arena} {T : SlabTree} (slabs : SlabList) (objcount : ℕ) (f : ℕ → List ℕ)
    : Mempool A T → Type 0 where
  settled :
      {p' : Mempool A T}
      → IsPool none p' f
      → HasFewer slabs.slabs objcount f p'.slabs.slabs
      → p'.slabs.used ≡ slabs.used
      → Settled slabs objcount f p'

module _ {A : Arena} {T : SlabTree} (q : Mempool A T) (f : ℕ → List ℕ) (s : ℕ)
    (v : IsPool (some s) q f) (is_s : contains q.slabs.slabs s ≡ true) where
  -- A slab leaves the tree.
  pub cool-IsPool : T.has q.hot_slabs s ≡ true → IsPool (some s) (cool q s) f
  cool-IsPool s_hot = record {
    small = v.small;
    word = v.word;
    sized = v.sized;
    some_objects = v.some_objects;
    slabs_once = v.slabs_once;
    slabs_free = λ y is. (
      elim (eq_cases s y) [
        | inl same ↦
            subst
              (λ (x : ℕ).
                IsFree q.links (update q.mslabs s h x) x q.objsize
                  (q.offset + q.objcount * q.objsize) (f x))
              same
              (subst
                (λ (x : Mslab).
                  IsFree q.links x s q.objsize (q.offset + q.objcount * q.objsize) (f s))
                (sym (update_self q.mslabs s h))
                (reflag q.links (q.mslabs s) false s q.objsize (q.offset + q.objcount * q.objsize)
                  (f s) (v.slabs_free s is_s).0))
        | inr other ↦
            subst
              (λ (x : Mslab).
                IsFree q.links x y q.objsize (q.offset + q.objcount * q.objsize) (f y))
              (sym (update_other q.mslabs s y h other)) (v.slabs_free y is).0
      ],
      (v.slabs_free y is).1,
    );
    distinct = v.distinct;
    hot_flag = λ y is. elim (eq_cases s y) [
      | inl same ↦
          subst (λ (x : ℕ). (update q.mslabs s h x).in_hot_slabs ≡ T.has (T.remove q.hot_slabs s) x)
            same
            (ap (λ (x : Mslab). x.in_hot_slabs) (update_self q.mslabs s h)
              ∙ sym (removed_own T q.hot_slabs s))
      | inr other ↦
          ap (λ (x : Mslab). x.in_hot_slabs) (update_other q.mslabs s y h other)
          ∙ v.hot_flag y is
          ∙ sym (removed_other T q.hot_slabs s y other)
    ];
    hot = λ y is. v.hot y (removed_true T q.hot_slabs s y is).1;
    first = next q.first_hot_slab v.first;
    cold = λ y is.
        let c = v.cold y is in (c.0, c.1, removed_other T q.hot_slabs s y (not_same y c.2) ∙ c.2);
    cold_once = v.cold_once;
    is_spare = λ y is.
        let c = v.is_spare y is in
        (c.0, c.1, removed_other T q.hot_slabs s y (not_same y c.2) ∙ c.2, c.3);
    known = λ y h1 h2 h3 h4. elim (eq_cases s y) [
      | inl same ↦ inr (ap some same)
      | inr other ↦ v.known y h1 h2 (sym (removed_other T q.hot_slabs s y other) ∙ h3) h4
    ];
  }
    where
      h : Mslab
      h = record (q.mslabs s) { in_hot_slabs = false }

      not_same : (y : ℕ) → T.has q.hot_slabs y ≡ false → s ≢ y
      not_same y cold e = absurd (ground (arith, sym s_hot ∙ ap (T.has q.hot_slabs) e ∙ cold))

      next :
          (o : Option ℕ)
          → IsFirst T o q.hot_slabs
          → IsFirst T (if is_slab o s then T.next q.hot_slabs s else o) (T.remove q.hot_slabs s)
      next none is = absurd (ground (arith, sym (is s) ∙ s_hot))
      next (some z) is = elim (eq_cases z s) [
        | inl same ↦
            (let e : (z == s) ≡ true = ground arith in
              rw e (
                next_first T q.hot_slabs s
                  (subst (λ (x : ℕ). IsFirst T (some x) q.hot_slabs) same is) (T.next q.hot_slabs s)
                  refl))
        | inr other ↦
            (let e : (z == s) ≡ false = ground arith in
              rw e (
                removed_other T q.hot_slabs s z (λ r. other (sym r)) ∙ is.0,
                λ y still. is.1 y (removed_true T q.hot_slabs s y still).1,
              ))
      ]

  -- A slab of which all objects are free, and that is pending.
  pub keep_spare-Settled :
      q.objcount ≤ length (f s)
      → T.has q.hot_slabs s ≡ false
      → contains q.cold_slabs s ≡ false
      → q.spare ≢ some s
      → (o : Option ℕ) → q.spare ≡ o
      → Settled q.slabs q.objcount f (keep_spare q s o)
  unfolding mempool_free_spare_slab
  keep_spare-Settled all_free not_hot not_cold not_s none e =
      settled
        (subst (λ (o : Option ℕ). IsPool o (record q { spare = some s }) f) e
          (spared-IsPool q f s v is_s all_free not_hot not_cold))
        no_fewer refl
  keep_spare-Settled all_free not_hot not_cold not_s (some z) e =
      let other : z ≢ s = λ r. not_s (e ∙ ap some r) in
      let w = v.is_spare z e in
      let swapped : Mempool A T = record q { spare = some s } in
      let pending : IsPool (some z) swapped f =
        subst (λ (o : Option ℕ). IsPool o swapped f) e
          (spared-IsPool q f s v is_s all_free not_hot not_cold) in
      elim (Bool-cases (ltb s z)) [
        | inl lower ↦ rw lower (
            subst
              (λ (o : Option ℕ).
                Settled q.slabs q.objcount f (record (free_spare q o) { spare = some s }))
              (sym e)
              (settled
                (put_slab-IsPool swapped f z pending w.2 w.3
                  (λ r. other (sym (some-injective s z r))))
                (one_fewer z w.1) refl))
        | inr higher ↦
            rw higher
              (settled (put_slab-IsPool q f s v not_hot not_cold not_s) (one_fewer s all_free) refl)
      ]
