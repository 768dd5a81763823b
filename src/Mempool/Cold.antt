-- ===== src/Mempool/Cold.antt =====
-- Where `mslab_free` puts a slab: the tree, the cold slabs, the spare one, or back into the cache.
use mathlib.Core.Path.{subst}
use mathlib.Core.Option.{some-injective}
use small.Base.{
  ℕ, ◌≤◌, ◌≡◌, sym, ap, ◌∙◌, ◌≢◌, inl, inr, true, false, Option, none, some, List, ◌∷◌, arith, ltb,
  ◌==◌, Bool-cases, length,
}
use small.SlabCache.{Arena, erase}
use small.Mempool.{Mempool, put_slab, lower_first, add_hot}
use small.Mempool.Tree.{
  eq_cases, has_inserted_true, has_inserted_false, has_own, IsFirst, has_inserted, SlabTree,
}
use small.Mempool.Pool.{contains, IsPool, IsPending, heated_free, heated_flag, heated_hot}
use small.Mempool.Erase.{erase_other, erase-true, erase-false, erase-Once}

module _ {A : Arena} {T : SlabTree} (q : Mempool A T) (f : ℕ → List ℕ) (s : ℕ)
    (v : IsPool (some s) q f) where
  -- The slab becomes hot, whether it was cold or not.
  pub add_hot-IsPool :
      contains q.slabs.slabs s ≡ true
      → 1 ≤ length (f s)
      → q.spare ≢ some s
      → IsPool none (add_hot q s) f
  add_hot-IsPool is_s some_free not_spare = record {
    small = v.small;
    word = v.word;
    sized = v.sized;
    some_objects = v.some_objects;
    slabs_once = v.slabs_once;
    slabs_free = λ y is. (heated_free q f v s is_s y is, (v.slabs_free y is).1);
    distinct = v.distinct;
    hot_flag = heated_flag q f v s;
    hot = heated_hot q f v s is_s some_free;
    first = lowered q.first_hot_slab v.first;
    cold = λ y is.
        let old = erase-true s y q.cold_slabs v.cold_once is in
        let c = v.cold y old.1 in (c.0, c.1, has_inserted T q.hot_slabs s y old.0 ∙ c.2);
    cold_once = erase-Once s q.cold_slabs v.cold_once;
    is_spare = λ y is.
        let c = v.is_spare y is in
        let other : s ≢ y = λ e. not_spare (is ∙ ap some (sym e)) in
        (
          c.0,
          c.1,
          has_inserted T q.hot_slabs s y other ∙ c.2,
          erase-false s y q.cold_slabs v.cold_once c.3,
        );
    known = λ y h1 h2 h3 h4.
        let out = has_inserted_false T q.hot_slabs s y h3 in
        elim (v.known y h1 h2 out.1 (sym (erase_other s y q.cold_slabs out.0) ∙ h4)) [
          | inl at ↦ inl at
          | inr at ↦ absurd (out.0 (some-injective s y at))
        ];
  }
    where
      lowered :
          (o : Option ℕ)
          → IsFirst T o q.hot_slabs
          → IsFirst T (lower_first o s) (T.insert q.hot_slabs s)
      lowered none is = (
        has_own T q.hot_slabs s,
        λ y h. elim (has_inserted_true T q.hot_slabs s y h) [
          | inl same ↦ omega arith
          | inr old ↦ absurd (ground (arith, sym (is y) ∙ old))
        ],
      )
      lowered (some z) is = elim (Bool-cases (ltb s z)) [
        | inl lower ↦ rw lower (
          has_own T q.hot_slabs s,
          λ y h. elim (has_inserted_true T q.hot_slabs s y h) [
            | inl same ↦ omega arith
            | inr old ↦ (let least = is.1 y old in ground arith)
          ],
        )
        | inr higher ↦ rw higher (
          (elim (eq_cases s z) [
            | inl same ↦
                subst (λ (x : ℕ). T.has (T.insert q.hot_slabs s) x ≡ true) same
                  (has_own T q.hot_slabs s)
            | inr other ↦ has_inserted T q.hot_slabs s z other ∙ is.0
          ]),
          λ y h. elim (has_inserted_true T q.hot_slabs s y h) [
            | inl same ↦ ground arith
            | inr old ↦ is.1 y old
          ],
        )
      ]

  -- The slab becomes cold.
  pub cold-IsPool : IsPending q f s → IsPool none (record q { cold_slabs = s ∷ q.cold_slabs }) f
  cold-IsPool w = record {
    small = v.small;
    word = v.word;
    sized = v.sized;
    some_objects = v.some_objects;
    slabs_once = v.slabs_once;
    slabs_free = v.slabs_free;
    distinct = v.distinct;
    hot_flag = v.hot_flag;
    hot = v.hot;
    first = v.first;
    cold = λ y is. elim (eq_cases s y) [
      | inl same ↦
          subst
            (λ (x : ℕ).
              (contains q.slabs.slabs x ≡ true)
              × (1 ≤ length (f x))
              × (T.has q.hot_slabs x ≡ false))
            same (w.is_slab, w.has_free, w.not_hot)
      | inr other ↦
          (let e : (s == y) ≡ false = ground arith in
            let old : contains q.cold_slabs y ≡ true = rw e at is in v.cold y old)
    ];
    cold_once = (w.not_cold, v.cold_once);
    is_spare = λ y is.
        let c = v.is_spare y is in
        let e : (s == y) ≡ false =
          (let other : s ≢ y = λ e. w.not_spare (is ∙ ap some (sym e)) in ground arith) in
        (c.0, c.1, c.2, rw e c.3);
    known = λ y h1 h2 h3 h4. elim (v.known y h1 h2 h3 (ground arith)) [
      | inl at ↦ inl at
      | inr at ↦ (let same = some-injective s y at in absurd (ground arith))
    ];
  }

  -- The slab is where it belongs.
  pub settled-IsPool :
      (T.has q.hot_slabs s ≡ false → contains q.cold_slabs s ≡ false → q.spare ≡ some s)
      → IsPool none q f
  settled-IsPool h = record {
    small = v.small;
    word = v.word;
    sized = v.sized;
    some_objects = v.some_objects;
    slabs_once = v.slabs_once;
    slabs_free = v.slabs_free;
    distinct = v.distinct;
    hot_flag = v.hot_flag;
    hot = v.hot;
    first = v.first;
    cold = v.cold;
    cold_once = v.cold_once;
    is_spare = v.is_spare;
    known = λ y h1 h2 h3 h4. elim (v.known y h1 h2 h3 h4) [
      | inl at ↦ inl at
      | inr at ↦
          (let same = some-injective s y at in
            inl (
              subst (λ (x : ℕ). q.spare ≡ some x) same
                (h (ap (T.has q.hot_slabs) same ∙ h3) (ap (contains q.cold_slabs) same ∙ h4))))
    ];
  }

  -- The slab goes back to the cache.
  pub put_slab-IsPool :
      T.has q.hot_slabs s ≡ false
      → contains q.cold_slabs s ≡ false
      → q.spare ≢ some s
      → IsPool none (put_slab q s) f
  put_slab-IsPool not_hot not_cold not_spare =
      let stays : (y : ℕ)
          → s ≢ y
          → contains q.slabs.slabs y ≡ true
          → contains (erase s q.slabs.slabs) y ≡ true =
        λ y other is. erase_other s y q.slabs.slabs other ∙ is in
      let was : (y : ℕ)
          → contains (erase s q.slabs.slabs) y ≡ true
          → (s ≢ y) × (contains q.slabs.slabs y ≡ true) =
        λ y is. erase-true s y q.slabs.slabs v.slabs_once is in
      record {
        small = v.small;
        word = v.word;
        sized = v.sized;
        some_objects = v.some_objects;
        slabs_once = erase-Once s q.slabs.slabs v.slabs_once;
        slabs_free = λ y is. v.slabs_free y (was y is).1;
        distinct = λ y is. v.distinct y (was y is).1;
        hot_flag = λ y is. v.hot_flag y (was y is).1;
        hot = λ y is.
            let c = v.hot y is in
            (
              stays y (λ e. absurd (ground (arith, sym not_hot ∙ ap (T.has q.hot_slabs) e ∙ is)))
                  c.0,
              c.1,
            );
        first = v.first;
        cold = λ y is.
            let c = v.cold y is in
            (
              stays y
                  (λ e. absurd (ground (arith, sym not_cold ∙ ap (contains q.cold_slabs) e ∙ is)))
                  c.0,
              c.1,
              c.2,
            );
        cold_once = v.cold_once;
        is_spare = λ y is.
            let c = v.is_spare y is in
            (stays y (λ e. not_spare (is ∙ ap some (sym e))) c.0, c.1, c.2, c.3);
        known = λ y h1 h2 h3 h4.
            let old = was y h1 in
            elim (v.known y old.1 h2 h3 h4) [
              | inl at ↦ inl at
              | inr at ↦ absurd (old.0 (some-injective s y at))
            ];
      }

  -- The slab becomes the spare one, and the one that was is pending.
  pub spared-IsPool :
      contains q.slabs.slabs s ≡ true
      → q.objcount ≤ length (f s)
      → T.has q.hot_slabs s ≡ false
      → contains q.cold_slabs s ≡ false
      → IsPool q.spare (record q { spare = some s }) f
  spared-IsPool is_s all_free not_hot not_cold = record {
    small = v.small;
    word = v.word;
    sized = v.sized;
    some_objects = v.some_objects;
    slabs_once = v.slabs_once;
    slabs_free = v.slabs_free;
    distinct = v.distinct;
    hot_flag = v.hot_flag;
    hot = v.hot;
    first = v.first;
    cold = v.cold;
    cold_once = v.cold_once;
    is_spare = λ y is.
        let same = some-injective s y is in
        subst
          (λ (x : ℕ).
            (contains q.slabs.slabs x ≡ true)
            × (q.objcount ≤ length (f x))
            × (T.has q.hot_slabs x ≡ false)
            × (contains q.cold_slabs x ≡ false))
          same (is_s, all_free, not_hot, not_cold);
    known = λ y h1 h2 h3 h4. elim (v.known y h1 h2 h3 h4) [ inl at ↦ inr at | inr at ↦ inl at ];
  }
