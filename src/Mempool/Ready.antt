-- ===== src/Mempool/Ready.antt =====
-- The slab that an allocation takes: the spare one, or a cold one.
use mathlib.Core.Path.{subst}
use small.Base.{
  ℕ, ◌+◌, ◌≤◌, ◌≡◌, refl, sym, ap, ◌∙◌, inl, inr, true, false, Option, none, some, List, [], ◌∷◌,
  arith, ltb, ◌==◌, Bool-cases, length,
}
use small.Base.Update.{update}
use small.Lifo.Stack.{rest}
use small.SlabCache.{SlabList, slab_list_add, Arena, SlabCache}
use small.SlabCache.Get.{slab_get_with_order}
use small.Mempool.{Mempool, heat_first, from_cold}
use small.Mempool.Tree.{eq_cases, IsFirst, SlabTree}
use small.Mempool.Slab.{untouched}
use small.Mempool.Pool.{Once, contains, IsPool, heat_first-IsPool}

empty_list : (xs : List ℕ) → length xs ≡ 0 → xs ≡ []
empty_list [] h = refl
empty_list (x ∷ xs) h = absurd (omega arith)

-- A pool has its slabs with their free objects, and at most one slab more, from the cache, of which all
-- objects are free.
pub data HasMore {A : Arena} {T : SlabTree} (p : Mempool A T) (free : ℕ → List ℕ)
    : SlabList → (ℕ → List ℕ) → Type 0 where
  as_before : HasMore p free p.slabs free
  one_more :
      {s : ℕ} (size : ℕ)
      → (slab_get_with_order p.cache p.slab_order).0 ≡ some s
      → HasMore p free
          (slab_list_add p.slabs s size)
          (update free s (untouched (s + p.offset) p.objsize p.objcount))

-- The outcomes of the choice of a slab.
pub data Readied {A : Arena} {T : SlabTree} (p : Mempool A T) (free : ℕ → List ℕ)
    : Option ℕ × Mempool A T → Type 0 where
  unready :
      {p' : Mempool A T}
      → (slab_get_with_order p.cache p.slab_order).0 ≡ none
      → IsPool none p' free
      → p'.slabs ≡ p.slabs
      → ((s : ℕ) → contains p'.slabs.slabs s ≡ true → free s ≡ [])
      → Readied p free (none, p')
  ready :
      {p' : Mempool A T} {s : ℕ} (free' : ℕ → List ℕ)
      → IsPool none p' free'
      → p'.first_hot_slab ≡ some s
      → 1 ≤ length (free' s)
      → p'.objsize ≡ p.objsize
      → HasMore p free p'.slabs free'
      → Readied p free (some s, p')

module _ {A : Arena} {T : SlabTree} (p : Mempool A T) (free : ℕ → List ℕ) (v : IsPool none p free)
    (no_first : p.first_hot_slab ≡ none) where
  pub none_hot : (y : ℕ) → T.has p.hot_slabs y ≡ false
  none_hot = subst (λ (o : Option ℕ). IsFirst T o p.hot_slabs) no_first v.first

  -- The spare slab is used.
  pub spare-Readied :
      (s : ℕ) → p.spare ≡ some s → Readied p free (heat_first (record p { spare = none }) s)
  spare-Readied s is =
      let w = v.is_spare s is in
      let some_objects = v.some_objects in
      let some_free : 1 ≤ length (free s) = omega (arith, w.1) in
      ready free
        (heat_first-IsPool (record p { spare = none }) free s no_first
          (record {
            is_slab = w.0;
            has_free = some_free;
            not_hot = w.2;
            not_cold = w.3;
            not_spare = λ q. absurd (ground (arith, q));
          })
          (record {
            small = v.small;
            word = v.word;
            sized = v.sized;
            some_objects = v.some_objects;
            slabs_once = v.slabs_once;
            distinct = v.distinct;
            slabs_free = v.slabs_free;
            hot_flag = v.hot_flag;
            hot = v.hot;
            first = v.first;
            cold = v.cold;
            cold_once = v.cold_once;
            is_spare = λ y q. absurd (ground (arith, q));
            known = λ y h1 h2 h3 h4. elim (v.known y h1 h2 h3 h4) [
              | inl at ↦ inr (sym is ∙ at)
              | inr at ↦ absurd (ground (arith, at))
            ];
          }))
        refl some_free refl as_before

  -- The first cold slab is used, or there is none.
  pub from_cold-Readied :
      (cache : SlabCache A)
      → (slab_get_with_order p.cache p.slab_order).0 ≡ none
      → p.spare ≡ none
      → (slabs : List ℕ) → p.cold_slabs ≡ slabs
      → Readied p free (from_cold (record p { cache = cache }) slabs)
  from_cold-Readied cache refused no_spare [] e =
      unready refused
        (record {
          small = v.small;
          word = v.word;
          sized = v.sized;
          some_objects = v.some_objects;
          slabs_once = v.slabs_once;
          distinct = v.distinct;
          slabs_free = v.slabs_free;
          hot_flag = v.hot_flag;
          hot = v.hot;
          first = v.first;
          cold = v.cold;
          cold_once = v.cold_once;
          is_spare = v.is_spare;
          known = v.known;
        })
        refl
        (λ s is. elim (Bool-cases (ltb 0 (length (free s)))) [
          | inl more ↦
              absurd
                (elim (v.known s is (ground arith) (none_hot s)
                  (ap (λ (l : List ℕ). contains l s) e)) [
                    | inl at ↦ (let q = sym no_spare ∙ at in absurd (ground arith))
                    | inr at ↦ absurd (ground (arith, at))
                  ])
          | inr empty ↦ empty_list (free s) (ground arith)
        ])
  from_cold-Readied cache refused no_spare (s ∷ rest) e =
      let in_cold : (y : ℕ) → contains (s ∷ rest) y ≡ true → contains p.cold_slabs y ≡ true =
        λ y h. ap (λ (l : List ℕ). contains l y) e ∙ h in
      let own : contains (s ∷ rest) s ≡ true =
        (let q : (s == s) ≡ true = ground arith in rw q refl) in
      let w = v.cold s (in_cold s own) in
      let once = subst Once e v.cold_once in
      let p1 : Mempool A T = record p { cache = cache; cold_slabs = rest } in
      ready free
        (heat_first-IsPool p1 free s no_first
          (record {
            is_slab = w.0;
            has_free = w.1;
            not_hot = w.2;
            not_cold = once.0;
            not_spare = λ q. absurd (ground (arith, sym no_spare ∙ q));
          })
          (record {
            small = v.small;
            word = v.word;
            sized = v.sized;
            some_objects = v.some_objects;
            slabs_once = v.slabs_once;
            distinct = v.distinct;
            slabs_free = v.slabs_free;
            hot_flag = v.hot_flag;
            hot = v.hot;
            first = v.first;
            cold = λ y h. v.cold y (in_cold y (ground arith));
            cold_once = once.1;
            is_spare = λ y q. absurd (ground (arith, sym no_spare ∙ q));
            known = λ y h1 h2 h3 h4. elim (eq_cases s y) [
              | inl same ↦ inr (ap some same)
              | inr other ↦
                  (let q : (s == y) ≡ false = ground arith in
                    elim (v.known y h1 h2 h3 (ap (λ (l : List ℕ). contains l y) e ∙ rw q h4)) [
                      | inl at ↦ inl at
                      | inr at ↦ absurd (ground (arith, at))
                    ])
            ];
          }))
        refl w.1 refl as_before
