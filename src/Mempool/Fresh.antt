-- ===== src/Mempool/Fresh.antt =====
-- The slab that an allocation takes from the cache.
use mathlib.Core.Path.{subst}
use small.Base.{
  zero, suc, ℕ, ◌+◌, ◌*◌, ◌≤◌, ◌<◌, ◌≡◌, refl, sym, ap, ◌∙◌, ◌≢◌, inl, inr, true, false, Option,
  none, some, List, [], ◌∷◌, arith, ◌==◌, Bool-cases, length,
}
use small.Base.Update.{update, update_self, update_other}
use small.SlabCache.{slab_list_add, Arena, SlabCache}
use small.SlabCache.Get.{slab_get_with_order}
use small.Mempool.{from_spare, from_cache, mslab_create, Mslab, Mempool}
use small.Mempool.Tree.{eq_cases, SlabTree}
use small.Mempool.Slab.{untouched, length-untouched, IsFree}
use small.Mempool.Pool.{Once, contains, IsPool, heat_first-IsPool}
use small.Mempool.Ready.{one_more, Readied, ready, none_hot, spare-Readied, from_cold-Readied}

untouched-after :
    (first objsize n x : ℕ) → x < first → contains (untouched first objsize n) x ≡ false
untouched-after first objsize zero x less = refl
untouched-after first objsize (suc n) x less =
    let later = untouched-after (first + objsize) objsize n x (omega arith) in
    let e : (first == x) ≡ false = ground arith in rw (e, later) refl

untouched-Once : (first objsize n : ℕ) → 1 ≤ objsize → Once (untouched first objsize n)
untouched-Once first objsize zero some_size = tt
untouched-Once first objsize (suc n) some_size = (
  untouched-after (first + objsize) objsize n first (omega arith),
  untouched-Once (first + objsize) objsize n some_size,
)

module _ {A : Arena} {T : SlabTree} (p : Mempool A T) (free : ℕ → List ℕ) (v : IsPool none p free)
    (no_first : p.first_hot_slab ≡ none) where
  -- A slab from the cache is used.
  new-Readied :
      (cache : SlabCache A) (s : ℕ)
      → (slab_get_with_order p.cache p.slab_order).0 ≡ some s
      → p.spare ≡ none
      → contains p.slabs.slabs s ≡ false
      → 1 ≤ p.objcount
      → Readied p free (from_cache p (some s, cache))
  unfolding mslab_create
  new-Readied cache s got no_spare fresh some_objects =
      let h : Mslab = record {
        free_list = none;
        free_offset = p.offset;
        nfree = p.objcount;
        in_hot_slabs = false;
      } in
      let objects = untouched (s + p.offset) p.objsize p.objcount in
      let count = length-untouched (s + p.offset) p.objsize p.objcount in
      let free' = update free s objects in
      let created : Mempool A T = mslab_create (record p { cache = cache }) s in
      let p1 : Mempool A T = record created {
        slabs = slab_list_add p.slabs s (cache.headers s).size;
      } in
      let old_other : (y : ℕ) → contains p.slabs.slabs y ≡ true → s ≢ y =
        λ y is q. absurd (ground (arith, sym fresh ∙ ap (contains p.slabs.slabs) q ∙ is)) in
      let old_slab : (y : ℕ)
          → s ≢ y
          → contains (s ∷ p.slabs.slabs) y ≡ true
          → contains p.slabs.slabs y ≡ true =
        λ y other is. (let q : (s == y) ≡ false = ground arith in rw q at is) in
      let as_old : (y : ℕ)
          → contains p.slabs.slabs y ≡ true
          → contains (s ∷ p.slabs.slabs) y ≡ true =
        λ y is. ground arith in
      let own : contains (s ∷ p.slabs.slabs) s ≡ true =
        (let q : (s == s) ≡ true = ground arith in rw q refl) in
      let own_free : 1 ≤ length (free' s) =
        subst (λ (l : List ℕ). 1 ≤ length l) (sym (update_self free s objects)) (omega arith) in
      let kept : (y : ℕ) → s ≢ y → free' y ≡ free y =
        λ y other. update_other free s y objects other in
      ready free'
        (heat_first-IsPool p1 free' s no_first
          (record {
            is_slab = own;
            has_free = own_free;
            not_hot = none_hot p free v no_first s;
            not_cold = elim (Bool-cases (contains p.cold_slabs s)) [
              | inl is ↦ absurd (old_other s (v.cold s is).0 refl)
              | inr not ↦ not
            ];
            not_spare = λ q. absurd (ground (arith, sym no_spare ∙ q));
          })
          (record {
            small = v.small;
            word = v.word;
            sized = v.sized;
            some_objects = v.some_objects;
            slabs_once = (fresh, v.slabs_once);
            distinct = λ y is. elim (eq_cases s y) [
              | inl same ↦
                  subst (λ (x : ℕ). Once (free' x)) same
                    (subst Once (sym (update_self free s objects))
                      (untouched-Once (s + p.offset) p.objsize p.objcount v.sized))
              | inr other ↦ subst Once (sym (kept y other)) (v.distinct y (old_slab y other is))
            ];
            slabs_free = λ y is. elim (eq_cases s y) [
              | inl same ↦
                  subst
                    (λ (x : ℕ).
                      IsFree p.links (update p.mslabs s h x) x p.objsize
                        (p.offset + p.objcount * p.objsize) (free' x)
                      × (length (free' x) ≤ p.objcount))
                    same
                    (subst
                      (λ (l : List ℕ).
                        IsFree p.links (update p.mslabs s h s) s p.objsize
                          (p.offset + p.objcount * p.objsize) l
                        × (length l ≤ p.objcount))
                      (sym (update_self free s objects))
                      (
                        subst
                            (λ (x : Mslab).
                              IsFree p.links x s p.objsize (p.offset + p.objcount * p.objsize)
                                objects)
                            (sym (update_self p.mslabs s h))
                            (record {
                              chain = [];
                              left = p.objcount;
                              linked = refl;
                              counted = sym count;
                              within = refl;
                              all = refl;
                            }),
                        omega arith,
                      ))
              | inr other ↦
                  subst
                    (λ (l : List ℕ).
                      IsFree p.links (update p.mslabs s h y) y p.objsize
                        (p.offset + p.objcount * p.objsize) l
                      × (length l ≤ p.objcount))
                    (sym (kept y other))
                    (let w = v.slabs_free y (old_slab y other is) in
                      (
                        subst
                            (λ (x : Mslab).
                              IsFree p.links x y p.objsize (p.offset + p.objcount * p.objsize)
                                (free y))
                            (sym (update_other p.mslabs s y h other)) w.0,
                        w.1,
                      ))
            ];
            hot_flag = λ y is. elim (eq_cases s y) [
              | inl same ↦
                  subst (λ (x : ℕ). (update p.mslabs s h x).in_hot_slabs ≡ T.has p.hot_slabs x) same
                    (ap (λ (x : Mslab). x.in_hot_slabs) (update_self p.mslabs s h)
                      ∙ sym (none_hot p free v no_first s))
              | inr other ↦
                  ap (λ (x : Mslab). x.in_hot_slabs) (update_other p.mslabs s y h other)
                  ∙ v.hot_flag y (old_slab y other is)
            ];
            hot = λ y is. absurd (ground (arith, sym (none_hot p free v no_first y) ∙ is));
            first = v.first;
            cold = λ y is.
                let c = v.cold y is in
                (
                  as_old y c.0,
                  subst (λ (l : List ℕ). 1 ≤ length l) (sym (kept y (old_other y c.0))) c.1,
                  c.2,
                );
            cold_once = v.cold_once;
            is_spare = λ y q. absurd (ground (arith, sym no_spare ∙ q));
            known = λ y h1 h2 h3 h4. elim (eq_cases s y) [
              | inl same ↦ inr (ap some same)
              | inr other ↦
                  elim (v.known y (old_slab y other h1)
                    (subst (λ (l : List ℕ). 1 ≤ length l) (kept y other) h2) h3 h4) [
                      | inl at ↦ inl at
                      | inr at ↦ absurd (ground (arith, at))
                    ]
            ];
          }))
        refl own_free refl (one_more (cache.headers s).size got)

  cache-Readied :
      p.spare ≡ none
      → ((s : ℕ)
          → (slab_get_with_order p.cache p.slab_order).0 ≡ some s
          → contains p.slabs.slabs s ≡ false)
      → 1 ≤ p.objcount
      → (r : Option ℕ × SlabCache A) → (slab_get_with_order p.cache p.slab_order) ≡ r
      → Readied p free (from_cache p r)
  cache-Readied no_spare fresh some_objects (none, cache) e =
      from_cold-Readied p free v no_first cache (ap (λ (t : Option ℕ × SlabCache A). t.0) e)
        no_spare p.cold_slabs refl
  cache-Readied no_spare fresh some_objects (some s, cache) e =
      let got = ap (λ (t : Option ℕ × SlabCache A). t.0) e in
      new-Readied cache s got no_spare (fresh s got) some_objects

  pub from_spare-Readied :
      ((s : ℕ)
        → (slab_get_with_order p.cache p.slab_order).0 ≡ some s
        → contains p.slabs.slabs s ≡ false)
      → 1 ≤ p.objcount
      → (o : Option ℕ) → p.spare ≡ o
      → Readied p free (from_spare p o)
  from_spare-Readied fresh some_objects (some s) e = spare-Readied p free v no_first s e
  from_spare-Readied fresh some_objects none e =
      cache-Readied e fresh some_objects (slab_get_with_order p.cache p.slab_order) refl
