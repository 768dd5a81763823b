-- ===== src/Mempool/Alloc.antt =====
-- What `mempool_alloc` promises.
use mathlib.Core.Path.{subst}
use small.Base.{
  get_or, ℕ, ◌≤◌, ◌≡◌, refl, sym, ap, ◌∙◌, true, false, Option, none, some, List, [], ◌∷◌, arith,
  length,
}
use small.Base.Update.{update}
use small.Lifo.Stack.{rest}
use small.SlabCache.{SlabList, Arena}
use small.SlabCache.Get.{slab_get_with_order}
use small.Mempool.{mempool_alloc, alloc_from, hot_slab, add64, Mempool, mslab_alloc}
use small.Mempool.Tree.{IsFirst, SlabTree}
use small.Mempool.Pool.{recounted, Once, contains, IsPool}
use small.Mempool.Ready.{HasMore, as_before, Readied, unready, ready}
use small.Mempool.Fresh.{from_spare-Readied}
use small.Mempool.Draw.{mslab_alloc-IsPool}

-- The outcomes of an allocation.
pub data Allocated {A : Arena} {T : SlabTree} (p : Mempool A T) (free : ℕ → List ℕ)
    : Option ℕ × Mempool A T → Type 0 where
  no_object :
      {p' : Mempool A T}
      → (slab_get_with_order p.cache p.slab_order).0 ≡ none
      → IsPool none p' free
      → p'.slabs ≡ p.slabs
      → ((s : ℕ) → contains p.slabs.slabs s ≡ true → free s ≡ [])
      → Allocated p free (none, p')
  gave_object :
      {p' : Mempool A T} {slabs : SlabList} {s object : ℕ} {objects : List ℕ} {free' : ℕ → List ℕ}
      → HasMore p free slabs free'
      → contains slabs.slabs s ≡ true
      → free' s ≡ object ∷ objects
      → contains objects object ≡ false
      → IsPool none p' (update free' s objects)
      → p'.slabs ≡ record slabs { used = add64 slabs.used p.objsize }
      → Allocated p free (some object, p')

module _ {A : Arena} {T : SlabTree} (p : Mempool A T) (free : ℕ → List ℕ)
    (v : IsPool none p free) where
  abbrev head_of : List ℕ → ℕ
  head_of xs = get_or xs 0 0

  head_and_rest : (xs : List ℕ) → 1 ≤ length xs → xs ≡ head_of xs ∷ rest xs
  head_and_rest [] h = absurd (omega arith)
  head_and_rest (x ∷ xs) h = refl

  hot_slab-Readied :
      ((s : ℕ)
        → (slab_get_with_order p.cache p.slab_order).0 ≡ some s
        → contains p.slabs.slabs s ≡ false)
      → 1 ≤ p.objcount
      → (o : Option ℕ) → p.first_hot_slab ≡ o
      → Readied p free (hot_slab p o)
  hot_slab-Readied fresh some_objects (some s) e =
      let f = subst (λ (o : Option ℕ). IsFirst T o p.hot_slabs) e v.first in
      ready free v e (v.hot s f.0).1 refl as_before
  hot_slab-Readied fresh some_objects none e =
      from_spare-Readied p free v e fresh some_objects p.spare refl

  alloc_from-Allocated :
      {r : Option ℕ × Mempool A T} → Readied p free r → Allocated p free (alloc_from r)
  alloc_from-Allocated (unready refused w same empty) =
      no_object refused w same
        (λ s is. empty s (ap (λ (l : SlabList). contains l.slabs s) same ∙ is))
  alloc_from-Allocated (ready {p' = p'} {s = s} free' w is_first some_free sized more) =
      let objects = rest (free' s) in
      let head = head_and_rest (free' s) some_free in
      let f = subst (λ (o : Option ℕ). IsFirst T o p'.hot_slabs) is_first w.first in
      let is = (w.hot s f.0).0 in
      let once = subst Once head (w.distinct s is) in
      let used : Mempool A T = record p' {
        slabs = record p'.slabs { used = add64 p'.slabs.used p'.objsize };
      } in
      let given =
        mslab_alloc-IsPool used free' (recounted p' free' (add64 p'.slabs.used p'.objsize) w) s
          (head_of (free' s)) objects is_first head in
      subst (λ (x : ℕ). Allocated p free (some x, (mslab_alloc used s).1)) (sym given.0)
        (gave_object more is head once.0 given.1
          (given.2 ∙ ap (λ (n : ℕ). record p'.slabs { used = add64 p'.slabs.used n }) sized))

  -- In a pool of which a list says the free objects of each slab, in which a slab with free
  -- objects is hot, cold or spare, and whose cache gives out no slab that the pool has:
  -- mempool_alloc returns NULL only where no slab has a free object and the cache has no slab;
  -- else it gives out the first free object of a slab, which is free no more, while all others
  -- stay free, and counts it as used. A slab from the cache has all its objects free before that.
  -- In both cases the lists and the tree are again right for what is free.
  pub mempool_alloc-Allocated :
      ((s : ℕ)
        → (slab_get_with_order p.cache p.slab_order).0 ≡ some s
        → contains p.slabs.slabs s ≡ false)
      → Allocated p free (mempool_alloc p)
  unfolding mempool_alloc
  mempool_alloc-Allocated fresh =
      alloc_from-Allocated (hot_slab-Readied fresh v.some_objects p.first_hot_slab refl)
