-- ===== src/SlabCache/Put.antt =====
-- `slab_put` of small/slab_cache.c: a slab is merged with its buddy as long as that is free, and the
-- result kept or given back to the arena.
use small.Base.{
  ℕ, zero, suc, ◌+◌, ◌&&◌, not, Option, none, some, List, [], ◌∷◌, ltb, leb, ◌==◌, if◌then◌else◌,
}
use small.Base.Words.{add64, sub64}
use small.SlabCache.{
  Arena, Slab, SlabList, SlabCache, slab_list_del, is_empty, set_order, set_header, slab_order_size,
  slab_set_free, slab_buddy,
}

module _ {A : Arena} where
  -- The buddy, if it is free and has not been split.
  abbrev pub free_buddy : SlabCache A → ℕ → Option ℕ → Option ℕ
  free_buddy c slab none = none
  free_buddy c slab (some buddy) =
      if ((c.headers buddy).order == (c.headers slab).order) && ((c.headers buddy).in_use == 0)
      then some buddy
      else none

  unfoldable pub slab_merge : SlabCache A → (slab buddy : ℕ) → ℕ × SlabCache A
  slab_merge c slab buddy =
      let merged = if ltb buddy slab then buddy else slab in
      let b : Slab = c.headers buddy in
      let c' : SlabCache A = set_order c b.order (slab_list_del (c.orders b.order) buddy b.size) in
      let h : Slab = c'.headers merged in
      (
        merged,
        set_header c' merged
            (record h { order = h.order + 1; size = slab_order_size c' (h.order + 1) }),
      )

  -- The loop that merges. Every round raises the order, so `order_max` rounds are enough.
  unfoldable pub merge_all : ℕ → (slab : ℕ) → SlabCache A → Option ℕ → ℕ × SlabCache A
  unfolding slab_merge slab_buddy
  merge_all zero slab c buddy = (slab, c)
  merge_all (suc fuel) slab c none = (slab, c)
  merge_all (suc fuel) slab c (some buddy) =
      let (merged, c') = slab_merge c slab buddy in
      merge_all fuel merged c' (free_buddy c' merged (slab_buddy c' merged))

  -- The slab after merging, whose size is billed to its new order.
  abbrev pub merge_billed : SlabCache A → ℕ → Option ℕ → ℕ × SlabCache A
  merge_billed c slab none = (slab, c)
  merge_billed c slab (some buddy) =
      let h : Slab = c.headers slab in
      let l : SlabList = c.orders h.order in
      let unbilled : SlabCache A =
        set_order c h.order (record l { total = sub64 l.total h.size }) in
      let (merged, c') = merge_all (c.order_max + 1) slab unbilled (some buddy) in
      let h' : Slab = c'.headers merged in
      let l' : SlabList = c'.orders h'.order in
      (merged, set_order c' h'.order (record l' { total = add64 l'.total h'.size }))

  -- A slab of the highest order goes back to the arena if the cache has another one.
  abbrev pub keep_or_unmap : ℕ × SlabCache A → SlabCache A
  keep_or_unmap (slab, c) =
      let h : Slab = c.headers slab in
      let l : SlabList = c.orders h.order in
      let given : SlabCache A = record c {
        allocated = slab_list_del c.allocated slab h.size;
        arena = A.slab_unmap c.arena slab;
      } in
      if (h.order == c.order_max) && not (is_empty l.slabs)
      then set_order given h.order (record l { total = sub64 l.total h.size })
      else set_order c h.order (record l { slabs = slab ∷ l.slabs })

  unfoldable pub slab_put_with_order : SlabCache A → ℕ → SlabCache A
  unfolding slab_set_free slab_buddy merge_all
  slab_put_with_order c slab =
      let c' : SlabCache A = slab_set_free c slab in
      keep_or_unmap (merge_billed c' slab (free_buddy c' slab (slab_buddy c' slab)))

  unfoldable pub slab_put_large : SlabCache A → ℕ → SlabCache A
  slab_put_large c slab =
      let slab_size = (c.headers slab).size in
      let l : SlabList = slab_list_del c.allocated slab slab_size in
      record c {
        allocated = record l { used = sub64 l.used slab_size };
        arena = A.free (A.quota_release c.arena slab_size) slab;
      }

  unfoldable pub slab_put : SlabCache A → ℕ → SlabCache A
  unfolding slab_put_large slab_put_with_order
  slab_put c slab =
      if leb (c.headers slab).order c.order_max
      then slab_put_with_order c slab
      else slab_put_large c slab

  -- The loop of `slab_cache_destroy`, over the slabs that are allocated: the arena at its end.
  unfoldable pub put_allocated : SlabCache A → List ℕ → A.State → A.State
  put_allocated c [] s = s
  put_allocated c (slab ∷ rest) s =
      let h : Slab = c.headers slab in
      let freed = A.free (A.quota_release s h.size) slab in
      let s' = if h.order == c.order_max + 1 then freed else A.slab_unmap s slab in
      put_allocated c rest s'

  unfoldable pub slab_cache_destroy : SlabCache A → A.State
  unfolding put_allocated
  slab_cache_destroy c = put_allocated c c.allocated.slabs c.arena
