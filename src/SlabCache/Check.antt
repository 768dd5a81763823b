-- ===== src/SlabCache/Check.antt =====
-- `slab_cache_check` of small/slab_cache.c: the statistics of a slab cache against its lists. The
-- result is false where the source aborts.
use small.Base.{
  ℕ, zero, suc, ◌+◌, ◌%◌, ◌^◌, Bool, true, ◌&&◌, ◌||◌, List, [], ◌∷◌, ◌==◌, if◌then◌else◌,
}
use small.Base.Words.{add64}
use small.SlabCache.{Arena, Slab, SlabCache, slab_magic, slab_order_size}

module _ {A : Arena} where
  abbrev pub check_slab : SlabCache A → Slab → Bool
  check_slab c h =
      (h.magic == slab_magic)
      && ((h.order == c.order_max + 1) || (h.size == slab_order_size c h.order))

  abbrev pub check_slabs : SlabCache A → List ℕ → Bool
  check_slabs c [] = true
  check_slabs c (x ∷ xs) = check_slab c (c.headers x) && check_slabs c xs

  -- The bytes in large slabs, and in all.
  abbrev pub huge_size : SlabCache A → List ℕ → ℕ
  huge_size c [] = 0
  huge_size c (x ∷ xs) =
      let h : Slab = c.headers x in
      add64 (if h.order == c.order_max + 1 then h.size else 0) (huge_size c xs)

  abbrev pub total_size : SlabCache A → List ℕ → ℕ
  total_size c [] = 0
  total_size c (x ∷ xs) =
      let h : Slab = c.headers x in
      add64 (if h.order == c.order_max + 1 then h.size else slab_order_size c c.order_max)
        (total_size c xs)

  -- The size that the statistics of an order are to be a multiple of. The source keeps the size of
  -- the order in a `uint8_t` and takes that for an order.
  abbrev pub checked_size : SlabCache A → ℕ → ℕ
  checked_size c i = slab_order_size c (slab_order_size c i % 2 ^ 8)

  abbrev pub check_order : SlabCache A → ℕ → Bool
  check_order c i =
      ((c.orders i).total % checked_size c i == 0) && ((c.orders i).used % checked_size c i == 0)

  -- The first `n` orders.
  abbrev pub check_orders : SlabCache A → ℕ → Bool
  check_orders c zero = true
  check_orders c (suc n) = check_orders c n && check_order c n

  abbrev pub ordered_size : SlabCache A → ℕ → ℕ
  ordered_size c zero = 0
  ordered_size c (suc n) = add64 (ordered_size c n) (c.orders n).total

  abbrev pub used_size : SlabCache A → ℕ → ℕ
  used_size c zero = 0
  used_size c (suc n) = add64 (used_size c n) (c.orders n).used

  unfoldable pub slab_cache_check : SlabCache A → Bool
  slab_cache_check c =
      let lists = c.order_max + 1 in
      let huge = huge_size c c.allocated.slabs in
      let total = total_size c c.allocated.slabs in
      check_slabs c c.allocated.slabs
      && (total == c.allocated.total)
      && check_orders c lists
      && (add64 (ordered_size c lists) huge == total)
      && (add64 huge (used_size c lists) == c.allocated.used)
