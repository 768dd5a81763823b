-- ===== src/SlabCache/Get.antt =====
-- `slab_get` of small/slab_cache.c: a free slab of an order, split from a larger one or mapped, and
-- large slabs.
use small.Base.{
  ℕ, zero, suc, ◌+◌, ◌-◌, Bool, true, false, Option, none, some, List, [], ◌∷◌, ◌==◌, if◌then◌else◌,
}
use small.Base.Words.{add64, sub64}
use small.SlabSource.{slab_sizeof}
use small.SlabCache.{
  Arena, Slab, SlabList, SlabCache, slab_list_add, is_empty, set_order, slab_order, slab_order_size,
  slab_create, slab_set_used, slab_buddy,
}

module _ {A : Arena} where
  -- The buddy of the slab that is split is free; the slab keeps its address.
  abbrev pub add_buddy : SlabCache A → (new_order new_size : ℕ) → Option ℕ → SlabCache A
  add_buddy c new_order new_size none = c
  add_buddy c new_order new_size (some buddy) =
      let c' : SlabCache A = slab_create c buddy new_order new_size in
      set_order c' new_order (slab_list_add (c'.orders new_order) buddy new_size)

  unfoldable pub slab_split : SlabCache A → ℕ → SlabCache A
  unfolding slab_create
  slab_split c slab =
      let new_order = (c.headers slab).order - 1 in
      let new_size = slab_order_size c new_order in
      let c' : SlabCache A = slab_create c slab new_order new_size in
      add_buddy c' new_order new_size (slab_buddy c' slab)

  -- `do { slab = slab_split(cache, slab); } while (slab->order != order)`. A split lowers the order,
  -- so the order of the slab is enough fuel.
  unfoldable pub split_until : ℕ → (order slab : ℕ) → SlabCache A → SlabCache A
  unfolding slab_split
  split_until zero order slab c = c
  split_until (suc fuel) order slab c =
      let c' : SlabCache A = slab_split c slab in
      let rest = split_until fuel order slab c' in
      if (c'.headers slab).order == order then c' else rest

  -- A slab of the highest order that the arena mapped.
  abbrev pub add_mapped : SlabCache A → Option ℕ × A.State → Option ℕ × SlabCache A
  add_mapped c (none, s) = (none, record c { arena = s })
  add_mapped c (some slab, s) =
      let mapped : SlabCache A = record c { arena = s } in
      let c' : SlabCache A = slab_create mapped slab c.order_max A.slab_size in
      let listed : SlabCache A = record c' {
        allocated = slab_list_add c'.allocated slab A.slab_size;
      } in
      (
        some c.order_max,
        set_order listed c.order_max (slab_list_add (listed.orders c.order_max) slab A.slab_size),
      )

  -- The loop over the lists, from the one of `order` on: the order of the first that is not empty.
  -- There are `order_max + 1` lists.
  unfoldable pub find_list : ℕ → (order : ℕ) → SlabCache A → Option ℕ × SlabCache A
  unfolding slab_create
  find_list zero order c = (none, c)
  find_list (suc fuel) order c =
      let rest = find_list fuel (order + 1) c in
      if is_empty (c.orders order).slabs
      then if order == c.order_max then add_mapped c (A.slab_map c.arena) else rest
      else (some order, c)

  -- Takes the first slab of the list of order `found`, and splits it down to `order`.
  abbrev pub take_first : SlabCache A → (order found : ℕ) → List ℕ → Option ℕ × SlabCache A
  take_first c order found [] = (none, c)
  take_first c order found (slab ∷ rest) =
      let h : Slab = c.headers slab in
      let l : SlabList = record (c.orders found) { slabs = rest } in
      let shifted : SlabCache A = set_order c found l in
      let unbilled : SlabCache A = set_order c found (record l { total = sub64 l.total h.size }) in
      let split : SlabCache A = split_until h.order order slab unbilled in
      let h' : Slab = split.headers slab in
      let l' : SlabList = split.orders h'.order in
      let billed : SlabCache A =
        set_order split h'.order (record l' { total = add64 l'.total h'.size }) in
      if h.order == order
      then (some slab, slab_set_used shifted slab)
      else (some slab, slab_set_used billed slab)

  abbrev pub take_found : ℕ → Option ℕ × SlabCache A → Option ℕ × SlabCache A
  take_found order (none, c) = (none, c)
  take_found order (some found, c) = take_first c order found (c.orders found).slabs

  unfoldable pub slab_get_with_order : SlabCache A → ℕ → Option ℕ × SlabCache A
  unfolding find_list split_until slab_set_used
  slab_get_with_order c order = take_found order (find_list (c.order_max + 1) order c)

  -- After `malloc`.
  abbrev pub add_large : SlabCache A → ℕ → Option ℕ × A.State → Option ℕ × SlabCache A
  add_large c size (none, s) = (none, record c { arena = A.quota_release s size })
  add_large c size (some slab, s) =
      let got : SlabCache A = record c { arena = s } in
      let c' : SlabCache A = slab_create got slab (c.order_max + 1) size in
      let l : SlabList = slab_list_add c'.allocated slab size in
      (some slab, record c' { allocated = record l { used = add64 l.used size } })

  -- After `quota_use`.
  abbrev pub get_granted : SlabCache A → ℕ → Bool × A.State → Option ℕ × SlabCache A
  get_granted c size (false, s) = (none, record c { arena = s })
  get_granted c size (true, s) = add_large c size (A.malloc s size)

  unfoldable pub slab_get_large : SlabCache A → ℕ → Option ℕ × SlabCache A
  unfolding slab_create
  slab_get_large c size =
      let size' = add64 size slab_sizeof in get_granted c size' (A.quota_use c.arena size')

  unfoldable pub slab_get : SlabCache A → ℕ → Option ℕ × SlabCache A
  unfolding slab_get_large slab_get_with_order
  slab_get c size =
      let order = slab_order c (add64 size slab_sizeof) in
      if order == c.order_max + 1 then slab_get_large c size else slab_get_with_order c order
