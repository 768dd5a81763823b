-- ===== src/Matras/Views.antt =====
-- The operations of small/matras.c on blocks that views share, and the loops that free whole trees.
use small.Base.{
  ℕ, zero, suc, ◌+◌, ◌-◌, ◌*◌, ◌/◌, bit_and, Bool, true, false, not, Option, none, some, List, [],
  ◌∷◌, ltb, ◌==◌, if◌then◌else◌,
}
use small.Base.Update.{update}
use small.Base.Words.{add32, sub32, shr, to_u32}
use small.Matras.{
  Extents, View, Matras, Pointer, pointer_size, part1, part2, part3, matras_allocator_reserve,
  matras_alloc_extent, matras_free_extent, matras_view_get_no_check, matras_get, set_root, set_slot,
}

module _ {E : Extents} where
  -- A view that is connected with the head (`next_view` is NULL) is `none`.
  unfoldable pub matras_view_get : Matras E → Option View → ℕ → Pointer
  unfolding matras_view_get_no_check
  matras_view_get m none id = matras_view_get_no_check m m.head id
  matras_view_get m (some v) id = matras_view_get_no_check m v id

  unfoldable pub matras_create_read_view : Matras E → Matras E
  matras_create_read_view m = record m { views = m.head ∷ m.views }

  abbrev pub needs_touch : Matras E → List View → ℕ → Bool
  needs_touch m [] id = false
  needs_touch m (prev ∷ older) id =
      let next_last_id = to_u32 (sub32 (to_u32 prev.block_count) 1) in
      if prev.block_count == 0
      then false
      else not (ltb (shr next_last_id m.shift2) (shr id m.shift2))

  unfoldable pub matras_needs_touch : Matras E → ℕ → Bool
  matras_needs_touch m id = needs_touch m m.views id

  abbrev pub copy_extent : ℕ → Option ℕ × Matras E → Option ℕ × Matras E
  copy_extent ext (none, m) = (none, m)
  copy_extent ext (some new, m) = (
    some new,
    record m {
      cells = update m.cells new (m.cells ext);
      stats_read_view_extent_count = add32 m.stats_read_view_extent_count 1;
    },
  )

  unfoldable pub matras_copy_read_view_extent : Matras E → ℕ → Option ℕ × Matras E
  unfolding matras_alloc_extent
  matras_copy_read_view_extent m ext = copy_extent ext (matras_alloc_extent m)

  unfoldable pub matras_free_read_view_extent : Matras E → ℕ → Matras E
  unfolding matras_free_extent
  matras_free_read_view_extent m ext =
      let m' : Matras E = matras_free_extent m ext in
      record m' { stats_read_view_extent_count = sub32 m'.stats_read_view_extent_count 1 }

  -- An extent of the head, which a slot refers to, made different from the one of the view.
  abbrev pub own_level : Matras E → (extent slot shared : ℕ) → Option ℕ × Matras E
  own_level m extent slot shared =
      if m.cells extent slot == shared
      then set_slot extent slot (matras_copy_read_view_extent m (m.cells extent slot))
      else (some (m.cells extent slot), m)

  abbrev pub touched3 : (n3 : ℕ) → Option ℕ × Matras E → Option Pointer × Matras E
  touched3 n3 (none, m) = (none, m)
  touched3 n3 (some extent3, m) = (some (extent3, n3), m)

  abbrev pub touched2 : (n2 n3 extent2p : ℕ) → Option ℕ × Matras E → Option Pointer × Matras E
  touched2 n2 n3 extent2p (none, m) = (none, m)
  touched2 n2 n3 extent2p (some extent2, m) =
      touched3 n3 (own_level m extent2 n2 (m.cells extent2p n2))

  abbrev pub touched1 : (n1 n2 n3 extent1p : ℕ) → Option ℕ × Matras E → Option Pointer × Matras E
  touched1 n1 n2 n3 extent1p (none, m) = (none, m)
  touched1 n1 n2 n3 extent1p (some extent1, m) =
      touched2 n2 n3 (m.cells extent1p n1) (own_level m extent1 n1 (m.cells extent1p n1))

  abbrev pub own_root : Matras E → View → Option ℕ × Matras E
  own_root m prev =
      if m.head.root == prev.root
      then set_root (matras_copy_read_view_extent m m.head.root)
      else (some m.head.root, m)

  -- There is a previous view, or the block needs no touch.
  abbrev pub touch_no_check : Matras E → List View → ℕ → Option Pointer × Matras E
  touch_no_check m [] id = (none, m)
  touch_no_check m (prev ∷ older) id =
      touched1 (part1 m id) (part2 m id) (part3 m id) prev.root (own_root m prev)

  unfoldable pub matras_touch_no_check : Matras E → ℕ → Option Pointer × Matras E
  unfolding matras_copy_read_view_extent
  matras_touch_no_check m id = touch_no_check m m.views id

  unfoldable pub matras_touch : Matras E → ℕ → Option Pointer × Matras E
  unfolding matras_get matras_touch_no_check matras_needs_touch
  matras_touch m id =
      if matras_needs_touch m id then matras_touch_no_check m id else (some (matras_get m id), m)

  -- Frees the extents that end with the block `id`.
  abbrev pub free_path : Matras E → ℕ → Matras E
  free_path m id =
      let extent1 = m.head.root in
      let id1 = bit_and id m.mask1 in
      let extent2 = m.cells extent1 (shr id m.shift1) in
      let extent3 = m.cells extent2 (shr id1 m.shift2) in
      let m3 : Matras E = if bit_and id1 m.mask2 == 0 then matras_free_extent m extent3 else m in
      let m2 : Matras E = if id1 == 0 then matras_free_extent m3 extent2 else m3 in
      if id == 0 then matras_free_extent m2 extent1 else m2

  unfoldable pub matras_dealloc : Matras E → Matras E
  unfolding matras_touch matras_free_extent
  matras_dealloc m =
      let id = sub32 (to_u32 m.head.block_count) 1 in
      let m' : Matras E = (matras_touch m id).1 in
      free_path (record m' { head = record m'.head { block_count = id } }) id

  unfoldable pub matras_dealloc_range : Matras E → ℕ → Matras E
  unfolding matras_dealloc
  matras_dealloc_range m range_count =
      matras_dealloc
        (record m { head = record m.head { block_count = m.head.block_count - (range_count - 1) } })

  abbrev pub extents_to_copy : Matras E → View → ℕ → ℕ
  extents_to_copy m prev count = count * 2 + (if m.head.root == prev.root then 1 else 0)

  abbrev pub touch_reserve : Matras E → List View → ℕ → Bool × Matras E
  touch_reserve m [] count = (true, m)
  touch_reserve m (prev ∷ older) count =
      let (ok, a) = matras_allocator_reserve m.allocator (extents_to_copy m prev count) in
      if prev.block_count == 0 then (true, m) else (ok, record m { allocator = a })

  unfoldable pub matras_touch_reserve : Matras E → ℕ → Bool × Matras E
  unfolding matras_allocator_reserve
  matras_touch_reserve m count = if count == 0 then (true, m) else touch_reserve m m.views count

  -- The inner loop of `matras_destroy`: the extents of one extent of the second level.
  unfoldable pub free_row : (slots : ℕ) → (i2 j1 j2 extent2 : ℕ) → Matras E → Matras E
  unfolding matras_free_extent
  free_row zero i2 j1 j2 extent2 m = m
  free_row (suc slots) i2 j1 j2 extent2 m =
      let rest =
        free_row slots (i2 + 1) j1 (add32 j2 (add32 m.mask2 1)) extent2
          (matras_free_extent m (m.cells extent2 i2)) in
      if ltb (add32 j1 j2) m.head.block_count then rest else m

  -- The outer loop, `none` where it does not end within its fuel.
  unfoldable pub free_rows : ℕ → (i1 j1 : ℕ) → Matras E → Option (Matras E)
  unfolding free_row
  free_rows zero i1 j1 m = none
  free_rows (suc fuel) i1 j1 m =
      let extent2 = m.cells m.head.root i1 in
      let row = free_row (m.extent_size / pointer_size) 0 j1 0 extent2 m in
      let rest =
        free_rows fuel (i1 + 1) (add32 j1 (add32 m.mask1 1)) (matras_free_extent row extent2) in
      if ltb j1 m.head.block_count then rest else some m
