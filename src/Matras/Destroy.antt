-- ===== src/Matras/Destroy.antt =====
-- The ends of views and of a whole tree, from small/matras.c. The loops over the extents of a root
-- count in 32 bits, so they have fuel, and `none` is a loop that did not end within it.
use small.Base.{
  ℕ, zero, suc, ◌+◌, ◌/◌, Bool, false, ◌&&◌, ◌||◌, not, Option, none, some, List, [], ◌∷◌, ltb,
  ◌==◌, if◌then◌else◌, length, get_elem?,
}
use small.Base.Words.{add32}
use small.Matras.{Extents, View, Matras, pointer_size, matras_free_extent}
use small.Matras.Views.{matras_free_read_view_extent, free_rows}

-- A list without the view at an index.
abbrev pub remove : ℕ → List View → List View
remove i [] = []
remove zero (v ∷ vs) = vs
remove (suc i) (v ∷ vs) = v ∷ remove i vs

-- A neighbour of a view has the block `id`, and the same extent for it.
abbrev pub shares : View → (id extent : ℕ) → (other : ℕ) → Bool
shares v id extent other = ltb id v.block_count && (extent == other)

abbrev pub shares_prev : Option View → (id extent : ℕ) → (View → ℕ) → Bool
shares_prev none id extent other = false
shares_prev (some v) id extent other = shares v id extent (other v)

abbrev pub same_root : View → View → Bool
same_root v w = (v.root == w.root) && not (w.block_count == 0)

abbrev pub same_root_prev : View → Option View → Bool
same_root_prev v none = false
same_root_prev v (some p) = same_root v p

module _ {E : Extents} where
  -- The inner loop of `matras_destroy_read_view`.
  unfoldable pub free_view_row :
      (slots : ℕ) → (v next : View) → Option View → (i1 i2 j1 j2 : ℕ) → Matras E → Matras E
  unfolding matras_free_read_view_extent
  free_view_row zero v next prev i1 i2 j1 j2 m = m
  free_view_row (suc slots) v next prev i1 i2 j1 j2 m =
      let id = add32 j1 j2 in
      let extent3 = m.cells (m.cells v.root i1) i2 in
      let kept =
        shares next id extent3 (m.cells (m.cells next.root i1) i2)
        || shares_prev prev id extent3 (λ p. m.cells (m.cells p.root i1) i2) in
      let m' : Matras E = if kept then m else matras_free_read_view_extent m extent3 in
      let rest = free_view_row slots v next prev i1 (i2 + 1) j1 (add32 j2 (add32 m.mask2 1)) m' in
      if ltb id v.block_count then rest else m

  -- The outer loop.
  unfoldable pub free_view_rows :
      ℕ → (v next : View) → Option View → (i1 j1 : ℕ) → Matras E → Option (Matras E)
  unfolding free_view_row matras_free_read_view_extent
  free_view_rows zero v next prev i1 j1 m = none
  free_view_rows (suc fuel) v next prev i1 j1 m =
      let extent2 = m.cells v.root i1 in
      let kept =
        shares next j1 extent2 (m.cells next.root i1)
        || shares_prev prev j1 extent2 (λ p. m.cells p.root i1) in
      let row = free_view_row (m.extent_size / pointer_size) v next prev i1 0 j1 0 m in
      let m' : Matras E = if kept then m else matras_free_read_view_extent row extent2 in
      let rest = free_view_rows fuel v next prev (i1 + 1) (add32 j1 (add32 m.mask1 1)) m' in
      if ltb j1 v.block_count then rest else some m

  abbrev pub free_view_root : View → Option (Matras E) → Option (Matras E)
  free_view_root v none = none
  free_view_root v (some m) = some (matras_free_read_view_extent m v.root)

  -- The extents of a view that was taken out from between two others.
  abbrev pub free_view : (v next : View) → Option View → Matras E → Option (Matras E)
  free_view v next prev m =
      if (v.block_count == 0) || (same_root v next || same_root_prev v prev)
      then some m
      else free_view_root v (free_view_rows (v.block_count + 1) v next prev 0 0 m)

  -- The view at an index, the next one being the view before it in the list, or the head.
  abbrev pub destroy_at : (next : View) → ℕ → List View → Matras E → Option (Matras E)
  destroy_at next i [] m = some m
  destroy_at next zero (v ∷ older) m = free_view v next (get_elem? older 0) m
  destroy_at next (suc i) (v ∷ older) m = destroy_at v i older m

  -- A view is given by its index in the list; a view that is not in it was destroyed before.
  unfoldable pub matras_destroy_read_view : Matras E → ℕ → Option (Matras E)
  unfolding free_view_rows matras_free_read_view_extent
  matras_destroy_read_view m i = destroy_at m.head i m.views (record m { views = remove i m.views })

  abbrev pub free_root : Option (Matras E) → Option (Matras E)
  free_root none = none
  free_root (some m) = some (matras_free_extent m m.head.root)

  -- `while (m->head.prev_view) matras_destroy_read_view(m, m->head.prev_view)`
  unfoldable pub destroy_views : (views : ℕ) → Option (Matras E) → Option (Matras E)
  unfolding matras_destroy_read_view
  destroy_views zero m = m
  destroy_views (suc n) none = none
  destroy_views (suc n) (some m) = destroy_views n (matras_destroy_read_view m 0)

  abbrev pub destroy_head : Option (Matras E) → Option (Matras E)
  destroy_head none = none
  destroy_head (some m) =
      if m.head.block_count == 0
      then some m
      else free_root (free_rows (m.head.block_count + 1) 0 0 m)

  unfoldable pub matras_destroy : Matras E → Option (Matras E)
  unfolding destroy_views free_rows matras_free_extent
  matras_destroy m = destroy_head (destroy_views (length m.views) (some m))

  abbrev pub clear : Option (Matras E) → Option (Matras E)
  clear none = none
  clear (some m) = some (record m { head = record m.head { block_count = 0 } })

  unfoldable pub matras_reset : Matras E → Option (Matras E)
  unfolding matras_destroy
  matras_reset m = clear (matras_destroy m)
