-- ===== src/Matras/Destroyed.antt =====
-- The ends of views and of the table: `matras_destroy_read_view` and `matras_destroy` return.
use mathlib.Core.Path.{subst}
use small.Base.{
  get_elem?, ◌∷◌, sym, false, true, length, [], if◌then◌else◌, List, ◌==◌, ◌||◌, Bool, ℕ, zero, suc,
  ◌+◌, ◌-◌, ◌/◌, ◌<◌, ◌≡◌, refl, ap, ◌∙◌, inl, inr, Option, arith, ltb, Bool-cases,
}
use small.Base.Words.{add32}
use small.Matras.{Extents, View, Matras, pointer_size, matras_free_extent}
use small.Matras.Destroy.{
  shares, shares_prev, same_root, same_root_prev, remove, free_view_row, free_view_rows, free_view,
  free_view_root, destroy_at, matras_destroy_read_view, destroy_views, free_root, destroy_head,
  matras_destroy,
}
use small.Matras.Views.{matras_free_read_view_extent}
use small.Matras.Loops.{
  Freed, Ended, ended, Counts, counter_next, Freed-refl, Freed-trans, matras_free_extent-Freed,
  Ended-trans, free_rows-Ended,
}

abbrev pub AllCount : (mask1 : ℕ) → List View → Type 0
AllCount mask1 [] = Unit
AllCount mask1 (v ∷ vs) = Counts mask1 v.block_count × AllCount mask1 vs

AllCount-tail : (mask1 : ℕ) (vs : List View) → AllCount mask1 vs → AllCount mask1 (remove 0 vs)
AllCount-tail mask1 [] h = h
AllCount-tail mask1 (v ∷ vs) h = h.1

length-tail : (vs : List View) (n : ℕ) → length vs ≡ suc n → length (remove 0 vs) ≡ n
length-tail [] n h = absurd (omega arith)
length-tail (v ∷ vs) n h = omega arith

no_views : (vs : List View) → length vs ≡ 0 → vs ≡ []
no_views [] h = refl
no_views (v ∷ vs) h = absurd (omega arith)

module _ {E : Extents} where
  matras_free_read_view_extent-Freed :
      (m : Matras E) (x : ℕ) → Freed m (matras_free_read_view_extent m x)
  unfolding matras_free_read_view_extent matras_free_extent
  matras_free_read_view_extent-Freed m x = record {
    head_kept = refl;
    mask1_kept = refl;
    views_kept = refl;
  }

  -- An extent is freed unless it is kept.
  free_unless-Freed :
      (m m1 : Matras E) (kept : Bool) → Freed m m1 → Freed m (if kept then m else m1)
  free_unless-Freed m m1 true f = Freed-refl m
  free_unless-Freed m m1 false f = f

  free_view_row-Freed :
      (slots : ℕ) (v next : View) (prev : Option View) (i1 i2 j1 j2 : ℕ) (m : Matras E)
      → Freed m (free_view_row slots v next prev i1 i2 j1 j2 m)
  unfolding free_view_row
  free_view_row-Freed zero v next prev i1 i2 j1 j2 m = Freed-refl m
  free_view_row-Freed (suc slots) v next prev i1 i2 j1 j2 m =
      let id = add32 j1 j2 in
      let extent3 = m.cells (m.cells v.root i1) i2 in
      let kept =
        shares next id extent3 (m.cells (m.cells next.root i1) i2)
        || shares_prev prev id extent3 (λ p. m.cells (m.cells p.root i1) i2) in
      let m' : Matras E = if kept then m else matras_free_read_view_extent m extent3 in
      elim (Bool-cases (ltb id v.block_count)) [
        | inl more ↦ rw more (
            Freed-trans m m'
              (free_view_row slots v next prev i1 (i2 + 1) j1 (add32 j2 (add32 m.mask2 1)) m')
              (free_unless-Freed m (matras_free_read_view_extent m extent3) kept
                (matras_free_read_view_extent-Freed m extent3))
              (free_view_row-Freed slots v next prev i1 (i2 + 1) j1 (add32 j2 (add32 m.mask2 1))
                m'))
        | inr done ↦ rw done (Freed-refl m)
      ]

  free_view_rows-Ended :
      (fuel : ℕ) (v next : View) (prev : Option View) (i1 j1 : ℕ) (m : Matras E)
      → Counts m.mask1 v.block_count
      → v.block_count - j1 < fuel
      → Ended m (free_view_rows fuel v next prev i1 j1 m)
  unfolding free_view_rows
  free_view_rows-Ended zero v next prev i1 j1 m small enough = absurd (omega arith)
  free_view_rows-Ended (suc fuel) v next prev i1 j1 m small enough =
      let extent2 = m.cells v.root i1 in
      let kept =
        shares next j1 extent2 (m.cells next.root i1)
        || shares_prev prev j1 extent2 (λ p. m.cells p.root i1) in
      let row : Matras E = free_view_row (m.extent_size / pointer_size) v next prev i1 0 j1 0 m in
      let m' : Matras E = if kept then m else matras_free_read_view_extent row extent2 in
      let f : Freed m m' = free_unless-Freed m (matras_free_read_view_extent row extent2) kept (
        Freed-trans m row (matras_free_read_view_extent row extent2)
          (free_view_row-Freed (m.extent_size / pointer_size) v next prev i1 0 j1 0 m)
          (matras_free_read_view_extent-Freed row extent2)) in
      elim (Bool-cases (ltb j1 v.block_count)) [
        | inl more ↦
            (let next_j = counter_next m.mask1 v.block_count j1 fuel small (ground arith) enough in
              let mask_kept = f.mask1_kept in
              rw (more, next_j.0)
                (Ended-trans m m' f (
                  free_view_rows-Ended fuel v next prev (i1 + 1) (j1 + (m.mask1 + 1)) m'
                    (omega (arith, small)) next_j.1)))
        | inr done ↦ rw done (ended (Freed-refl m))
      ]

  free_view_root-Ended :
      (m : Matras E) (v : View) {r : Option (Matras E)} → Ended m r → Ended m (free_view_root v r)
  free_view_root-Ended m v (ended {m' = m'} f) = ended (
      Freed-trans m m' (matras_free_read_view_extent m' v.root) f
        (matras_free_read_view_extent-Freed m' v.root))

  free_view-Ended :
      (v next : View) (prev : Option View) (m : Matras E)
      → Counts m.mask1 v.block_count
      → Ended m (free_view v next prev m)
  free_view-Ended v next prev m small =
      elim (Bool-cases ((v.block_count == 0) || (same_root v next || same_root_prev v prev))) [
        | inl kept ↦ rw kept (ended (Freed-refl m))
        | inr alone ↦ rw alone (
            free_view_root-Ended m v
              (free_view_rows-Ended (v.block_count + 1) v next prev 0 0 m small (omega arith)))
      ]

  destroy_at-Ended :
      (next : View) (i : ℕ) (views : List View) (m : Matras E)
      → AllCount m.mask1 views
      → Ended m (destroy_at next i views m)
  destroy_at-Ended next i [] m small = ended (Freed-refl m)
  destroy_at-Ended next zero (v ∷ older) m small =
      free_view-Ended v next (get_elem? older 0) m small.0
  destroy_at-Ended next (suc i) (v ∷ older) m small = destroy_at-Ended v i older m small.1

  -- A view is destroyed within the rounds that its blocks need.
  pub matras_destroy_read_view-Ended :
      (m : Matras E) (i : ℕ)
      → AllCount m.mask1 m.views
      → Ended (record m { views = remove i m.views }) (matras_destroy_read_view m i)
  unfolding matras_destroy_read_view
  matras_destroy_read_view-Ended m i small =
      destroy_at-Ended m.head i m.views (record m { views = remove i m.views }) small

  -- All the views are destroyed.
  destroy_views-Ended :
      (n : ℕ) (m : Matras E)
      → length m.views ≡ n
      → AllCount m.mask1 m.views
      → {r : Option (Matras E)} → Ended m r
      → Ended (record m { views = [] }) (destroy_views n r)
  unfolding destroy_views
  destroy_views-Ended zero m e small (ended {m' = m'} f) = ended (record {
    head_kept = f.head_kept;
    mask1_kept = f.mask1_kept;
    views_kept = f.views_kept ∙ no_views m.views e;
  })
  destroy_views-Ended (suc n) m e small (ended {m' = m'} f) =
      let same = sym f.views_kept in
      let small' : AllCount m'.mask1 m'.views =
        subst (λ (k : ℕ). AllCount k m'.views) (sym f.mask1_kept)
          (subst (λ (vs : List View). AllCount m.mask1 vs) same small) in
      Ended-trans (record m { views = [] }) (record m' { views = [] })
        (record { head_kept = f.head_kept; mask1_kept = f.mask1_kept; views_kept = refl })
        (destroy_views-Ended n (record m' { views = remove 0 m'.views })
          (length-tail m'.views n (ap length f.views_kept ∙ e))
          (AllCount-tail m'.mask1 m'.views small') (matras_destroy_read_view-Ended m' 0 small'))

  free_root-Ended : (m : Matras E) {r : Option (Matras E)} → Ended m r → Ended m (free_root r)
  free_root-Ended m (ended {m' = m'} f) = ended (
      Freed-trans m m' (matras_free_extent m' m'.head.root) f
        (matras_free_extent-Freed m' m'.head.root))

  destroy_head-Ended :
      (m : Matras E)
      → Counts m.mask1 m.head.block_count
      → {r : Option (Matras E)} → Ended m r
      → Ended m (destroy_head r)
  destroy_head-Ended m small (ended {m' = m'} f) =
      let count_kept = ap (λ (v : View). v.block_count) f.head_kept in
      let mask_kept = f.mask1_kept in
      elim (Bool-cases (m'.head.block_count == 0)) [
        | inl empty ↦ rw empty (ended f)
        | inr used ↦ rw used (
            Ended-trans m m' f (
              free_root-Ended m' (
                free_rows-Ended (m'.head.block_count + 1) 0 0 m' (omega (arith, small))
                  (omega arith))))
      ]

  -- If the blocks of the head and of each view, with those of one extent of the second level, come
  -- to at most 2^32: matras_destroy returns, its loops ending within a round for each block and
  -- one more, and it leaves a table without views.
  pub matras_destroy-Ended :
      (m : Matras E)
      → Counts m.mask1 m.head.block_count
      → AllCount m.mask1 m.views
      → Ended (record m { views = [] }) (matras_destroy m)
  unfolding matras_destroy
  matras_destroy-Ended m small views_small =
      destroy_head-Ended (record m { views = [] }) small
        (destroy_views-Ended (length m.views) m refl views_small (ended (Freed-refl m)))
