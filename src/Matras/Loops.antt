-- ===== src/Matras/Loops.antt =====
-- When the loops over the extents of a root end: their counters are 32 bits wide.
use mathlib.Core.Path.{subst}
use native.Mathlib.Nat.{mul-le-mul_right}
use small.Base.{
  none, ◌*◌, sym, true, ◌==◌, ℕ, zero, suc, ◌+◌, ◌-◌, ◌/◌, ◌^◌, ◌≤◌, ◌<◌, ◌≡◌, refl, ap, ◌∙◌, inl,
  inr, Option, some, arith, ltb, Bool-cases,
}
use small.Base.Words.{add32}
use small.Matras.{Extents, View, Matras, pointer_size, matras_free_extent}
use small.Matras.Views.{free_row, free_rows}

-- What freeing keeps of a matras.
pub record Freed {E : Extents} (m m' : Matras E) : Type 0 where
  pub head_kept : m'.head ≡ m.head
  pub mask1_kept : m'.mask1 ≡ m.mask1
  pub views_kept : m'.views ≡ m.views

-- A loop has ended, in a matras like the one that it started from.
pub data Ended {E : Extents} (m : Matras E) : Option (Matras E) → Type 0 where
  ended : {m' : Matras E} → Freed m m' → Ended m (some m')

-- The counter of a loop over `count` blocks does not wrap.
abbrev pub Counts : (mask1 count : ℕ) → Type 0
Counts mask1 count = count + (mask1 + 1) ≤ 2 ^ 32

-- The counter goes on.
pub counter_next :
    (mask1 count j1 fuel : ℕ)
    → Counts mask1 count
    → j1 < count
    → count - j1 < suc fuel
    → (add32 j1 (add32 mask1 1) ≡ j1 + (mask1 + 1)) × (count - (j1 + (mask1 + 1)) < fuel)
counter_next mask1 count j1 fuel small more enough = (omega arith, omega arith)

module _ {E : Extents} where
  pub Freed-refl : (m : Matras E) → Freed m m
  Freed-refl m = record { head_kept = refl; mask1_kept = refl; views_kept = refl }

  pub Freed-trans : (m1 m2 m3 : Matras E) → Freed m1 m2 → Freed m2 m3 → Freed m1 m3
  Freed-trans m1 m2 m3 f g = record {
    head_kept = g.head_kept ∙ f.head_kept;
    mask1_kept = g.mask1_kept ∙ f.mask1_kept;
    views_kept = g.views_kept ∙ f.views_kept;
  }

  pub matras_free_extent-Freed : (m : Matras E) (x : ℕ) → Freed m (matras_free_extent m x)
  unfolding matras_free_extent
  matras_free_extent-Freed m x = record { head_kept = refl; mask1_kept = refl; views_kept = refl }

  free_row-Freed :
      (slots i2 j1 j2 extent2 : ℕ) (m : Matras E) → Freed m (free_row slots i2 j1 j2 extent2 m)
  unfolding free_row
  free_row-Freed zero i2 j1 j2 extent2 m = Freed-refl m
  free_row-Freed (suc slots) i2 j1 j2 extent2 m =
      elim (Bool-cases (ltb (add32 j1 j2) m.head.block_count)) [
        | inl more ↦ rw more (
            Freed-trans m (matras_free_extent m (m.cells extent2 i2))
              (free_row slots (i2 + 1) j1 (add32 j2 (add32 m.mask2 1)) extent2
                (matras_free_extent m (m.cells extent2 i2)))
              (matras_free_extent-Freed m (m.cells extent2 i2))
              (free_row-Freed slots (i2 + 1) j1 (add32 j2 (add32 m.mask2 1)) extent2
                (matras_free_extent m (m.cells extent2 i2))))
        | inr done ↦ rw done (Freed-refl m)
      ]

  -- The matras after one round of the outer loop.
  abbrev round : Matras E → (i1 j1 : ℕ) → Matras E
  round m i1 j1 =
      let extent2 = m.cells m.head.root i1 in
      matras_free_extent (free_row (m.extent_size / pointer_size) 0 j1 0 extent2 m) extent2

  round-Freed : (m : Matras E) (i1 j1 : ℕ) → Freed m (round m i1 j1)
  round-Freed m i1 j1 =
      let extent2 = m.cells m.head.root i1 in
      let row : Matras E = free_row (m.extent_size / pointer_size) 0 j1 0 extent2 m in
      Freed-trans m row (matras_free_extent row extent2)
        (free_row-Freed (m.extent_size / pointer_size) 0 j1 0 extent2 m)
        (matras_free_extent-Freed row extent2)

  pub Ended-trans : (m m1 : Matras E) {r : Option (Matras E)} → Freed m m1 → Ended m1 r → Ended m r
  Ended-trans m m1 f (ended {m' = m2} g) = ended (Freed-trans m m1 m2 f g)

  -- The loop over the extents of the head ends.
  pub free_rows-Ended :
      (fuel i1 j1 : ℕ) (m : Matras E)
      → Counts m.mask1 m.head.block_count
      → m.head.block_count - j1 < fuel
      → Ended m (free_rows fuel i1 j1 m)
  unfolding free_rows
  free_rows-Ended zero i1 j1 m small enough = absurd (omega arith)
  free_rows-Ended (suc fuel) i1 j1 m small enough = elim (Bool-cases (ltb j1 m.head.block_count)) [
    | inl more ↦
        (let f = round-Freed m i1 j1 in
          let next = counter_next m.mask1 m.head.block_count j1 fuel small (ground arith) enough in
          let count_kept = ap (λ (v : View). v.block_count) f.head_kept in
          let mask_kept = f.mask1_kept in
          rw (more, next.0)
            (Ended-trans m (round m i1 j1) f (
              free_rows-Ended fuel (i1 + 1) (j1 + (m.mask1 + 1)) (round m i1 j1)
                (omega (arith, small)) (omega (arith, next.1)))))
    | inr done ↦ rw done (ended (Freed-refl m))
  ]

  -- If 2^32 is q times the blocks of an extent of the second level, and the blocks of the head
  -- with those of one such extent come to more than 2^32: from any round that starts at one of the
  -- q multiples of these below 2^32, the loop of matras_destroy does not end, whatever its fuel.
  pub free_rows-endless :
      (fuel i1 k q : ℕ) (m : Matras E)
      → 2 ^ 32 ≡ q * (m.mask1 + 1)
      → 2 ^ 32 < m.head.block_count + (m.mask1 + 1)
      → k < q
      → free_rows fuel i1 (k * (m.mask1 + 1)) m ≡ none
  unfolding free_rows
  free_rows-endless zero i1 k q m whole large less = refl
  free_rows-endless (suc fuel) i1 k q m whole large less =
      let step = m.mask1 + 1 in
      let here = mul-le-mul_right step (let l : suc k ≤ q = omega arith in l) in
      let next : suc k * step ≡ k * step + step = omega arith in
      let more : ltb (k * step) m.head.block_count ≡ true = ground arith in
      let f = round-Freed m i1 (k * step) in
      let count_kept = ap (λ (v : View). v.block_count) f.head_kept in
      let mask_kept = f.mask1_kept in
      let m' : Matras E = round m i1 (k * step) in
      let again : (k' : ℕ)
          → k' < q
          → add32 (k * step) (add32 m.mask1 1) ≡ k' * step
          → free_rows fuel (i1 + 1) (add32 (k * step) (add32 m.mask1 1)) m' ≡ none =
        λ k' less' e. rw e (
          subst (λ (n : ℕ). free_rows fuel (i1 + 1) (k' * (n + 1)) m' ≡ none) mask_kept
            (free_rows-endless fuel (i1 + 1) k' q m'
              (subst (λ (n : ℕ). 2 ^ 32 ≡ q * (n + 1)) (sym mask_kept) whole) (omega (arith, large))
              less')) in
      elim (Bool-cases (suc k == q)) [
        | inl last ↦
            (let at : suc k ≡ q = ground arith in
              let top = ap (λ (n : ℕ). n * step) at in
              rw more (again 0 (omega arith) (omega arith)))
        | inr middle ↦
            (let left : suc (suc k) ≤ q = ground arith in
              let after = mul-le-mul_right step left in
              let next' : suc (suc k) * step ≡ suc k * step + step = omega arith in
              rw more (again (suc k) left (omega arith)))
      ]
