-- ===== src/Matras/Lookup.antt =====
-- The blocks of a view, which are found through the extents of its root.
use mathlib.Core.Path.{subst}
use native.Mathlib.Nat.{
  mod-lt, mod-eq_of_lt, div-add-mod', div-lt_iff_lt-mul, mul-add-div_right, div-eq_of_lt,
  mul-add-mod_self_right, mul-div_cancel, mul-lt-mul_of_pos_right,
}
use small.Base.Bits.{two_pow_add, pow_pos}
use small.Base.{◌+◌, ◌-◌, ◌*◌, ◌/◌, ◌%◌, ◌^◌, ◌≤◌, ◌<◌, arith, ◌≢◌, ℕ, ◌≡◌, sym, ap, ◌∙◌}
use small.Base.Update.{update, update_other}
use small.Matras.{Extents, View, Matras, part1, part2, matras_view_get_no_check}
use small.Matras.Shape.{low1, IsShaped, parts-injective}
use small.Matras.Stock.{Place, spare, top, mid, leaf}

module _ {E : Extents} (m : Matras E) where
  -- The extents on the way to a block stand where its number says, `cells` being the memory.
  abbrev pub IsAt : (cells : ℕ → ℕ → ℕ) → (ℕ → Place) → (root i : ℕ) → Type 0
  IsAt cells place root i =
      (place root ≡ top)
      × (place (cells root (part1 m i)) ≡ mid (part1 m i))
      × (place (cells (cells root (part1 m i)) (part2 m i)) ≡ leaf (part1 m i) (part2 m i))

abbrev mid1 : Place → ℕ
mid1 (mid n1) = n1
mid1 (leaf n1 n2) = n1
mid1 spare = 0
mid1 top = 0

abbrev leaf2 : Place → ℕ
leaf2 (leaf n1 n2) = n2
leaf2 (mid n1) = 0
leaf2 spare = 0
leaf2 top = 0

module _ {E : Extents} (m : Matras E) where
  -- The number of the first block of the extent that is in slot `n2` of the one in slot `n1`.
  abbrev pub first_block : (n1 n2 : ℕ) → ℕ
  first_block n1 n2 = n1 * 2 ^ m.shift1 + n2 * 2 ^ m.shift2

  -- No extent of the third level is in two of the slots that the blocks of a view use. A slot of the
  -- second level is below `2 ^ (shift1 - shift2)`.
  pub record IsUnshared (v : View) : Type 0 where
    pub unshared :
        (n1 n2 k1 k2 : ℕ)
        → n2 < 2 ^ (m.shift1 - m.shift2)
        → k2 < 2 ^ (m.shift1 - m.shift2)
        → first_block n1 n2 < v.block_count
        → first_block k1 k2 < v.block_count
        → m.cells (m.cells v.root n1) n2 ≡ m.cells (m.cells v.root k1) k2
        → (n1 ≡ k1) × (n2 ≡ k2)

  module _ (shape : IsShaped m) where
    row_size : 2 ^ (m.shift1 - m.shift2) * 2 ^ m.shift2 ≡ 2 ^ m.shift1
    row_size =
        let order = shape.order in
        let split : m.shift1 - m.shift2 + m.shift2 ≡ m.shift1 = omega arith in
        sym (two_pow_add (m.shift1 - m.shift2) m.shift2) ∙ ap (λ (k : ℕ). 2 ^ k) split

    part2_is : (id : ℕ) → part2 m id ≡ id % 2 ^ m.shift1 / 2 ^ m.shift2
    part2_is id = ap (λ (t : ℕ). t / 2 ^ m.shift2) (low1 m shape id)

    -- The slot of a block on the second level is one of an extent.
    part2_bound : (id : ℕ) → part2 m id < 2 ^ (m.shift1 - m.shift2)
    part2_bound id =
        subst (λ (t : ℕ). t < 2 ^ (m.shift1 - m.shift2)) (sym (part2_is id))
          ((div-lt_iff_lt-mul (pow_pos m.shift2)).1 (
            subst (λ (t : ℕ). id % 2 ^ m.shift1 < t) (sym row_size) (mod-lt id (pow_pos m.shift1))))

    -- The first block of its extent is not after a block.
    first_block_le : (id : ℕ) → first_block (part1 m id) (part2 m id) ≤ id
    first_block_le id =
        let whole = div-add-mod' id (2 ^ m.shift1) in
        let low = div-add-mod' (id % 2 ^ m.shift1) (2 ^ m.shift2) in
        let at = ap (λ (t : ℕ). t * 2 ^ m.shift2) (part2_is id) in omega arith

    module _ (n1 n2 : ℕ) (slot : n2 < 2 ^ (m.shift1 - m.shift2)) where
      in_row : n2 * 2 ^ m.shift2 < 2 ^ m.shift1
      in_row =
          subst (λ (t : ℕ). n2 * 2 ^ m.shift2 < t) row_size
            (mul-lt-mul_of_pos_right slot (pow_pos m.shift2))

      part1-first_block : part1 m (first_block n1 n2) ≡ n1
      part1-first_block =
          mul-add-div_right (pow_pos m.shift1) n1 (n2 * 2 ^ m.shift2)
          ∙ omega (arith, div-eq_of_lt in_row)

      part2-first_block : part2 m (first_block n1 n2) ≡ n2
      part2-first_block =
          part2_is (first_block n1 n2)
          ∙ ap (λ (t : ℕ). t / 2 ^ m.shift2)
              (mul-add-mod_self_right n1 (2 ^ m.shift1) (n2 * 2 ^ m.shift2) ∙ mod-eq_of_lt in_row)
          ∙ mul-div_cancel n2 (pow_pos m.shift2)

    -- Where the blocks stand at the places of their numbers, no extent is shared.
    placed-IsUnshared :
        (place : ℕ → Place) (v : View)
        → ((i : ℕ) → i < v.block_count → IsAt m m.cells place v.root i)
        → IsUnshared v
    placed-IsUnshared place v placed = record {
      unshared = λ n1 n2 k1 k2 slot slot' less less' e.
          let at_n = (placed (first_block n1 n2) less).2 in
          let at_k = (placed (first_block k1 k2) less').2 in
          let n_is = rw (part1-first_block n1 n2 slot, part2-first_block n1 n2 slot) at at_n in
          let k_is = rw (part1-first_block k1 k2 slot', part2-first_block k1 k2 slot') at at_k in
          let same = sym n_is ∙ ap place e ∙ k_is in (ap mid1 same, ap leaf2 same);
    }

    -- If the masks of the table are those of its shifts, and no extent of the third level is in
    -- two of the slots that the blocks of a view use, a slot of the second level being one of the
    -- 2^(shift1 - shift2) of an extent: then different blocks of the view have different pointers.
    pub matras_view_get-injective :
        (v : View) (i j : ℕ)
        → IsUnshared v
        → i < v.block_count
        → j < v.block_count
        → i ≢ j
        → matras_view_get_no_check m v i ≢ matras_view_get_no_check m v j
    unfolding matras_view_get_no_check
    matras_view_get-injective v i j free less_i less_j differ = λ e.
        let same =
          free.unshared (part1 m i) (part2 m i) (part1 m j) (part2 m j) (part2_bound i)
            (part2_bound j) (omega (arith, first_block_le i)) (omega (arith, first_block_le j))
            (ap (λ (t : ℕ × ℕ). t.0) e) in
        differ (parts-injective m shape i j same.0 same.1 (ap (λ (t : ℕ × ℕ). t.1) e))

-- The block stays where it is when an extent that is not on the way to it gets another place.
pub IsAt-placed :
    {E : Extents} (m : Matras E) (cells : ℕ → ℕ → ℕ) (place : ℕ → Place) (root i e : ℕ) (p : Place)
    → place e ≢ top
    → place e ≢ mid (part1 m i)
    → place e ≢ leaf (part1 m i) (part2 m i)
    → IsAt m cells place root i
    → IsAt m cells (update place e p) root i
IsAt-placed m cells place root i e p h1 h2 h3 at = (
  update_other place e root p (λ q. h1 (ap place q ∙ at.0)) ∙ at.0,
  update_other place e (cells root (part1 m i)) p (λ q. h2 (ap place q ∙ at.1)) ∙ at.1,
  update_other place e (cells (cells root (part1 m i)) (part2 m i)) p (λ q. h3 (ap place q ∙ at.2))
      ∙ at.2,
)

pub IsAt-fresh :
    {E : Extents} (m : Matras E) (cells : ℕ → ℕ → ℕ) (place : ℕ → Place) (root i e : ℕ) (p : Place)
    → place e ≡ spare
    → IsAt m cells place root i
    → IsAt m cells (update place e p) root i
IsAt-fresh m cells place root i e p h at =
    IsAt-placed m cells place root i e p (λ q. absurd (ground (arith, sym h ∙ q)))
      (λ q. absurd (ground (arith, sym h ∙ q))) (λ q. absurd (ground (arith, sym h ∙ q))) at
