-- ===== src/Matras/Bottom.antt =====
-- The third level of an allocation, and the extents of the block before the new one.
use mathlib.Core.Path.{ap, subst}
use small.Base.{
  refl, zero, suc, ℕ, bit_and, ◌≡◌, sym, ◌∙◌, ◌≢◌, inl, inr, Option, arith, ◌==◌, Bool-cases,
}
use small.Base.Update.{update_self, update_other, update}
use small.Base.Bits.{zero-bit_and}
use small.Matras.{
  get_level, write, set_slot, finish_level3, Extents, Allocator, Matras, part1, part2,
}
use small.Matras.Shape.{before_leaf, same_leaf, same_mid}
use small.Matras.Stock.{leaf, top, Place, mid, Keeper}
use small.Matras.Lookup.{IsAt}
use small.Matras.Kept.{write-Kept, write_self, write_other, write_self, write_other, Kept-trans}
use small.Matras.Building.{
  built, Extended, unextended, extended, Context, Internal, internal_got, IsValid,
  matras_alloc_extent-Extended, free_both,
}

module _ {E : Extents} (K : Keeper E) (m : Matras E) (place : ℕ → Place)
    (v : IsValid K m place) where
  -- The block before the new one, whose extents are there.
  last_at :
      (a : Allocator E) (cells : ℕ → ℕ → ℕ) (root : ℕ) (place' : ℕ → Place)
      → Context K m place a cells root place'
      → (id : ℕ) → suc id ≡ m.head.block_count
      → IsAt m cells place' root id
  last_at a cells root place' c id e = c.kept.kept_place root id (omega arith) (
      subst (λ (r : ℕ). IsAt m m.cells place r id) (sym (c.same (λ q. absurd (omega arith))))
        (v.blocks id (omega arith)))

  finish_level3_new :
      (a : Allocator E) (cells : ℕ → ℕ → ℕ) (root n k extent2 : ℕ) (place' : ℕ → Place)
      → Context K m place a cells root place'
      → place' root ≡ top
      → place' extent2 ≡ mid (part1 m m.head.block_count)
      → cells root (part1 m m.head.block_count) ≡ extent2
      → bit_and (bit_and m.head.block_count m.mask1) m.mask2 ≡ 0
      → {r : Option ℕ × Matras E} → Extended K (built m a cells root n k) place' r
      → Internal K m place (
          finish_level3 m.head.block_count
            (bit_and m.head.block_count m.mask1)
            root
            extent2
            (bit_and (bit_and m.head.block_count m.mask1) m.mask2)
            (set_slot extent2 (part2 m m.head.block_count) r))
  finish_level3_new a cells root n k extent2 place' c is_top is_mid at2 first
        (unextended {a = a'} {s = s} fails w) =
      free_both K m place v a' cells root n k extent2 place' s fails
        (record { stocked = w; kept = c.kept; same = c.same }) is_top is_mid
  finish_level3_new a cells root n k extent2 place' c is_top is_mid at2 first
        (extended {a = a'} {e = e} fresh w) =
      let id = m.head.block_count in
      let n1 = part1 m id in
      let n2 = part2 m id in
      let cells' = write cells extent2 n2 e in
      let p = leaf n1 n2 in
      let root_kept : cells' root n1 ≡ extent2 =
        write_other cells extent2 n2 e root n1
          (λ q. absurd (ground (arith, sym is_mid ∙ ap place' q ∙ is_top)))
        ∙ at2 in
      let slot_set : cells' (cells' root n1) n2 ≡ e =
        ap (λ (t : ℕ). cells' t n2) root_kept ∙ write_self cells extent2 n2 e in
      internal_got (update place' e p)
        (record {
          stocked = w p;
          kept = Kept-trans m id m.cells cells cells' place place' (update place' e p) c.kept (
              write-Kept m id cells place' extent2 n2 e p fresh
                (λ root' i less at q. absurd (ground (arith, sym is_mid ∙ ap place' q ∙ at.0)))
                (λ root' i less at q same.
                  let in1 = sym at.1 ∙ sym (ap place' q) ∙ is_mid in
                  before_leaf m v.shaped i id first less (ground (arith, in1)) (sym same))
                (λ k1 k2 q. absurd (ground (arith, sym is_mid ∙ q))));
          same = c.same;
        })
        (
          update_other place' e root p
                (λ q. absurd (ground (arith, sym fresh ∙ ap place' q ∙ is_top)))
              ∙ is_top,
          ap (update place' e p) root_kept
              ∙ update_other place' e extent2 p
                  (λ q. absurd (ground (arith, sym fresh ∙ ap place' q ∙ is_mid)))
              ∙ is_mid,
          ap (update place' e p) slot_set ∙ update_self place' e p,
        )
        slot_set

  -- The third level of the block before the new one, where the new one goes to it too.
  last_leaf :
      (a : Allocator E) (cells : ℕ → ℕ → ℕ) (root : ℕ) (place' : ℕ → Place)
      → Context K m place a cells root place'
      → (id : ℕ) → id ≡ m.head.block_count
      → bit_and (bit_and id m.mask1) m.mask2 ≢ 0
      → place' (cells (cells root (part1 m id)) (part2 m id)) ≡ leaf (part1 m id) (part2 m id)
  last_leaf a cells root place' c zero e h =
      absurd (h (ap (λ (t : ℕ). bit_and t m.mask2) (zero-bit_and m.mask1) ∙ zero-bit_and m.mask2))
  last_leaf a cells root place' c (suc j) e h =
      let same = same_leaf m v.shaped j h in
      subst
        (λ (k1 : ℕ). place' (cells (cells root k1) (part2 m (suc j))) ≡ leaf k1 (part2 m (suc j)))
        same.0
        (subst (λ (k2 : ℕ). place' (cells (cells root (part1 m j)) k2) ≡ leaf (part1 m j) k2) same.1
          (last_at a cells root place' c j e).2)

  pub last_mid :
      (a : Allocator E) (cells : ℕ → ℕ → ℕ) (root : ℕ) (place' : ℕ → Place)
      → Context K m place a cells root place'
      → (id : ℕ) → id ≡ m.head.block_count
      → bit_and id m.mask1 ≢ 0
      → place' (cells root (part1 m id)) ≡ mid (part1 m id)
  last_mid a cells root place' c zero e h = absurd (h (zero-bit_and m.mask1))
  last_mid a cells root place' c (suc j) e h =
      subst (λ (k1 : ℕ). place' (cells root k1) ≡ mid k1) (same_mid m v.shaped j h)
        (last_at a cells root place' c j e).1

  pub last_top : (id : ℕ) → id ≡ m.head.block_count → id ≢ 0 → place m.head.root ≡ top
  last_top zero e h = absurd (h refl)
  last_top (suc j) e h = (v.blocks j (omega arith)).0

  pub finish_level3-Internal :
      (a : Allocator E) (cells : ℕ → ℕ → ℕ) (root n k extent2 : ℕ) (place' : ℕ → Place)
      → Context K m place a cells root place'
      → place' root ≡ top
      → place' extent2 ≡ mid (part1 m m.head.block_count)
      → cells root (part1 m m.head.block_count) ≡ extent2
      → Internal K m place (
          finish_level3 m.head.block_count
            (bit_and m.head.block_count m.mask1)
            root
            extent2
            (bit_and (bit_and m.head.block_count m.mask1) m.mask2)
            (get_level
              (built m a cells root n k)
              extent2
              (part2 m m.head.block_count)
              (bit_and (bit_and m.head.block_count m.mask1) m.mask2)))
  finish_level3-Internal a cells root n k extent2 place' c is_top is_mid at2 =
      let id = m.head.block_count in
      let n2 = part2 m id in
      elim (Bool-cases (bit_and (bit_and id m.mask1) m.mask2 == 0)) [
        | inl first ↦ rw first (
            finish_level3_new a cells root n k extent2 place' c is_top is_mid at2 (ground arith)
              (matras_alloc_extent-Extended K (built m a cells root n k) place' c.stocked))
        | inr later ↦
            (let is_leaf = last_leaf a cells root place' c id refl (λ q. absurd (ground arith)) in
              rw later (
                internal_got place' c (is_top, ap place' at2 ∙ is_mid, is_leaf)
                  (ap (λ (t : ℕ). cells t n2) at2)))
      ]
