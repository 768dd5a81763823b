-- ===== src/Matras/Levels.antt =====
-- The first two levels of an allocation.
use native.Mathlib.Nat.{mod-eq_of_lt}
use mathlib.Core.Path.{ap}
use small.Base.{
  ◌^◌, if◌then◌else◌, refl, ℕ, ◌<◌, bit_and, ◌≡◌, sym, ◌∙◌, inl, inr, Option, some, arith, ◌==◌,
  Bool-cases,
}
use small.Base.Update.{update_self, update_other, update}
use small.Base.Words.{to_u32, add32}
use small.Matras.{
  set_root, matras_alloc_internal, finish_level1, finish_level2, get_level, write, set_slot,
  Extents, Allocator, Matras, part1, part2, matras_alloc_extent,
}
use small.Matras.Shape.{before_mid}
use small.Matras.Stock.{top, Place, mid, Keeper}
use small.Matras.Kept.{fresh-Kept, Kept-refl, write-Kept, write_self, write_self, Kept-trans}
use small.Matras.Building.{
  built, Extended, unextended, extended, Context, Internal, internal_refused, IsValid,
  matras_alloc_extent-Extended, free_top,
}
use small.Matras.Bottom.{last_mid, last_top, finish_level3-Internal}

module _ {E : Extents} (K : Keeper E) (m : Matras E) (place : ℕ → Place)
    (v : IsValid K m place) where
  finish_level2_new :
      (a : Allocator E) (cells : ℕ → ℕ → ℕ) (root n k : ℕ) (place' : ℕ → Place)
      → Context K m place a cells root place'
      → place' root ≡ top
      → bit_and m.head.block_count m.mask1 ≡ 0
      → {r : Option ℕ × Matras E} → Extended K (built m a cells root n k) place' r
      → Internal K m place (
          finish_level2 m.head.block_count
            (bit_and m.head.block_count m.mask1)
            (bit_and (bit_and m.head.block_count m.mask1) m.mask2)
            (part2 m m.head.block_count)
            root
            (set_slot root (part1 m m.head.block_count) r))
  finish_level2_new a cells root n k place' c is_top first (unextended {a = a'} {s = s} fails w) =
      free_top K m place v a' cells root n k place' s fails
        (record { stocked = w; kept = c.kept; same = c.same }) is_top
  finish_level2_new a cells root n k place' c is_top first (extended {a = a'} {e = e} fresh w) =
      let id = m.head.block_count in
      let n1 = part1 m id in
      let cells' = write cells root n1 e in
      let p = mid n1 in
      finish_level3-Internal K m place v a' cells' root (add32 n 1) (add32 k 1) e
        (update place' e p)
        (record {
          stocked = w p;
          kept = Kept-trans m id m.cells cells cells' place place' (update place' e p) c.kept (
              write-Kept m id cells place' root n1 e p fresh
                (λ root' i less at q same. before_mid m v.shaped i id first less (sym same))
                (λ root' i less at q. absurd (ground (arith, sym is_top ∙ ap place' q ∙ at.1)))
                (λ k1 k2 q. absurd (ground (arith, sym is_top ∙ q))));
          same = c.same;
        })
        (update_other place' e root p
            (λ q. absurd (ground (arith, sym fresh ∙ ap place' q ∙ is_top)))
          ∙ is_top)
        (update_self place' e p) (write_self cells root n1 e)

  finish_level2-Internal :
      (a : Allocator E) (cells : ℕ → ℕ → ℕ) (root n k : ℕ) (place' : ℕ → Place)
      → Context K m place a cells root place'
      → place' root ≡ top
      → Internal K m place (
          finish_level2 m.head.block_count
            (bit_and m.head.block_count m.mask1)
            (bit_and (bit_and m.head.block_count m.mask1) m.mask2)
            (part2 m m.head.block_count)
            root
            (get_level
              (built m a cells root n k)
              root
              (part1 m m.head.block_count)
              (bit_and m.head.block_count m.mask1)))
  finish_level2-Internal a cells root n k place' c is_top =
      let id = m.head.block_count in
      elim (Bool-cases (bit_and id m.mask1 == 0)) [
        | inl first ↦
            (let zero_low : bit_and id m.mask1 ≡ 0 = ground arith in
              rw first (
                finish_level2_new a cells root n k place' c is_top zero_low
                  (matras_alloc_extent-Extended K (built m a cells root n k) place' c.stocked)))
        | inr later ↦ rw later (
            finish_level3-Internal K m place v a cells root n k (cells root (part1 m id)) place' c
              is_top
              (last_mid K m place v a cells root place' c id refl (λ q. absurd (ground arith)))
              refl)
      ]

  finish_level1_new :
      m.head.block_count ≡ 0
      → {r : Option ℕ × Matras E} → Extended K m place r
      → Internal K m place (
          finish_level1 m.head.block_count
            (bit_and m.head.block_count m.mask1)
            (bit_and (bit_and m.head.block_count m.mask1) m.mask2)
            (part1 m m.head.block_count)
            (part2 m m.head.block_count)
            (set_root r))
  finish_level1_new first (unextended fails w) = internal_refused place fails (record {
    stocked = w;
    kept = Kept-refl m m.head.block_count m.cells place;
    same = λ h. refl;
  })
  finish_level1_new first (extended {a = a} {e = e} fresh w) =
      finish_level2-Internal a m.cells e (add32 m.extent_count 1) (add32 m.stats_extent_count 1)
        (update place e top)
        (record {
          stocked = w top;
          kept = fresh-Kept m m.head.block_count m.cells place e top fresh;
          same = λ h. absurd (h first);
        })
        (update_self place e top)

  finish_level1-Internal : Internal K m place (
      finish_level1 m.head.block_count
        (bit_and m.head.block_count m.mask1)
        (bit_and (bit_and m.head.block_count m.mask1) m.mask2)
        (part1 m m.head.block_count)
        (part2 m m.head.block_count)
        (if m.head.block_count == 0
          then set_root (matras_alloc_extent m)
          else (some m.head.root, m)))
  finish_level1-Internal = elim (Bool-cases (m.head.block_count == 0)) [
    | inl first ↦
        rw first
          (finish_level1_new (ground arith) (matras_alloc_extent-Extended K m place v.stocked))
    | inr later ↦ rw later (
        finish_level2-Internal m.allocator m.cells m.head.root m.extent_count m.stats_extent_count
          place
          (record {
            stocked = v.stocked;
            kept = Kept-refl m m.head.block_count m.cells place;
            same = λ h. refl;
          })
          (last_top K m place v m.head.block_count refl (λ q. absurd (ground arith))))
  ]

  pub matras_alloc_internal-Internal :
      m.head.block_count < 2 ^ 32 → Internal K m place (matras_alloc_internal m)
  unfolding matras_alloc_internal
  matras_alloc_internal-Internal less =
      let e : to_u32 m.head.block_count ≡ m.head.block_count = mod-eq_of_lt less in
      rw e finish_level1-Internal
