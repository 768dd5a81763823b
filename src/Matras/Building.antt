-- ===== src/Matras/Building.antt =====
-- A matras while extents are added to it, and the extents that a failed allocation gives back.
use mathlib.Core.Path.{ap}
use small.Base.{
  true, ℕ, ◌<◌, bit_and, ◌≡◌, sym, ◌∙◌, ◌≢◌, inl, inr, Option, none, some, arith, ◌==◌, Bool-cases,
}
use small.Base.Update.{update_other, update}
use small.Base.Words.{sub32, add32}
use small.Matras.{
  matras_allocator_free, Extents, Allocator, Matras, Pointer, part1, part2, matras_alloc_extent,
  matras_free_extent, count_extent, free_created,
}
use small.Matras.Shape.{IsShaped, before_mid}
use small.Matras.Stock.{
  top, Place, spare, mid, Keeper, IsStocked, Taken, refused, taken, matras_allocator_alloc-Taken,
  IsStocked-freed,
}
use small.Matras.Lookup.{IsAt}
use small.Matras.Kept.{Kept, Kept-trans, freed-Kept}

-- A matras in which an allocation has changed the extents only.
abbrev pub built : {E : Extents} → Matras E → Allocator E → (ℕ → ℕ → ℕ) → (root n k : ℕ) → Matras E
built m a cells root n k = record m {
  allocator = a;
  cells = cells;
  head = record m.head { root = root };
  extent_count = n;
  stats_extent_count = k;
}

-- The outcomes of `matras_alloc_extent`.
pub data Extended {E : Extents} (K : Keeper E) (m : Matras E) (place : ℕ → Place)
    : Option ℕ × Matras E → Type 0 where
  unextended :
      {a : Allocator E} {s : E.State}
      → (E.alloc_func s).0 ≡ none
      → IsStocked K a place
      → Extended K m place (none, record m { allocator = a })
  extended :
      {a : Allocator E} {e : ℕ}
      → place e ≡ spare
      → ((p : Place) → IsStocked K a (update place e p))
      → Extended K m place (
        some e,
        record m {
          allocator = a;
          extent_count = add32 m.extent_count 1;
          stats_extent_count = add32 m.stats_extent_count 1;
        },
      )

-- What holds after each level, `place` and `m` being from the start.
pub record Context {E : Extents} (K : Keeper E) (m : Matras E) (place : ℕ → Place) (a : Allocator E)
    (cells : ℕ → ℕ → ℕ) (root : ℕ) (place' : ℕ → Place) : Type 0 where
  pub stocked : IsStocked K a place'
  pub kept : Kept m m.head.block_count m.cells cells place place'
  pub same : m.head.block_count ≢ 0 → root ≡ m.head.root

-- The outcomes of the common part of the allocations: NULL, where the user's function refuses; or a
-- block at its place.
pub data Internal {E : Extents} (K : Keeper E) (m : Matras E) (place : ℕ → Place)
    : Option Pointer × Matras E → Type 0 where
  internal_refused :
      {a : Allocator E} {cells : ℕ → ℕ → ℕ} {root n k : ℕ} {s : E.State} (place' : ℕ → Place)
      → (E.alloc_func s).0 ≡ none
      → Context K m place a cells root place'
      → Internal K m place (none, built m a cells root n k)
  internal_got :
      {a : Allocator E} {cells : ℕ → ℕ → ℕ} {root n k e : ℕ} (place' : ℕ → Place)
      → Context K m place a cells root place'
      → IsAt m cells place' root m.head.block_count
      → cells (cells root (part1 m m.head.block_count)) (part2 m m.head.block_count) ≡ e
      → Internal K m place
          (some (e, bit_and (bit_and m.head.block_count m.mask1) m.mask2), built m a cells root n k)

-- A matras whose blocks all stand at their places.
pub record IsValid {E : Extents} (K : Keeper E) (m : Matras E) (place : ℕ → Place) : Type 0 where
  pub shaped : IsShaped m
  pub stocked : IsStocked K m.allocator place
  pub blocks : (i : ℕ) → i < m.head.block_count → IsAt m m.cells place m.head.root i

pub matras_alloc_extent-Extended :
    {E : Extents} (K : Keeper E) (m : Matras E) (place : ℕ → Place)
    → IsStocked K m.allocator place
    → Extended K m place (matras_alloc_extent m)
unfolding matras_alloc_extent
matras_alloc_extent-Extended {E} K m place v =
    counted (matras_allocator_alloc-Taken K m.allocator place v)
  where
    counted :
        {r : Option ℕ × Allocator E}
        → Taken K m.allocator place r
        → Extended K m place (count_extent m r)
    counted (refused e w) = unextended e w
    counted (taken e w) = extended e w

module _ {E : Extents} (K : Keeper E) (m : Matras E) (place : ℕ → Place)
    (v : IsValid K m place) where
  -- A new second level, which has no blocks, is freed.
  free_mid :
      (a : Allocator E) (cells : ℕ → ℕ → ℕ) (root n k extent2 : ℕ) (place' : ℕ → Place)
      (s : E.State)
      → (E.alloc_func s).0 ≡ none
      → Context K m place a cells root place'
      → place' extent2 ≡ mid (part1 m m.head.block_count)
      → Internal K m place (
        none,
        free_created (bit_and m.head.block_count m.mask1) extent2 (built m a cells root n k),
      )
  unfolding matras_free_extent
  free_mid a cells root n k extent2 place' s fails c is_mid =
      elim (Bool-cases (bit_and m.head.block_count m.mask1 == 0)) [
        | inl first ↦ rw first (
            internal_refused (update place' extent2 spare) fails (record {
              stocked =
                  IsStocked-freed K a place' extent2 (λ q. absurd (ground (arith, sym is_mid ∙ q)))
                    c.stocked;
              kept =
                  Kept-trans m m.head.block_count m.cells cells cells place place'
                    (update place' extent2 spare) c.kept
                    (freed-Kept m m.head.block_count cells place' extent2
                      (λ i less. (
                        λ q. absurd (ground (arith, sym is_mid ∙ q)),
                        λ q. absurd (
                            before_mid m v.shaped i m.head.block_count (ground arith) less
                              (ground (arith, sym q ∙ is_mid))),
                      ))
                      (λ n1 n2 q. absurd (ground (arith, sym is_mid ∙ q))));
              same = c.same;
            }))
        | inr later ↦ rw later (internal_refused place' fails c)
      ]

  -- A root without blocks is freed.
  root_freed :
      (a : Allocator E) (cells : ℕ → ℕ → ℕ) (root : ℕ) (place' : ℕ → Place)
      → Context K m place a cells root place'
      → place' root ≡ top
      → (m.head.block_count == 0) ≡ true
      → Context K m place (matras_allocator_free a root) cells root (update place' root spare)
  root_freed a cells root place' c is_top first = record {
    stocked =
        IsStocked-freed K a place' root (λ q. absurd (ground (arith, sym is_top ∙ q))) c.stocked;
    kept =
        Kept-trans m m.head.block_count m.cells cells cells place place' (update place' root spare)
          c.kept
          (freed-Kept m m.head.block_count cells place' root (λ i less. absurd (ground arith))
            (λ n1 n2 q. absurd (ground (arith, sym is_top ∙ q))));
    same = c.same;
  }

  -- The new extents of the first two levels are freed.
  pub free_both :
      (a : Allocator E) (cells : ℕ → ℕ → ℕ) (root n k extent2 : ℕ) (place' : ℕ → Place)
      (s : E.State)
      → (E.alloc_func s).0 ≡ none
      → Context K m place a cells root place'
      → place' root ≡ top
      → place' extent2 ≡ mid (part1 m m.head.block_count)
      → Internal K m place (
        none,
        free_created
            (bit_and m.head.block_count m.mask1)
            extent2
            (free_created m.head.block_count root (built m a cells root n k)),
      )
  unfolding matras_free_extent
  free_both a cells root n k extent2 place' s fails c is_top is_mid =
      elim (Bool-cases (m.head.block_count == 0)) [
        | inl first ↦ rw first (
            free_mid (matras_allocator_free a root) cells root (sub32 n 1) (sub32 k 1) extent2
              (update place' root spare) s fails (root_freed a cells root place' c is_top first)
              (update_other place' root extent2 spare
                  (λ q. absurd (ground (arith, sym is_top ∙ ap place' q ∙ is_mid)))
                ∙ is_mid))
        | inr later ↦ rw later (free_mid a cells root n k extent2 place' s fails c is_mid)
      ]

  -- The new root is freed.
  pub free_top :
      (a : Allocator E) (cells : ℕ → ℕ → ℕ) (root n k : ℕ) (place' : ℕ → Place) (s : E.State)
      → (E.alloc_func s).0 ≡ none
      → Context K m place a cells root place'
      → place' root ≡ top
      → Internal K m place (none, free_created m.head.block_count root (built m a cells root n k))
  unfolding matras_free_extent
  free_top a cells root n k place' s fails c is_top = elim (Bool-cases (m.head.block_count == 0)) [
    | inl first ↦ rw first (
        internal_refused (update place' root spare) fails
          (root_freed a cells root place' c is_top first))
    | inr later ↦ rw later (internal_refused place' fails c)
  ]
