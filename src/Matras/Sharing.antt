-- ===== src/Matras/Sharing.antt =====
-- What a touch keeps of the head and of the views, and its outcomes.
use small.Base.{ℕ, ◌<◌, ◌≡◌, ◌≢◌, Option, none, some}
use small.Matras.{Extents, Allocator, Matras, Pointer, part1, part3}
use small.Matras.Stock.{Place, Keeper, IsStocked}
use small.Matras.Lookup.{IsAt}
use small.Matras.Building.{built}
use small.Matras.Copying.{path, ViewKept, HeadKept}

-- A matras in which a touch has changed the extents only.
abbrev pub touching :
    {E : Extents} → Matras E → Allocator E → (ℕ → ℕ → ℕ) → (root n k r : ℕ) → Matras E
touching m a cells root n k r =
    let b : Matras _ = built m a cells root n k in record b { stats_read_view_extent_count = r }

-- What a view, with its root, shares with the head on the way to a block, it shares with the previous
-- view too. The previous view has this of itself.
pub record IsBehind {E : Extents} (m : Matras E) (place : ℕ → Place) (prev id w : ℕ) : Type 0 where
  pub root_shared : w ≡ m.head.root → prev ≡ m.head.root
  pub mid_shared :
      IsAt m m.cells place w id
      → m.cells w (part1 m id) ≡ m.cells m.head.root (part1 m id)
      → m.cells prev (part1 m id) ≡ m.cells m.head.root (part1 m id)
  pub leaf_shared :
      IsAt m m.cells place w id
      → path m m.cells w id ≡ path m m.cells m.head.root id
      → path m m.cells prev id ≡ path m m.cells m.head.root id

-- What holds after each level, `place` and `m` being from the start.
pub record Stage {E : Extents} (K : Keeper E) (m : Matras E) (place : ℕ → Place) (prev id : ℕ)
    (a : Allocator E) (cells : ℕ → ℕ → ℕ) (root : ℕ) (place' : ℕ → Place) : Type 0 where
  pub stocked : IsStocked K a place'
  pub heads : (i : ℕ) → i < m.head.block_count → HeadKept m cells place' root i
  pub views :
      (w i : ℕ)
      → IsBehind m place prev id w
      → IsAt m m.cells place w i
      → ViewKept m cells place' w i

-- The outcomes of a touch: NULL, where the user's function refuses; or the pointer to the block of the
-- head, in an extent that no view behind it shares.
pub data Touched {E : Extents} (K : Keeper E) (m : Matras E) (place : ℕ → Place) (prev id : ℕ)
    : Option Pointer × Matras E → Type 0 where
  touch_refused :
      {a : Allocator E} {cells : ℕ → ℕ → ℕ} {root n k r : ℕ} {s : E.State} (place' : ℕ → Place)
      → (E.alloc_func s).0 ≡ none
      → Stage K m place prev id a cells root place'
      → Touched K m place prev id (none, touching m a cells root n k r)
  touch_got :
      {a : Allocator E} {cells : ℕ → ℕ → ℕ} {root n k r e : ℕ} (place' : ℕ → Place)
      → Stage K m place prev id a cells root place'
      → path m cells root id ≡ e
      → ((w : ℕ) → IsBehind m place prev id w → IsAt m m.cells place w id → e ≢ path m m.cells w id)
      → Touched K m place prev id (some (e, part3 m id), touching m a cells root n k r)
