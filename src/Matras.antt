-- ===== src/Matras.antt =====
-- include/small/matras.h and small/matras.c: blocks of one size, found by number through a tree of
-- three levels of extents. An extent is an address. `cells` is the memory of the extents, slot by
-- slot: a slot of an extent of the first two levels holds the address of an extent of the next one,
-- and a slot of the third level is a block. The pointer to a block is its extent and its slot, which
-- stand for the address of the extent plus `slot * block_size`.
pub mod Views
pub mod Destroy
pub mod Shape
pub mod Stock
pub mod Lookup
pub mod Kept
pub mod Building
pub mod Bottom
pub mod Levels
pub mod Rows
pub mod Alloc
pub mod Create
pub mod Copying
pub mod Sharing
pub mod Leaves
pub mod Touch
pub mod Written
pub mod Loops
pub mod Destroyed
mod Tests
use small.Base.{
  ℕ, zero, suc, ◌+◌, ◌-◌, ◌*◌, ◌/◌, ◌%◌, ◌^◌, ◌≤◌, ◌<◌, min, max, bit_and, bit_or, bit_xor, ◌≡◌,
  refl, sym, ap, ◌∙◌, ◌≢◌, ◌↔◌, ◌⊎◌, inl, inr, Bool, true, false, ◌&&◌, ◌||◌, not, Option, none,
  some, List, [], ◌∷◌, ◌++◌, map, arith, ltb, leb, ◌==◌, if◌then◌else◌, Bool-cases, Option-cases,
  length, get_elem?, set, length-append,
}
use small.Base.Update.{update}
use small.Base.Words.{add32, sub32, shr, shl32, clz, to_u32}

-- The functions that a user supplies for extents.
pub record Extents : Type 1 where
  pub State : Type 0
  pub extent_size : ℕ
  pub alloc_func : State → Option ℕ × State
  pub free_func : State → ℕ → State

-- `num_reserved_extents` is the length of the list.
pub record Allocator (E : Extents) : Type 0 where
  pub external : E.State
  pub reserved_extents : List ℕ

pub record View : Type 0 where
  pub root : ℕ
  pub block_count : ℕ

-- `views` are the views that are linked from the head by `prev_view`, the newest first.
pub record Matras (E : Extents) : Type 0 where
  pub allocator : Allocator E
  pub cells : ℕ → ℕ → ℕ
  pub head : View
  pub views : List View
  pub block_size : ℕ
  pub extent_size : ℕ
  pub extent_count : ℕ
  pub capacity : ℕ
  pub shift1 : ℕ
  pub shift2 : ℕ
  pub mask1 : ℕ
  pub mask2 : ℕ
  pub stats_extent_count : ℕ
  pub stats_read_view_extent_count : ℕ

abbrev pub Pointer : Type 0
Pointer = ℕ × ℕ

-- The pointer size is 8 bytes.
abbrev pub pointer_size : ℕ
pointer_size = 8

-- Writes a slot of an extent.
abbrev pub write : (ℕ → ℕ → ℕ) → (extent slot value : ℕ) → ℕ → ℕ → ℕ
write cells extent slot value = update cells extent (update (cells extent) slot value)

-- The argument is a 32-bit number.
unfoldable pub matras_log2 : ℕ → ℕ
matras_log2 val = 32 - clz 32 (to_u32 val) - 1

module _ (E : Extents) where
  unfoldable pub matras_allocator_create : E.State → Allocator E
  matras_allocator_create external = record { external = external; reserved_extents = [] }

  unfoldable pub matras_create : (block_size : ℕ) → Allocator E → (cells : ℕ → ℕ → ℕ) → Matras E
  matras_create block_size allocator cells =
      let log1 = matras_log2 E.extent_size in
      let log2 = matras_log2 block_size in
      let log3 = matras_log2 pointer_size in
      let log2_capacity = sub32 (sub32 (log1 * 3) log2) (log3 * 2) in
      let capped = if ltb 32 log2_capacity then 32 else log2_capacity in
      let shift1 = sub32 (sub32 (log1 * 2) log2) log3 in
      let shift2 = sub32 log1 log2 in
      record {
        allocator = allocator;
        cells = cells;
        head = record { root = 0; block_count = 0 };
        views = [];
        block_size = block_size;
        extent_size = to_u32 E.extent_size;
        extent_count = 0;
        capacity = 2 ^ capped;
        shift1 = shift1;
        shift2 = shift2;
        mask1 = sub32 (shl32 1 shift1) 1;
        mask2 = sub32 (shl32 1 shift2) 1;
        stats_extent_count = 0;
        stats_read_view_extent_count = 0;
      }

module _ {E : Extents} where
  abbrev pub take_reserved : Allocator E → List ℕ → Option ℕ × Allocator E
  take_reserved a (ext ∷ rest) = (some ext, record a { reserved_extents = rest })
  take_reserved a [] = let (got, s) = E.alloc_func a.external in (got, record a { external = s })

  unfoldable pub matras_allocator_alloc : Allocator E → Option ℕ × Allocator E
  matras_allocator_alloc a = take_reserved a a.reserved_extents

  unfoldable pub matras_allocator_free : Allocator E → ℕ → Allocator E
  matras_allocator_free a ext = record a { external = E.free_func a.external ext }

  -- Frees the reserved extents of a list, first to last.
  unfoldable pub free_reserved : Allocator E → List ℕ → Allocator E
  free_reserved a [] = record a { reserved_extents = [] }
  free_reserved a (ext ∷ rest) = free_reserved (matras_allocator_free a ext) rest

  unfoldable pub matras_allocator_destroy : Allocator E → Allocator E
  unfolding free_reserved matras_allocator_free
  matras_allocator_destroy a = free_reserved a a.reserved_extents

  -- Reserves `missing` more extents: false where the source returns -1.
  unfoldable pub reserve_more : (missing : ℕ) → Allocator E → Bool × Allocator E
  reserve_more zero a = (true, a)
  reserve_more (suc missing) a =
      let (got, s) = E.alloc_func a.external in
      elim got [
        | none ↦ (false, record a { external = s })
        | some ext ↦
            reserve_more missing
              (record a { external = s; reserved_extents = ext ∷ a.reserved_extents })
      ]

  unfoldable pub matras_allocator_reserve : Allocator E → (count : ℕ) → Bool × Allocator E
  unfolding reserve_more
  matras_allocator_reserve a count = reserve_more (count - length a.reserved_extents) a

  abbrev pub count_extent : Matras E → Option ℕ × Allocator E → Option ℕ × Matras E
  count_extent m (none, a) = (none, record m { allocator = a })
  count_extent m (some ext, a) = (
    some ext,
    record m {
      allocator = a;
      extent_count = add32 m.extent_count 1;
      stats_extent_count = add32 m.stats_extent_count 1;
    },
  )

  unfoldable pub matras_alloc_extent : Matras E → Option ℕ × Matras E
  unfolding matras_allocator_alloc
  matras_alloc_extent m = count_extent m (matras_allocator_alloc m.allocator)

  unfoldable pub matras_free_extent : Matras E → ℕ → Matras E
  unfolding matras_allocator_free
  matras_free_extent m ext = record m {
    allocator = matras_allocator_free m.allocator ext;
    extent_count = sub32 m.extent_count 1;
    stats_extent_count = sub32 m.stats_extent_count 1;
  }

  -- The parts of the number of a block.
  abbrev pub part1 : Matras E → ℕ → ℕ
  part1 m id = shr id m.shift1

  abbrev pub part2 : Matras E → ℕ → ℕ
  part2 m id = shr (bit_and id m.mask1) m.shift2

  abbrev pub part3 : Matras E → ℕ → ℕ
  part3 m id = bit_and id m.mask2

  unfoldable pub matras_view_get_no_check : Matras E → View → ℕ → Pointer
  matras_view_get_no_check m v id = (m.cells (m.cells v.root (part1 m id)) (part2 m id), part3 m id)

  unfoldable pub matras_get : Matras E → ℕ → Pointer
  unfolding matras_view_get_no_check
  matras_get m id = matras_view_get_no_check m m.head id

  unfoldable pub matras_extent_count : Matras E → ℕ
  matras_extent_count m = m.extent_count

  -- The root, which is allocated for the first block.
  abbrev pub set_root : Option ℕ × Matras E → Option ℕ × Matras E
  set_root (none, m) = (none, m)
  set_root (some ext, m) = (some ext, record m { head = record m.head { root = ext } })

  -- A new extent in a slot of another.
  abbrev pub set_slot : (extent slot : ℕ) → Option ℕ × Matras E → Option ℕ × Matras E
  set_slot extent slot (none, m) = (none, m)
  set_slot extent slot (some ext, m) =
      (some ext, record m { cells = write m.cells extent slot ext })

  -- The extent that a slot refers to, which is allocated if it is not available yet.
  abbrev pub get_level : Matras E → (extent slot available : ℕ) → Option ℕ × Matras E
  get_level m extent slot available =
      if available == 0
      then set_slot extent slot (matras_alloc_extent m)
      else (some (m.cells extent slot), m)

  abbrev pub free_created : (available extent : ℕ) → Matras E → Matras E
  free_created available extent m = if available == 0 then matras_free_extent m extent else m

  abbrev pub finish_level3 :
      (id id1 extent1 extent2 slot : ℕ) → Option ℕ × Matras E → Option Pointer × Matras E
  finish_level3 id id1 extent1 extent2 slot (none, m) =
      (none, free_created id1 extent2 (free_created id extent1 m))
  finish_level3 id id1 extent1 extent2 slot (some extent3, m) = (some (extent3, slot), m)

  abbrev pub finish_level2 :
      (id id1 id2 n2 extent1 : ℕ) → Option ℕ × Matras E → Option Pointer × Matras E
  finish_level2 id id1 id2 n2 extent1 (none, m) = (none, free_created id extent1 m)
  finish_level2 id id1 id2 n2 extent1 (some extent2, m) =
      finish_level3 id id1 extent1 extent2 id2 (get_level m extent2 n2 id2)

  abbrev pub finish_level1 :
      (id id1 id2 n1 n2 : ℕ) → Option ℕ × Matras E → Option Pointer × Matras E
  finish_level1 id id1 id2 n1 n2 (none, m) = (none, m)
  finish_level1 id id1 id2 n1 n2 (some extent1, m) =
      finish_level2 id id1 id2 n2 extent1 (get_level m extent1 n1 id1)

  unfoldable pub matras_alloc_internal : Matras E → Option Pointer × Matras E
  unfolding matras_alloc_extent matras_free_extent
  matras_alloc_internal m =
      let id = to_u32 m.head.block_count in
      let n1 = shr id m.shift1 in
      let id1 = bit_and id m.mask1 in
      let n2 = shr id1 m.shift2 in
      let id2 = bit_and id1 m.mask2 in
      finish_level1 id id1 id2 n1 n2
        (if id == 0 then set_root (matras_alloc_extent m) else (some m.head.root, m))

  abbrev pub add_blocks : ℕ → Option Pointer × Matras E → Option (ℕ × Pointer) × Matras E
  add_blocks n (none, m) = (none, m)
  add_blocks n (some p, m) = (
    some (to_u32 m.head.block_count, p),
    record m { head = record m.head { block_count = m.head.block_count + n } },
  )

  -- The number of the block and its pointer. The count stays below 2^64.
  unfoldable pub matras_alloc : Matras E → Option (ℕ × Pointer) × Matras E
  unfolding matras_alloc_internal
  matras_alloc m =
      if m.head.block_count == m.capacity then (none, m) else add_blocks 1 (matras_alloc_internal m)

  unfoldable pub matras_alloc_range : Matras E → ℕ → Option (ℕ × Pointer) × Matras E
  unfolding matras_alloc_internal
  matras_alloc_range m range_count =
      if ltb m.capacity (m.head.block_count + range_count)
      then (none, m)
      else add_blocks range_count (matras_alloc_internal m)
