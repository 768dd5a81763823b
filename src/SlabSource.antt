-- ===== src/SlabSource.antt =====
-- What the buffers and regions ask of include/small/slab_cache.h: memory in blocks.
use small.Base.{ℕ, ◌≤◌, ◌≡◌, Option, some, List, length}

-- `slab_sizeof()`, the size of the header of a slab.
abbrev pub slab_sizeof : ℕ
slab_sizeof = 48

-- The memory of a slab past its header: the address that `slab_data` gives, and the bytes there.
-- Their number is `slab_capacity`.
pub record Block : Type 0 where
  pub address : ℕ
  pub bytes : List ℕ

-- `slab_get`, `slab_put` (by the address that `slab_data` gave) and `slab_real_size` of a slab
-- cache. A slab holds at least the bytes that were asked for.
pub record SlabSource : Type 1 where
  pub State : Type 0
  pub slab_get : State → ℕ → Option Block × State
  pub slab_put : State → ℕ → State
  pub slab_real_size : State → ℕ → ℕ
  pub slab_get-capacity :
      (s : State) (size : ℕ) {b : Block} {s' : State}
      → slab_get s size ≡ (some b, s')
      → size ≤ length b.bytes
