-- ===== src/Region.antt =====
-- include/small/region.h and small/region.c: allocation by advancing a position, freed together.
-- The sizes of the headers are those of a 64-bit build. The flag `reserved`, which only debug builds
-- have, is left out. A callback is a call that is recorded, since it may not change the region.
pub mod Log
pub mod Truncate
pub mod Alloc
pub mod Aligned
pub mod Reset
mod Tests
use small.Base.{
  ℕ, zero, suc, ◌+◌, ◌-◌, ◌*◌, ◌/◌, ◌%◌, ◌^◌, ◌≤◌, ◌<◌, min, max, bit_and, bit_or, bit_xor, ◌≡◌,
  refl, sym, ap, ◌∙◌, ◌≢◌, ◌↔◌, ◌⊎◌, inl, inr, Bool, true, false, ◌&&◌, ◌||◌, not, Option, none,
  some, List, [], ◌∷◌, ◌++◌, map, arith, ltb, leb, ◌==◌, if◌then◌else◌, Bool-cases, Option-cases,
  length, get_elem?, set, length-append, take, drop,
}
use small.Base.Words.{add64, sub64, add32, sub32, to_u32}
use small.Base.Slices.{slice, overwrite}
use small.SlabSource.{slab_sizeof, Block, SlabSource}
use small.Util.{small_align}

-- `rslab_sizeof()`
abbrev pub rslab_sizeof : ℕ
rslab_sizeof = 56

-- A slab of a region: the address that `slab_data` gave, and the memory past the header of a region's
-- slab, which stands 8 bytes further on.
pub record Rslab : Type 0 where
  pub address : ℕ
  pub memory : List ℕ
  pub used : ℕ

abbrev pub rslab_data : Rslab → ℕ
rslab_data s = s.address + (rslab_sizeof - slab_sizeof)

abbrev pub rslab_data_end : Rslab → ℕ
rslab_data_end s = rslab_data s + s.used

-- `slab->slab.size`
abbrev pub slab_size : Rslab → ℕ
slab_size s = length s.memory + rslab_sizeof

unfoldable pub rslab_unused : Rslab → ℕ
rslab_unused s = to_u32 (sub64 (slab_size s - rslab_sizeof) s.used)

pub data Event : Type 0 where
  on_alloc : (size used_before : ℕ) → Event
  on_truncate : (used : ℕ) → Event

-- `used` and `total` are the statistics of the list of slabs, which has the newest slab first.
pub record Region (S : SlabSource) : Type 0 where
  pub cache : S.State
  pub slabs : List Rslab
  pub used : ℕ
  pub total : ℕ
  pub on_alloc_cb : Bool
  pub on_truncate_cb : Bool
  pub events : List Event

abbrev pub log_if : Bool → Event → List Event → List Event
log_if set e events = if set then e ∷ events else events

module _ (S : SlabSource) where
  unfoldable pub region_create : S.State → Region S
  region_create cache = record {
    cache = cache;
    slabs = [];
    used = 0;
    total = 0;
    on_alloc_cb = false;
    on_truncate_cb = false;
    events = [];
  }

  -- A slab of a region from a block of a slab cache.
  abbrev pub new_rslab : Block → Rslab
  new_rslab b = record {
    address = b.address;
    memory = drop (rslab_sizeof - slab_sizeof) b.bytes;
    used = 0;
  }

  -- Gives every slab of a list back.
  unfoldable pub put_all : List Rslab → S.State → S.State
  put_all [] s = s
  put_all (x ∷ xs) s = put_all xs (S.slab_put s x.address)

-- What a new slab is asked to hold.
abbrev pub slab_min_size : ℕ → ℕ
slab_min_size size = sub64 (add64 size rslab_sizeof) slab_sizeof

-- The first slab, if it has room.
abbrev pub first_fit : List Rslab → ℕ → Option ℕ
first_fit [] size = none
first_fit (x ∷ xs) size = if leb size (rslab_unused x) then some (rslab_data_end x) else none

-- The bytes used are those of the padding and of the chunk.
abbrev pub effective_size : ℕ → ℕ → List Rslab → ℕ
effective_size p size [] = 0
effective_size p size (x ∷ xs) = to_u32 (add64 (sub64 p (rslab_data_end x)) size)

module _ {S : SlabSource} where
  unfoldable pub region_set_callbacks : Region S → Bool → Bool → Region S
  region_set_callbacks r on_alloc_cb on_truncate_cb = record r {
    on_alloc_cb = on_alloc_cb;
    on_truncate_cb = on_truncate_cb;
  }

  unfoldable pub region_free : Region S → Region S
  unfolding put_all
  region_free r = record r {
    cache = put_all S r.slabs r.cache;
    slabs = [];
    used = 0;
    total = 0;
    events = log_if r.on_truncate_cb (on_truncate 0) r.events;
  }

  abbrev pub add_slab : Region S → Option Block × S.State → Option ℕ × Region S
  add_slab r (none, s) = (none, record r { cache = s })
  add_slab r (some b, s) =
      let x : Rslab = new_rslab S b in
      (
        some (rslab_data x),
        record r { cache = s; slabs = x ∷ r.slabs; total = add64 r.total (slab_size x) },
      )

  unfoldable pub region_reserve_slow : Region S → ℕ → Option ℕ × Region S
  region_reserve_slow r size = add_slab r (S.slab_get r.cache (slab_min_size size))

  unfoldable pub region_reserve : Region S → ℕ → Option ℕ × Region S
  unfolding region_reserve_slow rslab_unused
  region_reserve r size = elim (first_fit r.slabs size) [
    | some p ↦ (some p, r)
    | none ↦ region_reserve_slow r size
  ]

  -- Counts `size` bytes of the first slab as used.
  abbrev pub use_first : ℕ → Region S → List Rslab → Region S
  use_first size r [] = r
  use_first size r (x ∷ xs) = record r {
    slabs = record x { used = add32 x.used (to_u32 size) } ∷ xs;
    used = add64 r.used size;
    events = log_if r.on_alloc_cb (on_alloc size r.used) r.events;
  }

  abbrev pub alloc_first : ℕ → Option ℕ × Region S → Option ℕ × Region S
  alloc_first size (none, r) = (none, r)
  alloc_first size (some p, r) = (some p, use_first size r r.slabs)

  unfoldable pub region_alloc : Region S → ℕ → Option ℕ × Region S
  unfolding region_reserve
  region_alloc r size = alloc_first size (region_reserve r size)

  -- A pointer that is aligned; NULL stays NULL.
  abbrev pub align_result : ℕ → Option ℕ × Region S → Option ℕ × Region S
  align_result alignment (none, r) = (none, r)
  align_result alignment (some p, r) = (some (small_align p alignment), r)

  unfoldable pub region_aligned_reserve : Region S → ℕ → ℕ → Option ℕ × Region S
  unfolding region_reserve
  region_aligned_reserve r size alignment =
      align_result alignment (region_reserve r (sub64 (add64 size alignment) 1))

  abbrev pub aligned_first : ℕ → Option ℕ × Region S → Option ℕ × Region S
  aligned_first size (none, r) = (none, r)
  aligned_first size (some p, r) = (some p, use_first (effective_size p size r.slabs) r r.slabs)

  unfoldable pub region_aligned_alloc : Region S → ℕ → ℕ → Option ℕ × Region S
  unfolding region_aligned_reserve
  region_aligned_alloc r size alignment =
      aligned_first size (region_aligned_reserve r size alignment)

  abbrev pub reset_first : Region S → List Rslab → Region S
  reset_first r [] = r
  reset_first r (x ∷ xs) = record r {
    slabs = record x { used = 0 } ∷ xs;
    used = sub64 r.used x.used;
  }

  unfoldable pub region_reset : Region S → Region S
  region_reset r = reset_first r r.slabs

  unfoldable pub region_free_after : Region S → ℕ → Region S
  unfolding region_free
  region_free_after r after = if ltb after r.used then region_free r else r

  -- The loop of `region_truncate`, over the slabs that are left: what is still to be cut, and the
  -- region.
  unfoldable pub trim : (cut_size : ℕ) → List Rslab → Region S → Region S × ℕ
  trim cut_size [] r = (record r { slabs = [] }, cut_size)
  trim cut_size (x ∷ xs) r =
      let fewer = record r {
        cache = S.slab_put r.cache x.address;
        total = sub64 r.total (slab_size x);
      } in
      let rest = trim (cut_size - x.used) xs fewer in
      if ltb cut_size x.used
      then (record r { slabs = record x { used = x.used - cut_size } ∷ xs }, 0)
      else rest

  unfoldable pub region_truncate : Region S → ℕ → Region S
  unfolding trim
  region_truncate r used =
      let r' = (trim (r.used - used) r.slabs r).0 in
      record r' { used = used; events = log_if r.on_truncate_cb (on_truncate used) r.events }
