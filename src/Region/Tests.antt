-- ===== src/Region/Tests.antt =====
-- A region over a slab cache with blocks of 40 bytes.
use small.Base.{
  ℕ, ◌+◌, ◌^◌, ◌≤◌, ◌<◌, ◌≡◌, refl, ap, true, false, Option, none, some, [], ◌∷◌, arith, leb,
  if◌then◌else◌, length, take, replicate,
}
use small.Util.{small_align}
use small.SlabSource.{Block, SlabSource}
use small.Region.{
  region_reset, region_reserve, Region, region_alloc, region_aligned_alloc, region_truncate,
}
use small.Region.Reset.{older, region_reset-older}
use small.Region.Log.{log_of, total_used, contents, IsValid}
use small.Region.Truncate.{region_truncate-contents}
use small.Region.Alloc.{IsModest, Allocated, region_alloc-Allocated}
use small.Region.Aligned.{AlignedAllocated, IsMapped, region_aligned_alloc-Allocated}

-- The address of the next block; blocks beyond 40 bytes are refused.
abbrev get_block : ℕ → ℕ → Option Block × ℕ
get_block s size =
    if leb size 40
    then (some (record { address = s; bytes = replicate 40 0 }), s + 88)
    else (none, s)

get_block-capacity :
    (s size : ℕ) {b : Block} {s' : ℕ} → get_block s size ≡ (some b, s') → size ≤ length b.bytes
get_block-capacity s size e = ground arith

get_block-small :
    (s size : ℕ) {b : Block} {s' : ℕ} → get_block s size ≡ (some b, s') → length b.bytes < 2 ^ 32
get_block-small s size e = ground arith

abbrev one_size : SlabSource
one_size = record {
  State = ℕ;
  slab_get = get_block;
  slab_put = λ s a. s;
  slab_real_size = λ s size. 88;
  slab_get-capacity = get_block-capacity;
}

-- Two slabs, the older one full.
abbrev two_slabs : Region one_size
two_slabs = record {
  cache = 224;
  slabs =
      record { address = 136; memory = 4 ∷ 5 ∷ replicate 30 0; used = 2 }
      ∷ record { address = 48; memory = 1 ∷ 2 ∷ 3 ∷ []; used = 3 }
      ∷ [];
  used = 5;
  total = 176;
  on_alloc_cb = true;
  on_truncate_cb = false;
  events = [];
}

two_slabs-IsValid : IsValid two_slabs
two_slabs-IsValid = record {
  fits = (omega arith, omega arith, (omega arith, omega arith, tt));
  count = refl;
}

two_slabs-IsModest : (size : ℕ) → size ≤ 100 → IsModest two_slabs size
two_slabs-IsModest size h = record {
  size_small = omega arith;
  used_small = omega arith;
  slab_small = λ {b} {s} e. get_block-small 224 _ e;
}

region_runs :
    (contents two_slabs ≡ 1 ∷ 2 ∷ 3 ∷ 4 ∷ 5 ∷ [])
    × ((region_alloc two_slabs 3).0 ≡ some 146)
    × ((region_alloc two_slabs 31).0 ≡ some 232)
    × ((region_alloc two_slabs 40).0 ≡ none)
    × ((region_aligned_alloc two_slabs 4 8).0 ≡ some 152)
    × (contents (region_truncate two_slabs 4) ≡ 1 ∷ 2 ∷ 3 ∷ 4 ∷ [])
    × (contents (region_truncate two_slabs 2) ≡ 1 ∷ 2 ∷ [])
unfolding region_alloc region_aligned_alloc region_truncate small_align
region_runs = (refl, refl, refl, refl, refl, refl, refl)

region_truncate-contents_example :
    (contents (region_truncate two_slabs 2) ≡ take 2 (contents two_slabs))
    × ((region_truncate two_slabs 2).used ≡ 2)
    × IsValid (region_truncate two_slabs 2)
region_truncate-contents_example =
    region_truncate-contents two_slabs two_slabs-IsValid 2 (omega arith)

region_alloc-Allocated_example : Allocated two_slabs 31 (region_alloc two_slabs 31)
region_alloc-Allocated_example =
    region_alloc-Allocated two_slabs two_slabs-IsValid 31 (two_slabs-IsModest 31 (omega arith))

two_slabs-IsMapped : IsMapped two_slabs 11 8
unfolding region_reserve
two_slabs-IsMapped = record {
  mapped = λ p r' e.
      (let first : some 146 ≡ some p = ap (λ (o : Option ℕ × Region one_size). o.0) e in
        ground arith);
}

region_aligned_alloc-Allocated_example :
    AlignedAllocated two_slabs 4 8 (region_aligned_alloc two_slabs 4 8)
region_aligned_alloc-Allocated_example =
    region_aligned_alloc-Allocated two_slabs two_slabs-IsValid 4 3 (omega arith)
      (two_slabs-IsModest 11 (omega arith)) two_slabs-IsMapped

-- The three bytes of the older slab stay.
region_reset_runs :
    (contents (region_reset two_slabs) ≡ 1 ∷ 2 ∷ 3 ∷ []) × ((region_reset two_slabs).used ≡ 3)
unfolding region_reset
region_reset_runs = (refl, refl)

region_reset-older_example :
    (contents (region_reset two_slabs) ≡ log_of (older two_slabs.slabs))
    × ((region_reset two_slabs).used ≡ total_used (older two_slabs.slabs))
    × IsValid (region_reset two_slabs)
    × (length (region_reset two_slabs).slabs ≡ 2)
region_reset-older_example = region_reset-older two_slabs two_slabs-IsValid (omega arith)
