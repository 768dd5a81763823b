-- ===== src/Static/Tests.antt =====
-- The static buffer at the address 1000000.
use small.Base.{◌<◌, ◌+◌, ◌-◌, ◌^◌, ◌≡◌, refl, none, some, arith}
use small.Util.{small_align}
use small.Static.{
  small_static_size, static_reserve, static_alloc, static_aligned_alloc, static_reset,
}
use small.Static.Range.{static_reserve_wraps, Chunk, static_alloc-Chunk, static_aligned_alloc-Chunk}

static_runs :
    (static_alloc 1000000 100 50 ≡ (some 1000100, 150))
    × (static_alloc 1000000 12280 50 ≡ (some 1000000, 50))
    × (static_alloc 1000000 100 13000 ≡ (none, 100))
    × (static_aligned_alloc 1000000 101 50 8 ≡ (some 1000104, 154))
    × (static_reset 100 ≡ 0)
unfolding static_alloc static_aligned_alloc static_reset small_align
static_runs = (refl, refl, refl, refl, refl)

static_alloc-Chunk_test : Chunk 1000000 12280 50 50 1 (static_alloc 1000000 12280 50)
static_alloc-Chunk_test =
    static_alloc-Chunk 1000000 12280 50 (omega arith) (omega arith) (omega arith)

static_aligned_alloc-Chunk_example :
    Chunk 1000000 101 50 (50 + 2 ^ 3 - 1) (2 ^ 3) (static_aligned_alloc 1000000 101 50 (2 ^ 3))
static_aligned_alloc-Chunk_example =
    static_aligned_alloc-Chunk 1000000 101 50 (omega arith) (omega arith) 3 (omega arith)
      (omega arith)

static_reserve_wraps_example :
    (static_reserve 1000000 100 (2 ^ 64 - 50) ≡ (some (1000000 + 100), 100))
    × (small_static_size < 2 ^ 64 - 50)
static_reserve_wraps_example =
    static_reserve_wraps 1000000 100 (2 ^ 64 - 50) (omega arith) (omega arith) (omega arith)
