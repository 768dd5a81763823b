-- ===== src/SlabCache/Tests.antt =====
-- A slab cache with slabs of 4096 to 32768 bytes.
use small.Base.{◌%◌, ◌↔◌, Option, ap, arith, ◌*◌, ℕ, ◌+◌, ◌^◌, ◌≡◌, refl, true, some, [], ◌∷◌, leb}
use small.Base.Words.{clz}
use small.Util.{small_lb}
use small.SlabCache.{slab_create, Arena, SlabCache, slab_cache_create, slab_order, slab_order_size}
use small.SlabCache.Get.{slab_get_with_order, slab_get_large, slab_split, slab_get}
use small.SlabCache.Put.{slab_put}
use small.SlabCache.Lowest.{check_order-lowest}
use small.SlabCache.Check.{check_order, slab_cache_check}
use small.SlabCache.Order.{IsSized, IsOrder, slab_order-IsOrder}
use small.SlabCache.Buddy.{HasBuddy, slab_buddy-HasBuddy}
use small.SlabCache.Split.{IsFree, some-inj}
use small.SlabCache.Found.{IsValid, MapsAligned}
use small.SlabCache.Given.{Given, slab_get_with_order-Given}
use small.SlabCache.Create.{highest, slab_cache_create-IsValid}
use small.SlabCache.Large.{IsCounted, LargeGiven, slab_get_large-LargeGiven}
use small.SlabCache.Enough.{Got, slab_get-Got}
use small.SlabCache.Merge.{Undone, slab_split-Undone}

-- Slabs of 32768 bytes, one behind another; a quota that refuses more than 2^20 bytes at once, and
-- large slabs at 2^40.
abbrev test_arena : Arena
test_arena = record {
  State = ℕ;
  slab_size = 32768;
  slab_map = λ s. (some (s * 32768), s + 1);
  slab_unmap = λ s a. s;
  quota_use = λ s n. (leb n (2 ^ 20), s);
  quota_release = λ s n. s;
  malloc = λ s n. (some (2 ^ 40), s);
  free = λ s a. s;
}

abbrev empty_cache : SlabCache test_arena
empty_cache = slab_cache_create test_arena 4096 2

empty_cache_runs : (empty_cache.order_max ≡ 3) × (empty_cache.order0_size_lb ≡ 12)
unfolding slab_cache_create small_lb clz
empty_cache_runs = (refl, refl)

-- Two slabs of 4096 bytes from one, and back.
abbrev after_two : SlabCache test_arena
after_two = (slab_get (slab_get empty_cache 1000).1 4000).1

slab_cache_runs :
    ((slab_get empty_cache 1000).0 ≡ some 65536)
    × ((slab_get (slab_get empty_cache 1000).1 4000).0 ≡ some 69632)
    × (((after_two.orders 2).slabs) ≡ 81920 ∷ [])
    × (slab_cache_check after_two ≡ true)
    × ((((slab_put (slab_put after_two 65536) 69632).orders 3).slabs) ≡ 65536 ∷ [])
    × (slab_cache_check (slab_put (slab_put after_two 65536) 69632) ≡ true)
    × ((slab_get empty_cache 40000).0 ≡ some (2 ^ 40))
unfolding slab_cache_create small_lb slab_get slab_put slab_cache_check slab_order slab_order_size
    clz
slab_cache_runs = (refl, refl, refl, refl, refl, refl, refl)

test_arena-MapsAligned : MapsAligned test_arena
test_arena-MapsAligned = record {
  map_aligned = λ s s' slab e.
      (let first : some (s * 32768) ≡ some slab = ap (λ (o : Option ℕ × ℕ). o.0) e in
        let at : s * 32768 ≡ slab = some-inj first in omega arith);
}

slab_cache_create-IsValid_example :
    IsValid (slab_cache_create test_arena (2 ^ 12) 2)
    × ((slab_cache_create test_arena (2 ^ 12) 2).order_max ≡ highest 15 12)
    × (slab_cache_check (slab_cache_create test_arena (2 ^ 12) 2) ≡ true)
slab_cache_create-IsValid_example =
    slab_cache_create-IsValid test_arena 2 15 12 refl (omega arith) (omega arith)

empty_cache-IsValid : IsValid empty_cache
empty_cache-IsValid = slab_cache_create-IsValid_example.0

empty_cache-IsCounted : IsCounted empty_cache.allocated
unfolding slab_cache_create
empty_cache-IsCounted = record { used_small = omega arith; total_small = omega arith }

slab_order-IsOrder_example : IsOrder empty_cache 5000 (slab_order empty_cache 5000)
slab_order-IsOrder_example =
    slab_order-IsOrder empty_cache empty_cache-IsValid.sized 5000 (omega arith) (omega arith)

slab_get_with_order-Given_example : Given empty_cache 1 (slab_get_with_order empty_cache 1)
unfolding slab_cache_create small_lb clz
slab_get_with_order-Given_example =
    slab_get_with_order-Given empty_cache empty_cache-IsValid test_arena-MapsAligned 1 (omega arith)

slab_get-Got_example : Got empty_cache 5000 (slab_get empty_cache 5000)
slab_get-Got_example =
    slab_get-Got empty_cache 5000 empty_cache-IsValid empty_cache-IsCounted test_arena-MapsAligned
      (omega arith)

slab_get_large-LargeGiven_example : LargeGiven empty_cache 50000 (slab_get_large empty_cache 50000)
slab_get_large-LargeGiven_example =
    slab_get_large-LargeGiven empty_cache 50000 empty_cache-IsCounted (omega arith)

-- A slab of 8192 bytes, as the cache finds it before it is split.
abbrev one_slab : SlabCache test_arena
one_slab = slab_create empty_cache 98304 1 8192

one_slab-IsFree : IsFree one_slab 98304 (0 + 1)
unfolding slab_cache_create small_lb clz slab_create slab_order_size
one_slab-IsFree = record { order_is = refl; size_is = refl; aligned = refl; inside = omega arith }

one_slab-IsSized : IsSized one_slab
unfolding slab_create
one_slab-IsSized =
    let v = empty_cache-IsValid.sized in
    record { order0 = v.order0; whole = v.whole; bound = v.bound }

slab_buddy-HasBuddy_example : HasBuddy one_slab 98304
unfolding slab_cache_create small_lb clz slab_create slab_order_size
slab_buddy-HasBuddy_example = slab_buddy-HasBuddy one_slab one_slab-IsSized 98304 refl

slab_split-Undone_example : (buddy : ℕ) × Undone one_slab (slab_split one_slab 98304) 98304 0 buddy
unfolding slab_cache_create slab_create
slab_split-Undone_example =
    slab_split-Undone one_slab one_slab-IsSized 98304 0 one_slab-IsFree (omega arith)

check_order-lowest_example : (check_order empty_cache 2 ≡ true) ↔ (
    ((empty_cache.orders 2).total % slab_order_size empty_cache 0 ≡ 0)
    × ((empty_cache.orders 2).used % slab_order_size empty_cache 0 ≡ 0))
unfolding slab_cache_create small_lb clz
check_order-lowest_example =
    check_order-lowest empty_cache empty_cache-IsValid.sized (omega arith) 2 (omega arith)
