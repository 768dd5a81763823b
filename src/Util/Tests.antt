-- ===== src/Util/Tests.antt =====
-- The roundings of include/small/util.h at concrete sizes.
use small.Base.{ℕ, ◌+◌, ◌*◌, ◌%◌, ◌^◌, ◌≤◌, ◌<◌, ◌≡◌, refl, arith}
use small.Util.{small_align, small_align_down, small_round, small_lb}
use small.Util.Align.{small_align_bounds, small_align_down_bounds}
use small.Util.Round.{small_lb_bounds, small_round_bounds}
use small.Base.Words.{clz}

small_align_runs :
    (small_align 13 8 ≡ 16) × (small_align 16 8 ≡ 16) × (small_align 0 8 ≡ 0) × (small_lb 4096 ≡ 12)
unfolding small_align small_lb clz
small_align_runs = (refl, refl, refl, refl)

small_round_runs : (small_round 4097 ≡ 8192) × (small_round 4096 ≡ 4096) × (small_round 0 ≡ 0)
unfolding small_round clz
small_round_runs = (refl, refl, refl)

small_align_bounds_test :
    (13 ≤ small_align 13 (2 ^ 3))
    × (small_align 13 (2 ^ 3) < 13 + 2 ^ 3)
    × (small_align 13 (2 ^ 3) % 2 ^ 3 ≡ 0)
small_align_bounds_test = small_align_bounds 3 13 (omega arith) (omega arith)

small_align_down_bounds_example :
    (small_align_down 13 (2 ^ 3) ≤ 13)
    × (13 < small_align_down 13 (2 ^ 3) + 2 ^ 3)
    × (small_align_down 13 (2 ^ 3) % 2 ^ 3 ≡ 0)
small_align_down_bounds_example = small_align_down_bounds 3 13 (omega arith) (omega arith)

small_lb_bounds_example : (2 ^ small_lb 5000 ≤ 5000) × (5000 < 2 ^ (small_lb 5000 + 1))
small_lb_bounds_example = small_lb_bounds 5000 (omega arith) (omega arith)

small_round_bounds_test :
    (k : ℕ) × (small_round 5000 ≡ 2 ^ k) × (5000 ≤ small_round 5000) × (small_round 5000 < 2 * 5000)
small_round_bounds_test = small_round_bounds 5000 (omega arith) (omega arith)
