-- ===== src/Util/Round.antt =====
-- `small_round` and `small_lb`.
use small.Base.{ℕ, suc, ◌+◌, ◌-◌, ◌*◌, ◌^◌, ◌≤◌, ◌<◌, ◌≡◌, arith}
use small.Base.Bits.{two_pow_suc}
use small.Base.Words.{size_max, sub64, clz, TopBit, clz-TopBit}
use small.Util.{small_round, small_lb}

-- `small_lb` is the binary logarithm, rounded down.
pub small_lb_bounds :
    (size : ℕ)
    → 0 < size
    → size ≤ size_max
    → (2 ^ small_lb size ≤ size) × (size < 2 ^ (small_lb size + 1))
unfolding small_lb
small_lb_bounds size p h =
    let top : TopBit 64 size = clz-TopBit 64 size p (omega arith) in
    let below = top.below in
    let e : 64 - 1 - clz 64 size ≡ 64 - clz 64 size - 1 = omega arith in
    let e' : 64 - clz 64 size - 1 + 1 ≡ 64 - clz 64 size = omega arith in
    (rw (← e) top.lower, rw e' top.upper)

-- `small_round` returns a power of two that is not below `size`, and whose half is below it.
pub small_round_bounds :
    (size : ℕ)
    → 2 ≤ size
    → size ≤ 2 ^ 63
    → (k : ℕ) × (small_round size ≡ 2 ^ k)
      × (size ≤ small_round size)
      × (small_round size < 2 * size)
unfolding small_round
small_round_bounds size p h =
    let n : ℕ = sub64 size 1 in
    let top : TopBit 64 n = clz-TopBit 64 n (omega arith) (omega arith) in
    let below = top.below in
    let double : 2 ^ (64 - clz 64 n) ≡ 2 * 2 ^ (64 - 1 - clz 64 n) =
      let e : 64 - clz 64 n ≡ suc (64 - 1 - clz 64 n) = omega arith in rw e (two_pow_suc _) in
    let lower = top.lower in
    let upper = top.upper in
    let value : small_round size ≡ 2 ^ (64 - clz 64 n) = ground arith in
    (64 - clz 64 n, value, rw value (omega arith), rw value (omega arith))
