-- ===== src/Util.antt =====
-- include/small/util.h: rounding of sizes.
pub mod Align
pub mod Round
mod Tests
use small.Base.{ℕ, ◌-◌, ◌≤◌, bit_and, ltb, if◌then◌else◌}
use small.Base.Words.{add64, sub64, not64, shl64, clz}

-- `(size - 1 + alignment) & ~(alignment - 1)`
unfoldable pub small_align : ℕ → ℕ → ℕ
small_align size alignment = bit_and (add64 (sub64 size 1) alignment) (not64 (sub64 alignment 1))

unfoldable pub small_align_down : ℕ → ℕ → ℕ
small_align_down value alignment = bit_and value (not64 (sub64 alignment 1))

-- `unsigned long` has 64 bits.
unfoldable pub small_round : ℕ → ℕ
small_round size = if ltb size 2 then size else shl64 1 (64 - clz 64 (sub64 size 1))

unfoldable pub small_lb : ℕ → ℕ
small_lb size = 64 - clz 64 size - 1
