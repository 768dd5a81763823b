-- ===== src/Static.antt =====
-- include/small/static.h and small/static.c: a cyclic buffer of a thread. Its address is `buffer`,
-- and the state is the position of the next free byte.
pub mod Range
mod Tests
use small.Base.{
  ℕ, zero, suc, ◌+◌, ◌-◌, ◌*◌, ◌/◌, ◌%◌, ◌^◌, ◌≤◌, ◌<◌, min, max, bit_and, bit_or, bit_xor, ◌≡◌,
  refl, sym, ap, ◌∙◌, ◌≢◌, ◌↔◌, ◌⊎◌, inl, inr, Bool, true, false, ◌&&◌, ◌||◌, not, Option, none,
  some, List, [], ◌∷◌, ◌++◌, map, arith, ltb, leb, ◌==◌, if◌then◌else◌, Bool-cases, Option-cases,
  length, get_elem?, set, length-append,
}
use small.Base.Words.{add64, sub64}
use small.Util.{small_align}

-- `SMALL_STATIC_SIZE`
abbrev pub small_static_size : ℕ
small_static_size = 4096 * 3

unfoldable pub static_reset : ℕ → ℕ
static_reset pos = 0

module _ (buffer : ℕ) where
  -- The pointer, and the position afterwards.
  unfoldable pub static_reserve : (pos size : ℕ) → Option ℕ × ℕ
  static_reserve pos size =
      if ltb small_static_size (add64 pos size)
      then if ltb small_static_size size then (none, pos) else (some buffer, 0)
      else (some (buffer + pos), pos)

  abbrev pub static_advance : ℕ → Option ℕ × ℕ → Option ℕ × ℕ
  static_advance size (none, pos) = (none, pos)
  static_advance size (some p, pos) = (some p, add64 pos size)

  unfoldable pub static_alloc : (pos size : ℕ) → Option ℕ × ℕ
  unfolding static_reserve
  static_alloc pos size = static_advance size (static_reserve pos size)

  abbrev pub static_align : ℕ → Option ℕ × ℕ → Option ℕ × ℕ
  static_align alignment (none, pos) = (none, pos)
  static_align alignment (some p, pos) = (some (small_align p alignment), pos)

  unfoldable pub static_aligned_reserve : (pos size alignment : ℕ) → Option ℕ × ℕ
  unfolding static_reserve
  static_aligned_reserve pos size alignment =
      static_align alignment (static_reserve pos (sub64 (add64 size alignment) 1))

  -- Padding may stand before the pointer, so the position is taken from it.
  abbrev pub static_restore : ℕ → Option ℕ × ℕ → Option ℕ × ℕ
  static_restore size (none, pos) = (none, pos)
  static_restore size (some p, pos) = (some p, add64 (sub64 p buffer) size)

  unfoldable pub static_aligned_alloc : (pos size alignment : ℕ) → Option ℕ × ℕ
  unfolding static_aligned_reserve
  static_aligned_alloc pos size alignment =
      static_restore size (static_aligned_reserve pos size alignment)
