-- ===== src/SmallClass.antt =====
-- include/small/small_class.h and small/small_class.c: size classes by integer logarithms.
-- `unsigned` has 32 bits. `effective_bits` is computed with floating-point logarithms of the
-- requested factor, so it is an argument here; the factor that goes with it is not modelled.
pub mod Blocks
pub mod Create
pub mod Offset
pub mod Size
pub mod Classes
pub mod Branchless
mod Tests
use small.Base.{
  ℕ, zero, suc, ◌+◌, ◌-◌, ◌*◌, ◌/◌, ◌%◌, ◌^◌, ◌≤◌, ◌<◌, min, max, bit_and, bit_or, bit_xor, ◌≡◌,
  refl, sym, ap, ◌∙◌, ◌≢◌, ◌↔◌, ◌⊎◌, inl, inr, Bool, true, false, ◌&&◌, ◌||◌, not, Option, none,
  some, List, [], ◌∷◌, ◌++◌, map, arith, ltb, leb, ◌==◌, if◌then◌else◌, Bool-cases, Option-cases,
  length, get_elem?, set, length-append,
}
use small.Base.Words.{add32, sub32, shl32, shr, clz, ctz}

pub record SmallClass : Type 0 where
  pub granularity : ℕ
  pub ignore_bits_count : ℕ
  pub effective_bits : ℕ
  pub effective_size : ℕ
  pub effective_mask : ℕ
  pub size_shift : ℕ
  pub size_shift_plus_1 : ℕ

unfoldable pub small_class_create : (granularity effective_bits min_alloc : ℕ) → SmallClass
small_class_create granularity effective_bits min_alloc =
    let effective_size = shl32 1 effective_bits in
    let size_shift = sub32 min_alloc granularity in
    record {
      granularity = granularity;
      ignore_bits_count = ctz 32 granularity;
      effective_bits = effective_bits;
      effective_size = effective_size;
      effective_mask = sub32 effective_size 1;
      size_shift = size_shift;
      size_shift_plus_1 = add32 size_shift 1;
    }

-- `(sizeof(value) * CHAR_BIT - 1) ^ clz`
unfoldable pub small_class_fls : ℕ → ℕ
small_class_fls value = bit_xor 31 (clz 32 value)

-- The size that the classes are counted from: less the shift, or 0 where that wraps, and less the
-- bits that are never significant.
unfoldable pub significant : SmallClass → ℕ → ℕ
significant sc size =
    let checked_size = sub32 size sc.size_shift_plus_1 in
    let size' = if ltb size checked_size then 0 else checked_size in shr size' sc.ignore_bits_count

unfoldable pub small_class_calc_offset_by_size : SmallClass → ℕ → ℕ
small_class_calc_offset_by_size sc size =
    let s = significant sc size in
    let log2 = small_class_fls (shr s sc.effective_bits) in
    if ltb s sc.effective_size then s else add32 (shr s log2) (shl32 log2 sc.effective_bits)

-- The same under SMALL_CLASS_BRANCHLESS.
unfoldable pub calc_offset_branchless : SmallClass → ℕ → ℕ
calc_offset_branchless sc size =
    let s = significant sc size in
    let log2 = small_class_fls (bit_or (shr s sc.effective_bits) 1) in
    add32 (shr s log2) (shl32 log2 sc.effective_bits)

unfoldable pub small_class_calc_size_by_offset : SmallClass → ℕ → ℕ
small_class_calc_size_by_offset sc cls =
    let next_cls = add32 cls 1 in
    let linear_part = bit_and next_cls sc.effective_mask in
    let log2 = shr next_cls sc.effective_bits in
    let reassemble =
      λ (linear log : ℕ). add32 sc.size_shift (shl32 (shl32 linear log) sc.ignore_bits_count) in
    if log2 == 0
    then reassemble linear_part log2
    else reassemble (bit_or linear_part sc.effective_size) (log2 - 1)
