-- ===== src/Util/Align.antt =====
-- `small_align` and `small_align_down` at an alignment of `2 ^ k`.
use native.Mathlib.Nat.{
  mod-eq_of_lt, div-lt_iff_lt-mul, div-mul-le_self, lt-div-mul-add, mul-mod_left,
}
use small.Base.{ℕ, zero, suc, ◌+◌, ◌-◌, ◌*◌, ◌/◌, ◌%◌, ◌^◌, ◌≤◌, ◌<◌, ◌≡◌, bit_and, refl, arith}
use small.Base.Bits.{bit_and-high_mask, two_pow_add, pow_pos, two_pow_mono}
use small.Base.Words.{size_max, add64, sub64, not64}
use small.Util.{small_align, small_align_down}

sub_one-mul : (a b : ℕ) → 1 ≤ a → (a - 1) * b + b ≡ a * b
sub_one-mul zero b h = absurd (omega arith)
sub_one-mul (suc a) b h = let e : suc a - 1 ≡ a = omega arith in rw e (omega arith)

-- The mask of an alignment, as a product.
mask_lem : (k : ℕ) → k < 64 → not64 (sub64 (2 ^ k) 1) ≡ (2 ^ (64 - k) - 1) * 2 ^ k
mask_lem k h =
    let split : 64 - k + k ≡ 64 = omega arith in
    let total : 2 ^ 64 ≡ 2 ^ (64 - k) * 2 ^ k = rw (← two_pow_add, split) refl in
    let whole : (2 ^ (64 - k) - 1) * 2 ^ k + 2 ^ k ≡ 2 ^ (64 - k) * 2 ^ k =
      sub_one-mul (2 ^ (64 - k)) (2 ^ k) (pow_pos (64 - k)) in
    omega (arith, total, whole, pow_pos k, two_pow_mono {a = k} {b = 64} (omega arith))

-- Every word loses exactly its `k` lowest bits.
clear_low :
    (k a : ℕ) → k < 64 → a < 2 ^ 64 → bit_and a (not64 (sub64 (2 ^ k) 1)) ≡ a / 2 ^ k * 2 ^ k
clear_low k a h ha =
    let split : 64 - k + k ≡ 64 = omega arith in
    let total : 2 ^ 64 ≡ 2 ^ (64 - k) * 2 ^ k = rw (← two_pow_add, split) refl in
    let fits : a / 2 ^ k < 2 ^ (64 - k) = (div-lt_iff_lt-mul (pow_pos k)).1 (rw (← total) ha) in
    rw (mask_lem k h, bit_and-high_mask, mod-eq_of_lt fits)

-- For an alignment of 2^k, `small_align` returns the least multiple of it that is not below `size`,
-- if the rounding stays within `size_t`.
pub small_align_bounds :
    (k size : ℕ)
    → k < 64
    → size ≤ size_max - 2 ^ k
    → (size ≤ small_align size (2 ^ k))
      × (small_align size (2 ^ k) < size + 2 ^ k)
      × (small_align size (2 ^ k) % 2 ^ k ≡ 0)
unfolding small_align
small_align_bounds k size h hs =
    let a : ℕ = add64 (sub64 size 1) (2 ^ k) in
    let clear = clear_low k a h (omega arith) in
    rw clear (
      omega (
        arith,
        pow_pos k,
        two_pow_mono {a = k} {b = 63} (omega arith),
        div-mul-le_self a (2 ^ k),
        lt-div-mul-add {a = a} (pow_pos k),
      ),
      omega (
        arith,
        pow_pos k,
        two_pow_mono {a = k} {b = 63} (omega arith),
        div-mul-le_self a (2 ^ k),
        lt-div-mul-add {a = a} (pow_pos k),
      ),
      mul-mod_left (a / 2 ^ k) (2 ^ k),
    )

-- `small_align_down` returns the greatest multiple of 2^k that is not above `value`.
pub small_align_down_bounds :
    (k value : ℕ)
    → k < 64
    → value ≤ size_max
    → (small_align_down value (2 ^ k) ≤ value)
      × (value < small_align_down value (2 ^ k) + 2 ^ k)
      × (small_align_down value (2 ^ k) % 2 ^ k ≡ 0)
unfolding small_align_down
small_align_down_bounds k value h hv = rw (clear_low k value h (omega arith)) (
  div-mul-le_self value (2 ^ k),
  lt-div-mul-add {a = value} (pow_pos k),
  mul-mod_left (value / 2 ^ k) (2 ^ k),
)
