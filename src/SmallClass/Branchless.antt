-- ===== src/SmallClass/Branchless.antt =====
-- The variant of `small_class_calc_offset_by_size` without a branch computes the same.
use small.Base.{
  refl, ℕ, suc, ◌+◌, ◌-◌, ◌*◌, ◌/◌, ◌^◌, ◌≤◌, ◌<◌, bit_or, ◌≡◌, inl, inr, arith, ltb, Bool-cases,
}
use small.SmallClass.{
  SmallClass, small_class_fls, significant, small_class_calc_offset_by_size, calc_offset_branchless,
}
use small.SmallClass.Create.{IsValid}
use small.SmallClass.Offset.{small_class_fls_bounds, significant_lem}
use small.Base.Words.{clz}
use small.Base.Bits.{two_pow_suc, bit_or-digit, bit_or-zero, two_pow_mono, pow_pos}
use native.Mathlib.Nat.{div-eq_of_lt, le-div_iff_mul-le, div-le_self}

-- A number lies between one pair of neighbouring powers of two.
log_unique : (x a b : ℕ) → 2 ^ a ≤ x → x < 2 ^ suc a → 2 ^ b ≤ x → x < 2 ^ suc b → a ≡ b
log_unique x a b lo hi lo' hi' = elim (Bool-cases (ltb a b)) [
  | inl less ↦ omega (arith, two_pow_mono {a = suc a} {b = b} (ground arith))
  | inr not_less ↦ elim (Bool-cases (ltb b a)) [
    | inl more ↦ omega (arith, two_pow_mono {a = suc b} {b = a} (ground arith))
    | inr same ↦ ground arith
  ]
]

bit_or-one : (x : ℕ) → bit_or x 1 ≡ x / 2 * 2 + 1
bit_or-one x = omega (arith, bit_or-digit x 1, bit_or-zero (x / 2))

fls_one : small_class_fls (bit_or 0 1) ≡ 0
unfolding small_class_fls clz
fls_one = refl

-- The lowest bit does not move the highest one.
fls-bit_or-one : (x : ℕ) → 1 ≤ x → x < 2 ^ 31 → small_class_fls (bit_or x 1) ≡ small_class_fls x
fls-bit_or-one x pos small =
    let or = bit_or-one x in
    let with_one = small_class_fls_bounds (bit_or x 1) (omega arith) (omega arith) in
    let without = small_class_fls_bounds x pos (omega arith) in
    let even = two_pow_suc (small_class_fls (bit_or x 1)) in
    let even' = two_pow_suc (small_class_fls x) in
    log_unique (bit_or x 1) (small_class_fls (bit_or x 1)) (small_class_fls x) with_one.0 with_one.1
      (omega arith) (omega arith)

module _ {g e : ℕ} {sc : SmallClass} (v : IsValid g e sc) (size : ℕ) (small : size ≤ 2 ^ 30) where
  -- Both variants give the same class for every size up to 2^30.
  pub calc_offset_branchless_lem :
      calc_offset_branchless sc size ≡ small_class_calc_offset_by_size sc size
  unfolding calc_offset_branchless small_class_calc_offset_by_size
  calc_offset_branchless_lem =
      let s : ℕ = significant sc size in
      let bits = v.effective_bits in
      let steps = v.effective_size in
      let s_small : s ≤ 2 ^ 30 =
        rw (significant_lem v size small)
          (omega (arith, div-le_self (size - (sc.size_shift + 1)) (2 ^ g))) in
      simp (bits, steps)
        (elim (Bool-cases (ltb s (2 ^ e))) [
          | inl below ↦
              let none_left : s / 2 ^ e ≡ 0 = div-eq_of_lt (ground arith) in
              rw (none_left, below, fls_one) (omega arith)
          | inr not_below ↦
              let some_left : 1 ≤ s / 2 ^ e = (le-div_iff_mul-le (pow_pos e)).1 (ground arith) in
              rw (
                fls-bit_or-one (s / 2 ^ e) some_left (omega (arith, div-le_self s (2 ^ e))),
                not_below,
              )
        ])
