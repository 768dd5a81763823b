-- ===== src/SmallClass/Offset.antt =====
-- `small_class_calc_offset_by_size`: which class a size has.
use small.Base.Bits.{bit_xor-ones, pow_pos, two_pow_suc}
use small.Base.{
  ℕ, zero, suc, ◌+◌, ◌-◌, ◌*◌, ◌/◌, ◌^◌, ◌≤◌, ◌<◌, ◌≡◌, ap, inl, inr, arith, ltb, if◌then◌else◌,
  Bool-cases,
}
use small.SmallClass.{SmallClass, small_class_fls, significant, small_class_calc_offset_by_size}
use small.SmallClass.Create.{IsValid}
use small.Base.Words.{add32, sub32, shl32, shr, clz, TopBit, clz-TopBit}
use native.Mathlib.Nat.{
  mul-le-mul_right, le-div_iff_mul-le, div-lt_iff_lt-mul, div-le_self, lt-div-mul-add,
  div-mul-le_self,
}

-- `small_class_fls` is the position of the highest bit.
pub small_class_fls_bounds :
    (value : ℕ)
    → 0 < value
    → value < 2 ^ 32
    → (2 ^ small_class_fls value ≤ value) × (value < 2 ^ suc (small_class_fls value))
unfolding small_class_fls
small_class_fls_bounds value p h =
    let top : TopBit 32 value = clz-TopBit 32 value p h in
    let below = top.below in
    let e : 32 - 1 - clz 32 value ≡ 31 - clz 32 value = omega arith in
    let e' : suc (31 - clz 32 value) ≡ 32 - clz 32 value = omega arith in
    rw (bit_xor-ones 5 (clz 32 value) below) (rw (← e) top.lower, rw e' top.upper)

pub le_two_pow : (n : ℕ) → n ≤ 2 ^ n
le_two_pow zero = omega arith
le_two_pow (suc n) = omega (arith, two_pow_suc n, le_two_pow n, pow_pos n)

-- The class of a size of `s + 1` blocks, rounded up: `s` below the first doubling, then `2 ^ e`
-- classes for each doubling.
pub data Class (e s : ℕ) : ℕ → Type 0 where
  linear : s < 2 ^ e → Class e s s
  doubled :
      (l q : ℕ)
      → 2 ^ e ≤ q
      → q < 2 * 2 ^ e
      → q * 2 ^ l ≤ s
      → s < suc q * 2 ^ l
      → Class e s (q + l * 2 ^ e)

module _ {g e : ℕ} {sc : SmallClass} (v : IsValid g e sc) (size : ℕ) (small : size ≤ 2 ^ 30) where
  pub significant_lem : significant sc size ≡ (size - (sc.size_shift + 1)) / 2 ^ g
  unfolding significant
  significant_lem =
      let shift = v.size_shift in
      let plus = v.size_shift_plus_1 in
      let count = v.ignore_bits_count in
      let base : (if ltb size (sub32 size (sc.size_shift + 1))
            then 0
            else sub32 size (sc.size_shift + 1))
          ≡ size - (sc.size_shift + 1) =
        ground arith in
      rw (plus, count, base)

  pub doubled-Class :
      (s : ℕ)
      → s ≤ 2 ^ 30
      → 2 ^ e ≤ s
      → let l = small_class_fls (shr s e) in Class e s (add32 (shr s l) (shl32 l e))
  doubled-Class s hs large =
      let e_small = v.e_small in
      let E : ℕ = 2 ^ e in
      let l : ℕ = small_class_fls (shr s e) in
      let some_left : 1 ≤ s / E = (le-div_iff_mul-le (pow_pos e)).1 (omega arith) in
      let high = small_class_fls_bounds (s / E) some_left (omega (arith, div-le_self s E)) in
      let lower : 2 ^ l * E ≤ s = (le-div_iff_mul-le (pow_pos e)).0 high.0 in
      let upper : s < 2 ^ suc l * E = (div-lt_iff_lt-mul (pow_pos e)).0 high.1 in
      let twice : 2 ^ suc l * E ≡ 2 * E * 2 ^ l =
        omega (arith, ap (λ (t : ℕ). t * E) (two_pow_suc l)) in
      let steps : l * E ≤ 2 ^ l * E = mul-le-mul_right E (le_two_pow l) in
      let q_large : E ≤ s / 2 ^ l = (le-div_iff_mul-le (pow_pos l)).1 (omega arith) in
      let q_small : s / 2 ^ l < 2 * E = (div-lt_iff_lt-mul (pow_pos l)).1 (omega arith) in
      let no_wrap : add32 (shr s l) (shl32 l e) ≡ s / 2 ^ l + l * E =
        omega (arith, div-le_self s (2 ^ l)) in
      rw no_wrap (
        doubled l (s / 2 ^ l) q_large q_small (div-mul-le_self s (2 ^ l))
          (omega (arith, lt-div-mul-add {a = s} (pow_pos l))))

  pub offset-Class : Class e (significant sc size) (small_class_calc_offset_by_size sc size)
  unfolding small_class_calc_offset_by_size
  offset-Class =
      let s : ℕ = significant sc size in
      let s_small : s ≤ 2 ^ 30 =
        rw significant_lem (omega (arith, div-le_self (size - (sc.size_shift + 1)) (2 ^ g))) in
      let bits = v.effective_bits in
      let steps = v.effective_size in
      simp (bits, steps)
        (elim (Bool-cases (ltb s (2 ^ e))) [
          | inl below ↦ rw below (linear (ground arith))
          | inr not_below ↦ rw not_below (doubled-Class s s_small (ground arith))
        ])
