-- ===== src/SmallClass/Size.antt =====
-- `small_class_calc_size_by_offset`: the size of a class.
use small.Base.{
  ℕ, suc, ◌+◌, ◌-◌, ◌*◌, ◌/◌, ◌%◌, ◌^◌, ◌≤◌, ◌<◌, bit_or, ◌≡◌, inl, inr, arith, ◌==◌, Bool-cases,
}
use small.SmallClass.{SmallClass, small_class_calc_size_by_offset}
use small.SmallClass.Create.{IsValid}
use small.SmallClass.Blocks.{blocks}
use small.Base.Bits.{bit_and-low_mask, bit_or-disjoint_left, pow_pos}
use native.Mathlib.Nat.{mul-le-mul_left, mod-lt}
use small.Base.Words.{add32, shl32}

or_step : (e r : ℕ) → r < 2 ^ e → bit_or r (2 ^ e) ≡ r + 2 ^ e
or_step e r h =
    let one : 1 * 2 ^ e ≡ 2 ^ e = omega arith in rw one at (bit_or-disjoint_left e 1 r h)

le-mul-two_pow : (a k : ℕ) → a ≤ a * 2 ^ k
le-mul-two_pow a k = omega (arith, mul-le-mul_left a (pow_pos k))

-- Two shifts of a word whose result fits lose nothing.
shift_twice : (a l g : ℕ) → a * 2 ^ l * 2 ^ g < 3 * 2 ^ 30 → shl32 (shl32 a l) g ≡ a * 2 ^ l * 2 ^ g
shift_twice a l g h =
    let first : shl32 a l ≡ a * 2 ^ l = omega (arith, le-mul-two_pow (a * 2 ^ l) g) in
    rw first (omega arith)

module _ {g e : ℕ} {sc : SmallClass} (v : IsValid g e sc) where
  -- Where the size fits, it is the shift and the class's blocks.
  pub size-blocks :
      (cls : ℕ)
      → suc cls < 2 ^ 32
      → blocks e (suc cls) * 2 ^ g < 3 * 2 ^ 30
      → small_class_calc_size_by_offset sc cls ≡ sc.size_shift + blocks e (suc cls) * 2 ^ g
  unfolding small_class_calc_size_by_offset blocks
  size-blocks cls small fits =
      let n : add32 cls 1 ≡ suc cls = omega arith in
      let shift = v.size_shift in
      let count = v.ignore_bits_count in
      let bits = v.effective_bits in
      let steps = v.effective_size in
      let mask = v.effective_mask in
      let low = bit_and-low_mask e (suc cls) in
      let joined = or_step e (suc cls % 2 ^ e) (mod-lt (suc cls) (pow_pos e)) in
      simp (n, bits, mask, steps, count, low, joined)
        (elim (Bool-cases (suc cls / 2 ^ e == 0)) [
          | inl first ↦
              let quotient : suc cls / 2 ^ e ≡ 0 = ground arith in
              let room : suc cls % 2 ^ e * 2 ^ g < 3 * 2 ^ 30 = rw first at fits in
              let kept = shift_twice (suc cls % 2 ^ e) 0 g (omega arith) in
              rw (first, quotient) (omega (arith, kept))
          | inr later ↦
              let l : ℕ = suc cls / 2 ^ e - 1 in
              let r : ℕ = suc cls % 2 ^ e + 2 ^ e in
              let room : r * 2 ^ l * 2 ^ g < 3 * 2 ^ 30 = rw later at fits in
              let kept = shift_twice r l g room in rw later (omega (arith, kept))
        ])
