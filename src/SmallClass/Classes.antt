-- ===== src/SmallClass/Classes.antt =====
-- The two directions of a size class evaluator fit each other.
use small.Base.{ℕ, suc, ◌+◌, ◌-◌, ◌*◌, ◌^◌, ◌≤◌, ◌<◌, ◌≡◌, inl, inr, arith, ltb, Bool-cases}
use small.SmallClass.{
  SmallClass, significant, small_class_calc_offset_by_size, small_class_calc_size_by_offset,
}
use small.SmallClass.Create.{IsValid}
use small.SmallClass.Blocks.{
  blocks, blocks-linear, blocks-doubling, blocks_mono_le, blocks-lt-suc, le-blocks,
}
use small.SmallClass.Offset.{Class, le_two_pow, linear, doubled, significant_lem, offset-Class}
use small.SmallClass.Size.{size-blocks}
use native.Mathlib.Nat.{div-mul-le_self, lt-div-mul-add, mul-le-mul_right, mul-le-mul_left}
use small.Base.Bits.{pow_pos, two_pow_mono}

-- A class of `s + 1` blocks, rounded up: it has as many, and the class before it has not.
record Holds (e s c : ℕ) : Type 0 where
  enough : suc s ≤ blocks e (suc c)
  least : blocks e c ≤ s
  index : c ≤ 2 * s
  room : blocks e (suc c) ≤ 2 * s + 1

Class-Holds : (e s : ℕ) {c : ℕ} → Class e s c → Holds e s c
Class-Holds e s (linear h) =
    let here = blocks-linear e s (omega arith) in
    let there = blocks-linear e (suc s) h in
    record { enough = omega arith; least = omega arith; index = omega arith; room = omega arith }
Class-Holds e s (doubled l q lo hi below above) =
    let next : suc (q + l * 2 ^ e) ≡ suc q + l * 2 ^ e = omega arith in
    let here = blocks-doubling e l q lo (omega arith) in
    let there : blocks e (suc (q + l * 2 ^ e)) ≡ suc q * 2 ^ l =
      rw next (blocks-doubling e l (suc q) (omega arith) hi) in
    let steps : l * 2 ^ e ≤ 2 ^ l * 2 ^ e = mul-le-mul_right (2 ^ e) (le_two_pow l) in
    let some_q : 1 ≤ q = omega (arith, pow_pos e) in
    let wide : 2 ^ l * 2 ^ e ≤ 2 ^ l * q = mul-le-mul_left (2 ^ l) lo in
    let high : q * 1 ≤ q * 2 ^ l = mul-le-mul_left q (pow_pos l) in
    let step : 1 * 2 ^ l ≤ q * 2 ^ l = mul-le-mul_right (2 ^ l) some_q in
    record { enough = omega arith; least = omega arith; index = omega arith; room = omega arith }

module _ {g e : ℕ} {sc : SmallClass} (v : IsValid g e sc) (size : ℕ) (pos : 1 ≤ size)
    (small : size ≤ 2 ^ 30) where
  -- The class of a size and its size do not wrap.
  offset-fits :
      let cls = small_class_calc_offset_by_size sc size in
      (suc cls < 2 ^ 32) × (blocks e (suc cls) * 2 ^ g < 3 * 2 ^ 30)
  offset-fits =
      let G : ℕ = 2 ^ g in
      let s : ℕ = significant sc size in
      let c : ℕ = small_class_calc_offset_by_size sc size in
      let rest : ℕ = size - (sc.size_shift + 1) in
      let holds : Holds e s c = Class-Holds e s (offset-Class v size small) in
      let g_top : G ≤ 2 ^ 30 = two_pow_mono v.g_small in
      let low : s * G ≤ rest = rw (significant_lem v size small) (div-mul-le_self rest G) in
      let s_small : s * 1 ≤ s * G = mul-le-mul_left s (pow_pos g) in
      let index = holds.index in
      let room : blocks e (suc c) * G ≤ (2 * s + 1) * G = mul-le-mul_right G holds.room in
      (omega arith, omega arith)

  -- The class of a size is large enough for it, and the class before it is not: an allocation gets
  -- the least class size that holds it.
  pub offset-least :
      let cls = small_class_calc_offset_by_size sc size in
      (size ≤ small_class_calc_size_by_offset sc cls)
      × (0 < cls → small_class_calc_size_by_offset sc (cls - 1) < size)
  offset-least =
      let G : ℕ = 2 ^ g in
      let s : ℕ = significant sc size in
      let c : ℕ = small_class_calc_offset_by_size sc size in
      let rest : ℕ = size - (sc.size_shift + 1) in
      let holds : Holds e s c = Class-Holds e s (offset-Class v size small) in
      let shift = v.size_shift in
      let g_top : G ≤ 2 ^ 30 = two_pow_mono v.g_small in
      let low : s * G ≤ rest = rw (significant_lem v size small) (div-mul-le_self rest G) in
      let high : rest < s * G + G =
        rw (significant_lem v size small) (lt-div-mul-add {a = rest} (pow_pos g)) in
      let s_small : s * 1 ≤ s * G = mul-le-mul_left s (pow_pos g) in
      let index = holds.index in
      let room : blocks e (suc c) * G ≤ (2 * s + 1) * G = mul-le-mul_right G holds.room in
      let enough : suc s * G ≤ blocks e (suc c) * G = mul-le-mul_right G holds.enough in
      let least : blocks e c * G ≤ s * G = mul-le-mul_right G holds.least in
      let here = size-blocks v c (omega arith) (omega arith) in
      (
        omega arith,
        λ some_class.
            let back : suc (c - 1) ≡ c = omega arith in
            let there : small_class_calc_size_by_offset sc (c - 1)
                ≡ sc.size_shift + blocks e c * G =
              rw back at (size-blocks v (c - 1) (omega arith) (rw back (omega arith))) in
            omega arith,
      )

not_apart : (a b : ℕ) → ¬ (a < b) → ¬ (b < a) → a ≡ b
not_apart a b p q = ground arith

module _ {g e : ℕ} {sc : SmallClass} (v : IsValid g e sc) where
  -- The sizes of the classes grow with their numbers.
  size-increases :
      (c d : ℕ)
      → c < d
      → suc d < 2 ^ 32
      → blocks e (suc d) * 2 ^ g < 3 * 2 ^ 30
      → small_class_calc_size_by_offset sc c < small_class_calc_size_by_offset sc d
  size-increases c d h small room =
      let below : blocks e (suc c) < blocks e (suc d) =
        omega
          (arith, blocks-lt-suc e (suc c), blocks_mono_le e (suc (suc c)) (suc d) (omega arith)) in
      let wide : suc (blocks e (suc c)) * 2 ^ g ≤ blocks e (suc d) * 2 ^ g =
        mul-le-mul_right (2 ^ g) below in
      omega
        (arith, pow_pos g, size-blocks v c (omega arith) (omega arith), size-blocks v d small room)

  -- Every class size up to 2^30 belongs to its own class.
  pub offset-size :
      (cls : ℕ)
      → sc.size_shift + blocks e (suc cls) * 2 ^ g ≤ 2 ^ 30
      → small_class_calc_offset_by_size sc (small_class_calc_size_by_offset sc cls) ≡ cls
  offset-size cls fits =
      let G : ℕ = 2 ^ g in
      let wide : blocks e (suc cls) * 1 ≤ blocks e (suc cls) * G =
        mul-le-mul_left (blocks e (suc cls)) (pow_pos g) in
      let index : suc cls < 2 ^ 32 = omega (arith, le-blocks e (suc cls)) in
      let size : ℕ = small_class_calc_size_by_offset sc cls in
      let size_lem : size ≡ sc.size_shift + blocks e (suc cls) * G =
        size-blocks v cls index (omega arith) in
      let pos : 1 ≤ size = omega (arith, le-blocks e (suc cls)) in
      let small : size ≤ 2 ^ 30 = omega arith in
      let c : ℕ = small_class_calc_offset_by_size sc size in
      let least = offset-least v size pos small in
      let room = offset-fits v size pos small in
      let shrink : blocks e c * G ≤ blocks e (suc c) * G =
        mul-le-mul_right G (blocks_mono_le e c (suc c) (omega arith)) in
      not_apart c cls
        (λ below. omega (arith, size-increases c cls below index (omega arith), least.0))
        (λ above.
          let back : suc (c - 1) ≡ c = omega arith in
          let before = least.1 (omega arith) in
          elim (Bool-cases (ltb cls (c - 1))) [
            | inl further ↦ omega (
              arith,
              size-increases cls (c - 1) (ground arith) (omega arith) (rw back (omega arith)),
            )
            | inr next ↦ let same : c - 1 ≡ cls = ground arith in omega (arith, rw same at before)
          ])
