-- ===== src/SmallClass/Blocks.antt =====
-- Size classes as plain arithmetic, in blocks of the granularity and without overflow.
use small.Base.{
  zero, ℕ, suc, ◌+◌, ◌-◌, ◌*◌, ◌/◌, ◌%◌, ◌^◌, ◌≤◌, ◌<◌, ◌≡◌, ap, ◌∙◌, inl, inr, false, arith, ltb,
  ◌==◌, if◌then◌else◌, Bool-cases,
}
use small.Base.Bits.{pow_pos, two_pow_suc}
use native.Mathlib.Nat.{
  add-mul-div_right, mod-lt, div-add-mod, div-eq_of_lt, mod-eq_of_lt, mod-eq_of_lt,
  add-mul-mod_self_right,
}

-- The blocks of the class before which `n` classes stand, itself counted, with `2 ^ e` steps to
-- each doubling.
unfoldable pub blocks : (e n : ℕ) → ℕ
blocks e n = if n / 2 ^ e == 0 then n % 2 ^ e else (n % 2 ^ e + 2 ^ e) * 2 ^ (n / 2 ^ e - 1)

div_mod_unique : (a b q r : ℕ) → r < b → a ≡ r + q * b → (a / b ≡ q) × (a % b ≡ r)
div_mod_unique a b q r h e =
    let pos : 0 < b = omega arith in
    rw e (
      omega (arith, add-mul-div_right r q pos, div-eq_of_lt h),
      add-mul-mod_self_right r q b ∙ mod-eq_of_lt h,
    )

-- The value at a quotient `suc q`.
blocks-suc : (e n q r : ℕ) → r < 2 ^ e → n ≡ r + suc q * 2 ^ e → blocks e n ≡ (r + 2 ^ e) * 2 ^ q
unfolding blocks
blocks-suc e n q r h eq =
    let d = div_mod_unique n (2 ^ e) (suc q) r h eq in
    let q' : suc q - 1 ≡ q = omega arith in
    let ne : (suc q == 0) ≡ false = ground arith in rw (d.0, d.1, ne, q')

-- Up to the first doubling the classes grow by one block.
pub blocks-linear : (e n : ℕ) → n ≤ 2 ^ e → blocks e n ≡ n
unfolding blocks
blocks-linear e n h = elim (Bool-cases (ltb n (2 ^ e))) [
  | inl below ↦ let less : n < 2 ^ e = ground arith in rw (div-eq_of_lt less, mod-eq_of_lt less)
  | inr not_below ↦
      let top : n ≡ 0 + 1 * 2 ^ e = ground arith in blocks-suc e n 0 0 (pow_pos e) top ∙ omega arith
]

-- Then by `2 ^ l` blocks, from `2 ^ e * 2 ^ l` on.
pub blocks-doubling : (e l p : ℕ) → 2 ^ e ≤ p → p ≤ 2 * 2 ^ e → blocks e (p + l * 2 ^ e) ≡ p * 2 ^ l
blocks-doubling e l p lo hi = elim (Bool-cases (ltb p (2 * 2 ^ e))) [
  | inl below ↦
      let less : p - 2 ^ e < 2 ^ e = ground arith in
      let back : p - 2 ^ e + 2 ^ e ≡ p = omega arith in
      blocks-suc e (p + l * 2 ^ e) l (p - 2 ^ e) less (omega arith) ∙ ap (λ (t : ℕ). t * 2 ^ l) back
  | inr not_below ↦
      let top : p ≡ 2 * 2 ^ e = ground arith in
      blocks-suc e (p + l * 2 ^ e) (suc l) 0 (pow_pos e) (omega arith)
      ∙ omega (arith, top, ap (λ (t : ℕ). 2 ^ e * t) (two_pow_suc l), ap (λ (t : ℕ). t * 2 ^ l) top)
]

doubling_step :
    (e n r q : ℕ) → r < 2 ^ e → n ≡ r + 2 ^ e + q * 2 ^ e → blocks e n < blocks e (suc n)
doubling_step e n r q small parts =
    let next : suc n ≡ suc (r + 2 ^ e) + q * 2 ^ e = omega arith in
    let there = blocks-doubling e q (suc (r + 2 ^ e)) (omega arith) (omega arith) in
    let one_more : (r + 2 ^ e) * 2 ^ q < suc (r + 2 ^ e) * 2 ^ q = omega (arith, pow_pos q) in
    rw (next, there, parts, blocks-doubling e q (r + 2 ^ e) (omega arith) (omega arith)) one_more

-- Each class is larger than the one before it.
pub blocks-lt-suc : (e n : ℕ) → blocks e n < blocks e (suc n)
blocks-lt-suc e n = elim (Bool-cases (ltb n (2 ^ e))) [
  | inl below ↦
      let less : n < 2 ^ e = ground arith in
      rw (blocks-linear e n (omega arith), blocks-linear e (suc n) less) (omega arith)
  | inr not_below ↦
      let above : 2 ^ e ≤ n = ground arith in
      let m : ℕ = n - 2 ^ e in
      doubling_step e n (m % 2 ^ e) (m / 2 ^ e) (mod-lt m (pow_pos e))
        (omega (arith, div-add-mod m (2 ^ e)))
]

pub blocks_mono : (e d n : ℕ) → blocks e n ≤ blocks e (n + d)
blocks_mono e zero n = let same : n + 0 ≡ n = omega arith in rw same (omega arith)
blocks_mono e (suc d) n =
    let next : n + suc d ≡ suc (n + d) = omega arith in
    rw next (omega (arith, blocks_mono e d n, blocks-lt-suc e (n + d)))

pub blocks_mono_le : (e n m : ℕ) → n ≤ m → blocks e n ≤ blocks e m
blocks_mono_le e n m h =
    let whole : n + (m - n) ≡ m = omega arith in rw whole at (blocks_mono e (m - n) n)

pub le-blocks : (e n : ℕ) → n ≤ blocks e n
le-blocks e zero = omega arith
le-blocks e (suc n) = omega (arith, le-blocks e n, blocks-lt-suc e n)
