-- ===== src/Matras/Shape.antt =====
-- How the number of a block is taken apart.
use mathlib.Core.Path.{subst}
use native.Mathlib.Nat.{
  mod-eq_of_lt, mod-mod_of_dvd, dvd-mul_left, div-eq_of_lt-le, div-add-mod', mod-lt,
}
use small.Base.{
  ℕ, zero, suc, ◌+◌, ◌-◌, ◌*◌, ◌/◌, ◌%◌, ◌^◌, ◌≤◌, ◌<◌, bit_and, ◌≡◌, refl, sym, ap, ◌∙◌, ◌≢◌,
  arith,
}
use small.Base.Bits.{bit_and-low_mask, two_pow_add, pow_pos}
use small.Matras.{Extents, Matras, part1, part2, part3}

-- The masks are those of the shifts.
pub record IsShaped {E : Extents} (m : Matras E) : Type 0 where
  pub mask1_is : m.mask1 ≡ 2 ^ m.shift1 - 1
  pub mask2_is : m.mask2 ≡ 2 ^ m.shift2 - 1
  pub order : m.shift2 ≤ m.shift1
  pub small : m.capacity ≤ 2 ^ 32

nonzero : (a : ℕ) → a ≢ 0 → 1 ≤ a
nonzero zero h = absurd (h refl)
nonzero (suc a) h = omega arith

same_div_mod : (a b n : ℕ) → a / n ≡ b / n → a % n ≡ b % n → a ≡ b
same_div_mod a b n q r =
    sym (div-add-mod' a n)
    ∙ ap (λ (t : ℕ). t * n + a % n) q
    ∙ ap (λ (t : ℕ). b / n * n + t) r
    ∙ div-add-mod' b n

-- The low bits of the low bits.
pub mod-mod_two_pow : (a s t : ℕ) → t ≤ s → a % 2 ^ s % 2 ^ t ≡ a % 2 ^ t
mod-mod_two_pow a s t h =
    let split : s - t + t ≡ s = omega arith in
    let e : 2 ^ (s - t) * 2 ^ t ≡ 2 ^ s =
      sym (two_pow_add (s - t) t) ∙ ap (λ (k : ℕ). 2 ^ k) split in
    subst (λ (n : ℕ). a % n % 2 ^ t ≡ a % 2 ^ t) e
      (mod-mod_of_dvd (2 ^ t) a (dvd-mul_left (2 ^ t) (2 ^ (s - t))))

-- A multiple of `n` has a larger quotient than the numbers before it.
before_multiple : (n i k : ℕ) → k % n ≡ 0 → i < k → i / n ≢ k / n
before_multiple n i k e less same =
    absurd (omega (arith, div-add-mod' i n, div-add-mod' k n, ap (λ (t : ℕ). t * n) same))

-- A number that is no multiple has the quotient of the number before it.
after_no_multiple : (n i : ℕ) → 0 < n → suc i % n ≢ 0 → i / n ≡ suc i / n
after_no_multiple n i pos h =
    let whole = div-add-mod' (suc i) n in
    let below = mod-lt (suc i) pos in
    let some_left : 1 ≤ suc i % n = nonzero (suc i % n) h in
    div-eq_of_lt-le {k = suc i / n} n (omega arith) (omega arith)

module _ {E : Extents} (m : Matras E) (v : IsShaped m) (id : ℕ) where
  pub low1 : bit_and id m.mask1 ≡ id % 2 ^ m.shift1
  low1 = ap (λ (t : ℕ). bit_and id t) v.mask1_is ∙ bit_and-low_mask m.shift1 id

  pub low2 : bit_and id m.mask2 ≡ id % 2 ^ m.shift2
  low2 = ap (λ (t : ℕ). bit_and id t) v.mask2_is ∙ bit_and-low_mask m.shift2 id

-- A block has one number.
pub parts-injective :
    {E : Extents} (m : Matras E)
    → IsShaped m
    → (i j : ℕ) → part1 m i ≡ part1 m j
    → part2 m i ≡ part2 m j
    → part3 m i ≡ part3 m j
    → i ≡ j
parts-injective m v i j e1 e2 e3 = let low = e2' in same_div_mod i j (2 ^ m.shift1) e1 low
  where
    e2' : i % 2 ^ m.shift1 ≡ j % 2 ^ m.shift1
    e2' =
        same_div_mod (i % 2 ^ m.shift1) (j % 2 ^ m.shift1) (2 ^ m.shift2)
          (ap (λ (t : ℕ). t / 2 ^ m.shift2) (sym (low1 m v i))
            ∙ e2
            ∙ ap (λ (t : ℕ). t / 2 ^ m.shift2) (low1 m v j))
          (mod-mod_two_pow i m.shift1 m.shift2 v.order
            ∙ sym (low2 m v i)
            ∙ e3
            ∙ low2 m v j
            ∙ sym (mod-mod_two_pow j m.shift1 m.shift2 v.order))

-- A number before the first of an extent of the second level is in an earlier one.
pub before_mid :
    {E : Extents} (m : Matras E)
    → IsShaped m
    → (i id : ℕ) → bit_and id m.mask1 ≡ 0
    → i < id
    → part1 m i ≢ part1 m id
before_mid m v i id e less = before_multiple (2 ^ m.shift1) i id (sym (low1 m v id) ∙ e) less

-- A number before the first of an extent of the third level is in an earlier one.
pub before_leaf :
    {E : Extents} (m : Matras E)
    → IsShaped m
    → (i id : ℕ) → bit_and (bit_and id m.mask1) m.mask2 ≡ 0
    → i < id
    → part1 m i ≡ part1 m id
    → part2 m i ≢ part2 m id
before_leaf m v i id e less same = λ same2.
    let whole = div-add-mod' i (2 ^ m.shift1) in
    let whole' = div-add-mod' id (2 ^ m.shift1) in
    let q = ap (λ (t : ℕ). t * 2 ^ m.shift1) same in
    let lower : i % 2 ^ m.shift1 < id % 2 ^ m.shift1 = omega arith in
    before_multiple (2 ^ m.shift2) (i % 2 ^ m.shift1) (id % 2 ^ m.shift1)
      (ap (λ (t : ℕ). t % 2 ^ m.shift2) (sym (low1 m v id))
        ∙ sym (low2 m v (bit_and id m.mask1))
        ∙ e)
      lower
      (ap (λ (t : ℕ). t / 2 ^ m.shift2) (sym (low1 m v i))
        ∙ same2
        ∙ ap (λ (t : ℕ). t / 2 ^ m.shift2) (low1 m v id))

-- The number before one that is not the first of an extent of the second level is in the same one.
pub same_mid :
    {E : Extents} (m : Matras E)
    → IsShaped m
    → (id : ℕ) → bit_and (suc id) m.mask1 ≢ 0
    → part1 m id ≡ part1 m (suc id)
same_mid m v id h =
    after_no_multiple (2 ^ m.shift1) id (pow_pos m.shift1) (λ e. h (low1 m v (suc id) ∙ e))

-- The same for the third level.
pub same_leaf :
    {E : Extents} (m : Matras E)
    → IsShaped m
    → (id : ℕ) → bit_and (bit_and (suc id) m.mask1) m.mask2 ≢ 0
    → (part1 m id ≡ part1 m (suc id)) × (part2 m id ≡ part2 m (suc id))
same_leaf m v id h =
    let low : suc id % 2 ^ m.shift1 % 2 ^ m.shift2 ≢ 0 = λ e. h (
      low2 m v (bit_and (suc id) m.mask1)
      ∙ ap (λ (t : ℕ). t % 2 ^ m.shift2) (low1 m v (suc id))
      ∙ e) in
    let mid =
      after_no_multiple (2 ^ m.shift1) id (pow_pos m.shift1)
        (λ e. low (ap (λ (t : ℕ). t % 2 ^ m.shift2) e ∙ mod-eq_of_lt (pow_pos m.shift2))) in
    let whole = div-add-mod' id (2 ^ m.shift1) in
    let whole' = div-add-mod' (suc id) (2 ^ m.shift1) in
    let q = ap (λ (t : ℕ). t * 2 ^ m.shift1) mid in
    let next : suc (id % 2 ^ m.shift1) ≡ suc id % 2 ^ m.shift1 = omega arith in
    let leaf =
      after_no_multiple (2 ^ m.shift2) (id % 2 ^ m.shift1) (pow_pos m.shift2)
        (λ e. low (ap (λ (t : ℕ). t % 2 ^ m.shift2) (sym next) ∙ e)) in
    (
      mid,
      ap (λ (t : ℕ). t / 2 ^ m.shift2) (low1 m v id)
          ∙ leaf
          ∙ ap (λ (t : ℕ). t / 2 ^ m.shift2) (next ∙ sym (low1 m v (suc id))),
    )
