-- ===== src/Base/Bits.antt =====
-- Laws of the bit operations at variables, for the masks and shifts that the allocators use.
use Prim.Native.Nat.{digits, differ, bit_and-bitwise, bit_or-bitwise, bit_xor-bitwise}
use native.Mathlib.Nat.{pow-suc, one-le-pow, pow-le-pow_right, div-div-eq-div-mul}
use small.Base.{
  inr, inl, ltb, Bool-cases, ℕ, zero, suc, ◌+◌, ◌-◌, ◌*◌, ◌/◌, ◌%◌, ◌^◌, ◌≤◌, ◌<◌, min, max,
  bit_and, bit_or, bit_xor, ◌≡◌, refl, sym, ap, arith,
}

-- More fuel than the value of the first number changes nothing.
fuel_irrelevant :
    (op : ℕ → ℕ) (f : ℕ → ℕ → ℕ) (a n m b : ℕ)
    → a ≤ n
    → a ≤ m
    → digits op f n a b ≡ digits op f m a b
fuel_irrelevant op f zero zero zero b p q = refl
fuel_irrelevant op f zero zero (suc m) b p q = refl
fuel_irrelevant op f zero (suc n) zero b p q = refl
fuel_irrelevant op f zero (suc n) (suc m) b p q = refl
fuel_irrelevant op f (suc a) zero m b p q = absurd (omega arith)
fuel_irrelevant op f (suc a) (suc n) zero b p q = absurd (omega arith)
fuel_irrelevant op f (suc a) (suc n) (suc m) b p q =
    ap (λ (t : ℕ). t * 2 + f (suc a % 2) (b % 2))
      (fuel_irrelevant op f (suc a / 2) n m (b / 2) (omega arith) (omega arith))

pub bit_and-digit : (a b : ℕ) → bit_and a b ≡ bit_and (a / 2) (b / 2) * 2 + min (a % 2) (b % 2)
bit_and-digit zero b = omega (arith, bit_and-bitwise 0 b, bit_and-bitwise 0 (b / 2))
bit_and-digit (suc a) b = omega (
  arith,
  bit_and-bitwise (suc a) b,
  bit_and-bitwise (suc a / 2) (b / 2),
  fuel_irrelevant (λ b. zero) min (suc a / 2) a (suc a / 2) (b / 2) (omega arith) (omega arith),
)

pub bit_or-digit : (a b : ℕ) → bit_or a b ≡ bit_or (a / 2) (b / 2) * 2 + max (a % 2) (b % 2)
bit_or-digit zero b = omega (arith, bit_or-bitwise 0 b, bit_or-bitwise 0 (b / 2))
bit_or-digit (suc a) b = omega (
  arith,
  bit_or-bitwise (suc a) b,
  bit_or-bitwise (suc a / 2) (b / 2),
  fuel_irrelevant (λ b. b) max (suc a / 2) a (suc a / 2) (b / 2) (omega arith) (omega arith),
)

-- `differ` is the distance of two numbers.
differ_lem : (x y : ℕ) → differ x y ≡ max x y - min x y
differ_lem zero y = omega arith
differ_lem (suc x) zero = omega arith
differ_lem (suc x) (suc y) = omega (arith, differ_lem x y)

pub bit_xor-digit :
    (a b : ℕ)
    → bit_xor a b ≡ bit_xor (a / 2) (b / 2) * 2 + (max (a % 2) (b % 2) - min (a % 2) (b % 2))
bit_xor-digit zero b = omega (arith, bit_xor-bitwise 0 b, bit_xor-bitwise 0 (b / 2))
bit_xor-digit (suc a) b = omega (
  arith,
  bit_xor-bitwise (suc a) b,
  bit_xor-bitwise (suc a / 2) (b / 2),
  differ_lem (suc a % 2) (b % 2),
  fuel_irrelevant (λ b. b) differ (suc a / 2) a (suc a / 2) (b / 2) (omega arith) (omega arith),
)

pub zero-bit_and : (b : ℕ) → bit_and 0 b ≡ 0
zero-bit_and b = bit_and-bitwise 0 b

zero-bit_or : (b : ℕ) → bit_or 0 b ≡ b
zero-bit_or b = bit_or-bitwise 0 b

zero-bit_xor : (b : ℕ) → bit_xor 0 b ≡ b
zero-bit_xor b = bit_xor-bitwise 0 b

-- The bound `n` falls by half in each round.
bit_and-zero_below : (n a : ℕ) → a ≤ n → bit_and a 0 ≡ 0
bit_and-zero_below n zero h = zero-bit_and 0
bit_and-zero_below zero (suc a) h = absurd (omega arith)
bit_and-zero_below (suc n) (suc a) h =
    omega (arith, bit_and-digit (suc a) 0, bit_and-zero_below n (suc a / 2) (omega arith))

pub bit_and-zero : (a : ℕ) → bit_and a 0 ≡ 0
bit_and-zero a = bit_and-zero_below a a (omega arith)

bit_or-zero_below : (n a : ℕ) → a ≤ n → bit_or a 0 ≡ a
bit_or-zero_below n zero h = zero-bit_or 0
bit_or-zero_below zero (suc a) h = absurd (omega arith)
bit_or-zero_below (suc n) (suc a) h =
    omega (arith, bit_or-digit (suc a) 0, bit_or-zero_below n (suc a / 2) (omega arith))

bit_xor-zero_below : (n a : ℕ) → a ≤ n → bit_xor a 0 ≡ a
bit_xor-zero_below n zero h = zero-bit_xor 0
bit_xor-zero_below zero (suc a) h = absurd (omega arith)
bit_xor-zero_below (suc n) (suc a) h =
    omega (arith, bit_xor-digit (suc a) 0, bit_xor-zero_below n (suc a / 2) (omega arith))

pub pow_pos : (k : ℕ) → 1 ≤ 2 ^ k
pow_pos k = one-le-pow k 2 (omega arith)

-- A mask of `k` ones takes the remainder by `2 ^ k`.
mask_step : (k q r : ℕ) → r < 2 ^ k → bit_and (q * 2 ^ k + r) (2 ^ k - 1) ≡ r
mask_step zero q r h = omega (arith, bit_and-zero (q * 1 + r))
mask_step (suc k) q r h = ground (
  arith,
  pow-suc 2 k,
  pow_pos k,
  ap (λ (t : ℕ). q * t) (pow-suc 2 k),
  bit_and-digit (q * 2 ^ suc k + r) (2 ^ suc k - 1),
  mask_step k q (r / 2),
)

pub bit_and-low_mask : (k a : ℕ) → bit_and a (2 ^ k - 1) ≡ a % 2 ^ k
bit_and-low_mask k a = ground (arith, pow_pos k, mask_step k (a / 2 ^ k) (a % 2 ^ k))

pub two_pow_suc : (k : ℕ) → 2 ^ suc k ≡ 2 * 2 ^ k
two_pow_suc k = omega (arith, pow-suc 2 k)

pub two_pow_add : (a b : ℕ) → 2 ^ (a + b) ≡ 2 ^ a * 2 ^ b
two_pow_add zero b = let e : 0 + b ≡ b = omega arith in rw e (omega arith)
two_pow_add (suc a) b =
    let e : suc a + b ≡ suc (a + b) = omega arith in
    rw e (
      omega
        (arith, two_pow_suc (a + b), two_pow_add a b, ap (λ (t : ℕ). t * 2 ^ b) (two_pow_suc a)))

pub two_pow_mono : {a b : ℕ} → a ≤ b → 2 ^ a ≤ 2 ^ b
two_pow_mono h = pow-le-pow_right (omega arith) h

pub two_pow_lt : (a b : ℕ) → a < b → 2 ^ a < 2 ^ b
two_pow_lt a b h =
    let more : 2 ^ suc a ≤ 2 ^ b = two_pow_mono h in omega (arith, two_pow_suc a, pow_pos a, more)

-- A smaller power is a power with a smaller exponent.
pub two_pow_reflects : {a b : ℕ} → 2 ^ a < 2 ^ b → a < b
two_pow_reflects {a} {b} h = elim (Bool-cases (ltb a b)) [
  | inl less ↦ ground arith
  | inr more ↦ absurd (omega (arith, two_pow_mono {a = b} {b = a} (ground arith)))
]

-- One more place to shift by is one more halving.
pub div_two_pow_suc : (k a : ℕ) → a / 2 ^ suc k ≡ a / 2 / 2 ^ k
div_two_pow_suc k a = rw two_pow_suc (sym (div-div-eq-div-mul a 2 (2 ^ k)))

-- A mask that drops the `k` lowest of `m + k` bits.
pub bit_and-high_mask : (m k a : ℕ) → bit_and a ((2 ^ m - 1) * 2 ^ k) ≡ a / 2 ^ k % 2 ^ m * 2 ^ k
bit_and-high_mask m zero a =
    let e : (2 ^ m - 1) * 1 ≡ 2 ^ m - 1 = omega arith in
    let e' : a / 1 ≡ a = omega arith in rw (e, e') (omega (arith, bit_and-low_mask m a))
bit_and-high_mask m (suc k) a = ground (
  arith,
  ap (λ (t : ℕ). (2 ^ m - 1) * t) (two_pow_suc k),
  ap (λ (t : ℕ). a / 2 ^ suc k % 2 ^ m * t) (two_pow_suc k),
  bit_and-digit a ((2 ^ m - 1) * 2 ^ suc k),
  bit_and-high_mask m k (a / 2),
  div_two_pow_suc k a,
)

-- Fields that do not overlap are joined by `|` as by a sum.
pub bit_or-disjoint : (k q r : ℕ) → r < 2 ^ k → bit_or (q * 2 ^ k) r ≡ q * 2 ^ k + r
bit_or-disjoint zero q r h = ground (arith, bit_or-zero_below (q * 1) (q * 1))
bit_or-disjoint (suc k) q r h = ground (
  arith,
  bit_or-digit (q * 2 ^ suc k) r,
  ap (λ (t : ℕ). q * t) (two_pow_suc k),
  two_pow_suc k,
  bit_or-disjoint k q (r / 2),
)

-- `^` on aligned numbers acts on the quotients.
pub bit_xor-scale : (k p q : ℕ) → bit_xor (p * 2 ^ k) (q * 2 ^ k) ≡ bit_xor p q * 2 ^ k
bit_xor-scale zero p q =
    let e : p * 1 ≡ p = omega arith in let e' : q * 1 ≡ q = omega arith in rw (e, e') (omega arith)
bit_xor-scale (suc k) p q = ground (
  arith,
  ap (λ (t : ℕ). p * t) (two_pow_suc k),
  ap (λ (t : ℕ). q * t) (two_pow_suc k),
  ap (λ (t : ℕ). bit_xor p q * t) (two_pow_suc k),
  bit_xor-digit (p * 2 ^ suc k) (q * 2 ^ suc k),
  bit_xor-scale k p q,
)

pub bit_xor-one : (a : ℕ) → bit_xor a 1 ≡ a / 2 * 2 + (1 - a % 2)
bit_xor-one a = ground (arith, bit_xor-digit a 1, bit_xor-zero_below (a / 2) (a / 2))

pub bit_or-disjoint_left : (k q r : ℕ) → r < 2 ^ k → bit_or r (q * 2 ^ k) ≡ r + q * 2 ^ k
bit_or-disjoint_left zero q r h =
    let e : r ≡ 0 = omega arith in rw e (omega (arith, zero-bit_or (q * 1)))
bit_or-disjoint_left (suc k) q r h = ground (
  arith,
  bit_or-digit r (q * 2 ^ suc k),
  ap (λ (t : ℕ). q * t) (two_pow_suc k),
  two_pow_suc k,
  bit_or-disjoint_left k q (r / 2),
)

pub bit_or-zero : (a : ℕ) → bit_or a 0 ≡ a
bit_or-zero a = bit_or-zero_below a a (omega arith)

-- `^` with `k` ones turns a number of `k` bits round.
pub bit_xor-ones : (k c : ℕ) → c < 2 ^ k → bit_xor (2 ^ k - 1) c ≡ 2 ^ k - 1 - c
bit_xor-ones zero c h = let e : c ≡ 0 = omega arith in rw e (zero-bit_xor 0)
bit_xor-ones (suc k) c h =
    ground
      (arith, two_pow_suc k, pow_pos k, bit_xor-digit (2 ^ suc k - 1) c, bit_xor-ones k (c / 2))
