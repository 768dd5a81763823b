-- ===== src/Base/Words.antt =====
-- Arithmetic of `size_t`, `uint64_t` and `unsigned`, with the wrap-around written out, and the
-- builtin that counts leading zeros.
use small.Base.Bits.{two_pow_suc}
use small.Base.{
  refl, true, ◌==◌, ℕ, zero, suc, ◌+◌, ◌-◌, ◌*◌, ◌/◌, ◌%◌, ◌^◌, ◌≤◌, ◌<◌, ◌≡◌, arith, ltb,
  if◌then◌else◌, Bool-cases, inl, inr,
}

-- `SIZE_MAX`, and `UINT32_MAX`.
abbrev pub size_max : ℕ
size_max = 2 ^ 64 - 1

abbrev pub uint32_max : ℕ
uint32_max = 2 ^ 32 - 1

abbrev pub add64 : ℕ → ℕ → ℕ
add64 a b = (a + b) % 2 ^ 64

abbrev pub sub64 : ℕ → ℕ → ℕ
sub64 a b = (a + 2 ^ 64 - b) % 2 ^ 64

abbrev pub mul64 : ℕ → ℕ → ℕ
mul64 a b = a * b % 2 ^ 64

-- `~ a`
abbrev pub not64 : ℕ → ℕ
not64 a = 2 ^ 64 - 1 - a

-- `a << k` and `a >> k`
abbrev pub shl64 : ℕ → ℕ → ℕ
shl64 a k = a * 2 ^ k % 2 ^ 64

abbrev pub shr : ℕ → ℕ → ℕ
shr a k = a / 2 ^ k

abbrev pub add32 : ℕ → ℕ → ℕ
add32 a b = (a + b) % 2 ^ 32

abbrev pub sub32 : ℕ → ℕ → ℕ
sub32 a b = (a + 2 ^ 32 - b) % 2 ^ 32

abbrev pub shl32 : ℕ → ℕ → ℕ
shl32 a k = a * 2 ^ k % 2 ^ 32

-- A conversion to `uint32_t`.
abbrev pub to_u32 : ℕ → ℕ
to_u32 a = a % 2 ^ 32

-- The leading zeros of a word of `w` bits: `__builtin_clz` at 32 and `__builtin_clzl` at 64.
unfoldable pub clz : ℕ → ℕ → ℕ
clz zero x = 0
clz (suc w) x = if ltb x (2 ^ w) then suc (clz w x) else 0

-- The highest set bit of a nonzero word stands right below the leading zeros.
pub record TopBit (w x : ℕ) : Type 0 where
  pub below : clz w x < w
  pub lower : 2 ^ (w - 1 - clz w x) ≤ x
  pub upper : x < 2 ^ (w - clz w x)

pub clz-TopBit : (w x : ℕ) → 0 < x → x < 2 ^ w → TopBit w x
unfolding clz
clz-TopBit zero x p h = absurd (omega arith)
clz-TopBit (suc w) x p h = elim (Bool-cases (ltb x (2 ^ w))) [
  | inl small ↦
      let ih : TopBit w x = clz-TopBit w x p (ground arith) in
      let below = ih.below in
      let e : suc w - 1 - suc (clz w x) ≡ w - 1 - clz w x = omega arith in
      let e' : suc w - suc (clz w x) ≡ w - clz w x = omega arith in
      record {
        below = rw small (omega arith);
        lower = rw (small, e) ih.lower;
        upper = rw (small, e') ih.upper;
      }
  | inr large ↦
      let e : suc w - 1 - 0 ≡ w = omega arith in
      let e' : suc w - 0 ≡ suc w = omega arith in
      record {
        below = rw large (omega arith);
        lower = rw (large, e) (ground arith);
        upper = rw (large, e') h;
      }
]

-- The trailing zeros of a nonzero word of `w` bits: `__builtin_ctz` at 32.
unfoldable pub ctz : ℕ → ℕ → ℕ
ctz zero x = 0
ctz (suc w) x = if x % 2 == 0 then suc (ctz w (x / 2)) else 0

pub ctz-two_pow : (w k : ℕ) → k < w → ctz w (2 ^ k) ≡ k
unfolding ctz
ctz-two_pow zero k h = absurd (omega arith)
ctz-two_pow (suc w) zero h = refl
ctz-two_pow (suc w) (suc k) h =
    let half : 2 ^ suc k / 2 ≡ 2 ^ k = omega (arith, two_pow_suc k) in
    let even : (2 ^ suc k % 2 == 0) ≡ true = ground (arith, two_pow_suc k) in
    rw (even, half, ctz-two_pow w k (omega arith))
