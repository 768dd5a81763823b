-- ===== src/Matras/Rows.antt =====
-- Blocks that are in one row: their numbers differ in the slot of the third level only.
use mathlib.Core.Path.{subst}
use native.Mathlib.Nat.{
  dvd-mul_left, mod-eq-zero_of_dvd, mul-le-mul_right, mod-mod_of_dvd, dvd_of_mod-eq-zero,
  div-eq_of_lt-le, div-add-mod', mod-lt, lt_of_mul-lt-mul_right,
}
use small.Base.{ℕ, ◌+◌, ◌-◌, ◌*◌, ◌/◌, ◌%◌, ◌^◌, ◌≤◌, ◌<◌, bit_and, ◌≡◌, sym, ap, ◌∙◌, arith}
use small.Base.Bits.{two_pow_add, pow_pos}
use small.Matras.{Extents, Matras, part1, part2, part3}
use small.Matras.Lookup.{IsAt}
use small.Matras.Stock.{Place, mid, leaf}
use small.Matras.Shape.{mod-mod_two_pow, IsShaped, low1, low2}

-- A row that starts at a multiple of its length does not leave the extent.
pub row_fits : (n id t : ℕ) → 0 < t → id % n ≡ 0 → t % n ≡ 0 → id % t + n ≤ t
row_fits n id t pos h1 h2 =
    let low : id % t % n ≡ 0 = mod-mod_of_dvd n id (dvd_of_mod-eq-zero n h2) ∙ h1 in
    let whole = div-add-mod' (id % t) n in
    let whole' = div-add-mod' t n in
    let below = mod-lt id pos in
    let fewer : id % t / n < t / n = lt_of_mul-lt-mul_right n (omega arith) in
    let more = mul-le-mul_right n fewer in omega arith

pub row_div : (t id j : ℕ) → id % t + j < t → (id + j) / t ≡ id / t
row_div t id j h =
    let whole = div-add-mod' id t in div-eq_of_lt-le {k = id / t} t (omega arith) (omega arith)

pub row_mod : (t id j : ℕ) → id % t + j < t → (id + j) % t ≡ id % t + j
row_mod t id j h =
    let whole = div-add-mod' id t in
    let whole' = div-add-mod' (id + j) t in
    let q = ap (λ (k : ℕ). k * t) (row_div t id j h) in omega arith

-- A row of an extent of the third level does not leave the extent of the second.
pub row_inside : (t s id j : ℕ) → 0 < s → s % t ≡ 0 → id % t + j < t → id % s + j < s
row_inside t s id j pos h less =
    let low : id % s % t ≡ id % t = mod-mod_of_dvd t id (dvd_of_mod-eq-zero t h) in
    let whole = div-add-mod' (id % s) t in
    let whole' = div-add-mod' s t in
    let below = mod-lt id pos in
    let fewer : id % s / t < s / t = lt_of_mul-lt-mul_right t (omega arith) in
    let more = mul-le-mul_right t fewer in omega arith

two_pow_mod : (s t : ℕ) → t ≤ s → 2 ^ s % 2 ^ t ≡ 0
two_pow_mod s t h =
    let split : s - t + t ≡ s = omega arith in
    let e : 2 ^ (s - t) * 2 ^ t ≡ 2 ^ s =
      sym (two_pow_add (s - t) t) ∙ ap (λ (k : ℕ). 2 ^ k) split in
    subst (λ (n : ℕ). n % 2 ^ t ≡ 0) e
      (mod-eq-zero_of_dvd (2 ^ t) (dvd-mul_left (2 ^ t) (2 ^ (s - t))))

module _ {E : Extents} (m : Matras E) (v : IsShaped m) (id j : ℕ)
    (fits : id % 2 ^ m.shift2 + j < 2 ^ m.shift2) where
  inside : id % 2 ^ m.shift1 + j < 2 ^ m.shift1
  inside =
      row_inside (2 ^ m.shift2) (2 ^ m.shift1) id j (pow_pos m.shift1)
        (two_pow_mod m.shift1 m.shift2 v.order) fits

  pub row_part1 : part1 m (id + j) ≡ part1 m id
  row_part1 = row_div (2 ^ m.shift1) id j inside

  pub row_part2 : part2 m (id + j) ≡ part2 m id
  row_part2 =
      let low = mod-mod_two_pow id m.shift1 m.shift2 v.order in
      ap (λ (t : ℕ). t / 2 ^ m.shift2) (low1 m v (id + j) ∙ row_mod (2 ^ m.shift1) id j inside)
      ∙ row_div (2 ^ m.shift2) (id % 2 ^ m.shift1) j (omega arith)
      ∙ ap (λ (t : ℕ). t / 2 ^ m.shift2) (sym (low1 m v id))

  pub row_part3 : part3 m (id + j) ≡ bit_and (bit_and id m.mask1) m.mask2 + j
  row_part3 =
      let low = mod-mod_two_pow id m.shift1 m.shift2 v.order in
      low2 m v (id + j)
      ∙ row_mod (2 ^ m.shift2) id j fits
      ∙ ap (λ (t : ℕ). t + j)
          (sym low
            ∙ ap (λ (t : ℕ). t % 2 ^ m.shift2) (sym (low1 m v id))
            ∙ sym (low2 m v (bit_and id m.mask1)))

  -- The blocks of a row stand at their places when one does.
  pub row_IsAt :
      (cells : ℕ → ℕ → ℕ) (root : ℕ) (place : ℕ → Place)
      → IsAt m cells place root id
      → IsAt m cells place root (id + j)
  row_IsAt cells root place at = (
    at.0,
    ap (λ (t : ℕ). place (cells root t)) row_part1 ∙ at.1 ∙ ap mid (sym row_part1),
    ap (λ (t : ℕ). place (cells (cells root t) (part2 m (id + j)))) row_part1
        ∙ ap (λ (t : ℕ). place (cells (cells root (part1 m id)) t)) row_part2
        ∙ at.2
        ∙ ap (λ (t : ℕ). leaf t (part2 m id)) (sym row_part1)
        ∙ ap (λ (t : ℕ). leaf (part1 m (id + j)) t) (sym row_part2),
  )
