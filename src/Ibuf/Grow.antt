-- ===== src/Ibuf/Grow.antt =====
-- The loop that doubles the capacity of an input buffer.
use small.Base.Bits.{two_pow_suc}
use small.Base.{
  ℕ, zero, suc, ◌*◌, ◌^◌, ◌≤◌, ◌<◌, ◌≡◌, ap, ◌∙◌, refl, ◌⊎◌, inl, inr, arith, ltb, Bool-cases,
}
use small.Base.Words.{mul64}
use small.Ibuf.{grow}

-- The least of the capacities `first`, `2 * first`, `4 * first` and so on that is enough.
pub record IsLeast (needed first capacity : ℕ) : Type 0 where
  pub doublings : ℕ
  pub doubled : capacity ≡ first * 2 ^ doublings
  pub enough : needed ≤ capacity
  pub least : (doublings ≡ 0) ⊎ (capacity < 2 * needed)

once_more : (capacity k : ℕ) → 2 * capacity * 2 ^ k ≡ capacity * 2 ^ suc k
once_more capacity k = omega (arith, ap (λ (t : ℕ). capacity * t) (two_pow_suc k))

-- From a capacity that is not 0, `grow` reaches what is needed, if that is at most 2^63, and does
-- not go further than double.
pub grow_enough :
    (fuel needed capacity : ℕ)
    → 1 ≤ capacity
    → needed ≤ 2 ^ 63
    → needed < capacity * 2 ^ fuel
    → IsLeast needed capacity (grow fuel needed capacity)
unfolding grow
grow_enough zero needed capacity pos small enough = record {
  doublings = 0;
  doubled = omega arith;
  enough = omega arith;
  least = inl refl;
}
grow_enough (suc fuel) needed capacity pos small enough = elim (Bool-cases (ltb capacity needed)) [
  | inl less ↦
      let double : mul64 capacity 2 ≡ 2 * capacity = ground arith in
      let below : capacity < needed = ground arith in
      let later =
        grow_enough fuel needed (2 * capacity) (omega arith) small
          (omega (arith, ap (λ (t : ℕ). capacity * t) (two_pow_suc fuel))) in
      rw (less, double)
        (record {
          doublings = suc later.doublings;
          doubled = later.doubled ∙ once_more capacity later.doublings;
          enough = later.enough;
          least = inr (elim later.least [
            | inl none_more ↦
                (let once = later.doubled ∙ ap (λ (k : ℕ). 2 * capacity * 2 ^ k) none_more in
                  let same : 2 * capacity * 2 ^ 0 ≡ 2 * capacity = omega arith in
                  omega (arith, once, same))
            | inr less ↦ less
          ]);
        })
  | inr more ↦
      rw more
        (record { doublings = 0; doubled = omega arith; enough = ground arith; least = inl refl })
]
