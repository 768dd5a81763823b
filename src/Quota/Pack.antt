-- ===== src/Quota/Pack.antt =====
-- The word of a quota as a pair of a limit and an amount in use, and the rounds of its loops on it.
use native.Mathlib.Nat.{mod-eq_of_lt}
use small.Base.{
  ℕ, ◌+◌, ◌-◌, ◌*◌, ◌/◌, ◌%◌, ◌^◌, ◌≤◌, ◌<◌, ◌≡◌, bit_and, bit_or, false, none, some, ltb,
  if◌then◌else◌, arith,
}
use small.Base.Bits.{bit_and-low_mask, bit_or-disjoint}
use small.Base.Words.{uint32_max, shl64}
use small.Quota.{set_attempt, use_attempt, release_attempt}

-- The word for a limit and an amount in use.
abbrev pub pack : ℕ → ℕ → ℕ
pack total used = total * 2 ^ 32 + used

-- The limit and the amount in use of a word, in units.
abbrev pub total_of : ℕ → ℕ
total_of value = value / 2 ^ 32

abbrev pub used_of : ℕ → ℕ
used_of value = value % 2 ^ 32

pub low_dword : (value : ℕ) → bit_and value uint32_max ≡ used_of value
low_dword value = bit_and-low_mask 32 value

pub join_dwords : (t u : ℕ) → t < 2 ^ 32 → u < 2 ^ 32 → bit_or (shl64 t 32) u ≡ pack t u
join_dwords t u ht hu =
    let e : shl64 t 32 ≡ t * 2 ^ 32 = omega arith in rw e (bit_or-disjoint 32 t u hu)

module _ (t u : ℕ) (ht : t < 2 ^ 32) (hu : u < 2 ^ 32) where
  pub set_attempt-pack :
      (n : ℕ) → n < 2 ^ 32 → set_attempt n (pack t u) ≡ (if ltb n u then none else some (pack n u))
  unfolding set_attempt
  set_attempt-pack n hn =
      let used : used_of (pack t u) ≡ u = omega arith in
      rw (low_dword, used, mod-eq_of_lt hu, join_dwords n u hn hu)

  pub use_attempt-pack :
      (n : ℕ)
      → u + n < 2 ^ 32
      → use_attempt n (pack t u) ≡ (if ltb t (u + n) then none else some (pack t (u + n)))
  unfolding use_attempt
  use_attempt-pack n hn =
      let used : used_of (pack t u) ≡ u = omega arith in
      let total : pack t u / 2 ^ 32 ≡ t = omega arith in
      rw (
        low_dword,
        used,
        mod-eq_of_lt hu,
        total,
        mod-eq_of_lt ht,
        mod-eq_of_lt hn,
        join_dwords t (u + n) ht hn,
      )

  -- Past 32 bits the amount in use wraps round, and then it is below the limit again.
  pub use_attempt_wraps-pack :
      (n : ℕ)
      → 2 ^ 32 ≤ u + n
      → n < 2 ^ 32
      → u ≤ t
      → use_attempt n (pack t u) ≡ some (pack t (u + n - 2 ^ 32))
  unfolding use_attempt
  use_attempt_wraps-pack n h hn within =
      let used : used_of (pack t u) ≡ u = omega arith in
      let total : pack t u / 2 ^ 32 ≡ t = omega arith in
      let rest : (u + n) % 2 ^ 32 ≡ u + n - 2 ^ 32 = omega arith in
      let granted : ltb t (u + n - 2 ^ 32) ≡ false = ground arith in
      rw (
        low_dword,
        used,
        mod-eq_of_lt hu,
        total,
        mod-eq_of_lt ht,
        rest,
        granted,
        join_dwords t (u + n - 2 ^ 32) ht (omega arith),
      )

  pub release_attempt-pack : (n : ℕ) → n ≤ u → release_attempt n (pack t u) ≡ pack t (u - n)
  unfolding release_attempt
  release_attempt-pack n hn =
      let used : used_of (pack t u) ≡ u = omega arith in
      let total : pack t u / 2 ^ 32 ≡ t = omega arith in
      let rest : (u + 2 ^ 32 - n) % 2 ^ 32 ≡ u - n = omega arith in
      rw (low_dword, used, mod-eq_of_lt hu, total, mod-eq_of_lt ht, rest)
        (join_dwords t (u - n) ht (omega arith))
