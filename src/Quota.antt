-- ===== src/Quota.antt =====
-- include/small/quota.h: a limit on memory, kept with the amount in use in one 64-bit word.
-- An atomic loop reads the word, computes the next one (`…_attempt`), and stores it if the word has
-- not changed. The functions here run such a loop with no other thread at work, so its first store
-- succeeds; `Quota.Threads` interleaves the rounds of several threads.
pub mod Pack
pub mod Single
pub mod Spec
pub mod Threads
mod Tests
use small.Base.{ℕ, ◌+◌, ◌-◌, ◌*◌, ◌/◌, ◌^◌, bit_and, bit_or, Option, none, some, ltb, if◌then◌else◌}
use small.Base.Words.{uint32_max, add64, shl64, shr, add32, sub32, to_u32, mul64}

-- `QUOTA_UNIT_SIZE` and `QUOTA_MAX` (the product does not exceed `SIZE_MAX`).
abbrev pub quota_unit_size : ℕ
quota_unit_size = 1024

abbrev pub quota_max : ℕ
quota_max = quota_unit_size * uint32_max

-- The high dword is the limit, the low one the amount in use, both in units.
pub record Quota : Type 0 where
  pub value : ℕ

abbrev pub quota : ℕ → Quota
quota v = record { value = v }

-- `(size + (QUOTA_UNIT_SIZE - 1)) / QUOTA_UNIT_SIZE`
abbrev pub units : ℕ → ℕ
units size = add64 size (quota_unit_size - 1) / quota_unit_size

unfoldable pub quota_init : ℕ → Quota
quota_init total = quota (shl64 (units total) 32)

unfoldable pub quota_total : Quota → ℕ
quota_total q = mul64 (shr q.value 32) quota_unit_size

unfoldable pub quota_used : Quota → ℕ
quota_used q = mul64 (bit_and q.value uint32_max) quota_unit_size

unfoldable pub quota_get_total_and_used : Quota → ℕ × ℕ
quota_get_total_and_used q =
    (mul64 (shr q.value 32) quota_unit_size, mul64 (bit_and q.value uint32_max) quota_unit_size)

-- The word that a round of `quota_set` stores, `none` where it returns -1.
unfoldable pub set_attempt : (new_total_in_units value : ℕ) → Option ℕ
set_attempt new_total_in_units value =
    let used_in_units = to_u32 (bit_and value uint32_max) in
    if ltb new_total_in_units used_in_units
    then none
    else some (bit_or (shl64 new_total_in_units 32) used_in_units)

unfoldable pub use_attempt : (size_in_units value : ℕ) → Option ℕ
use_attempt size_in_units value =
    let total_in_units = to_u32 (shr value 32) in
    let used_in_units = to_u32 (bit_and value uint32_max) in
    let new_used_in_units = add32 used_in_units size_in_units in
    if ltb total_in_units new_used_in_units
    then none
    else some (bit_or (shl64 total_in_units 32) new_used_in_units)

unfoldable pub release_attempt : (size_in_units value : ℕ) → ℕ
release_attempt size_in_units value =
    let total_in_units = to_u32 (shr value 32) in
    let used_in_units = to_u32 (bit_and value uint32_max) in
    let new_used_in_units = sub32 used_in_units size_in_units in
    bit_or (shl64 total_in_units 32) new_used_in_units

-- What an atomic loop returns (`none` for -1), and the quota that it leaves.
abbrev pub finish : ℕ → Quota → Option ℕ → Option ℕ × Quota
finish result q none = (none, q)
finish result q (some v) = (some result, quota v)

unfoldable pub quota_set : Quota → ℕ → Option ℕ × Quota
quota_set q new_total =
    let new_total_in_units = to_u32 (units new_total) in
    finish (mul64 new_total_in_units quota_unit_size) q (set_attempt new_total_in_units q.value)

unfoldable pub quota_use : Quota → ℕ → Option ℕ × Quota
quota_use q size =
    let size_in_units = to_u32 (units size) in
    if ltb quota_max size
    then (none, q)
    else finish (mul64 size_in_units quota_unit_size) q (use_attempt size_in_units q.value)

unfoldable pub quota_release : Quota → ℕ → ℕ × Quota
quota_release q size =
    let size_in_units = to_u32 (units size) in
    (mul64 size_in_units quota_unit_size, quota (release_attempt size_in_units q.value))
