-- ===== src/Quota/Single.antt =====
-- The operations of a quota, on every branch, implement those of `Quota.Spec`.
use small.Base.{
  inr, inl, Bool-cases, ◌%◌, false, Option, ℕ, ◌+◌, ◌-◌, ◌*◌, ◌/◌, ◌^◌, ◌≤◌, ◌<◌, ◌≡◌, none, some,
  ltb, if◌then◌else◌, arith,
}
use small.Base.Words.{to_u32}
use small.Quota.{
  Quota, quota_max, units, quota_init, quota_total, quota_used, quota_set, quota_use, quota_release,
  use_attempt, set_attempt, release_attempt,
}
use small.Quota.Pack.{
  pack, total_of, used_of, low_dword, set_attempt-pack, use_attempt-pack, use_attempt_wraps-pack,
  release_attempt-pack,
}
use small.Quota.Spec
use small.Quota.Spec.{Limit, ceil_units}

-- The word fits 64 bits, and no more is in use than the limit allows.
pub record IsValid (q : Quota) : Type 0 where
  pub word : q.value < 2 ^ 64
  pub within : used_of q.value ≤ total_of q.value

-- What the word of a quota stands for.
abbrev pub view : Quota → Limit
view q = record { total = total_of q.value; used = used_of q.value }

-- The limit is the requested one, rounded up to whole units, and nothing is in use.
pub quota_init_lem :
    (total : ℕ)
    → total ≤ quota_max
    → IsValid (quota_init total)
      × (quota_total (quota_init total) ≡ (total + 1023) / 1024 * 1024)
      × (quota_used (quota_init total) ≡ 0)
unfolding quota_init quota_total quota_used
quota_init_lem total h = rw low_dword (omega arith)

-- Up to `QUOTA_MAX` the count of units does not wrap.
units-ceil : (size : ℕ) → size ≤ quota_max → to_u32 (units size) ≡ ceil_units size
units-ceil size h = omega arith

module _ {q : Quota} (v : IsValid q) where
  value_lem : pack (total_of q.value) (used_of q.value) ≡ q.value
  value_lem = omega arith

  pub use_attempt_lem :
      (n : ℕ)
      → used_of q.value + n < 2 ^ 32
      → use_attempt n q.value ≡ (
          if ltb (total_of q.value) (used_of q.value + n)
          then none
          else some (pack (total_of q.value) (used_of q.value + n)))
  use_attempt_lem n h =
      rw value_lem at
        (use_attempt-pack (total_of q.value) (used_of q.value) (omega arith) (omega arith) n h)

  use_attempt_wraps :
      (n : ℕ)
      → 2 ^ 32 ≤ used_of q.value + n
      → n < 2 ^ 32
      → use_attempt n q.value ≡ some (pack (total_of q.value) (used_of q.value + n - 2 ^ 32))
  use_attempt_wraps n h small = rw value_lem at (
      use_attempt_wraps-pack (total_of q.value) (used_of q.value) (omega arith) (omega arith) n h
        small (omega arith))

  pub set_attempt_lem :
      (n : ℕ)
      → n < 2 ^ 32
      → set_attempt n q.value
        ≡ (if ltb n (used_of q.value) then none else some (pack n (used_of q.value)))
  set_attempt_lem n h =
      rw value_lem at
        (set_attempt-pack (total_of q.value) (used_of q.value) (omega arith) (omega arith) n h)

  pub release_attempt_lem :
      (n : ℕ)
      → n ≤ used_of q.value
      → release_attempt n q.value ≡ pack (total_of q.value) (used_of q.value - n)
  release_attempt_lem n h =
      rw value_lem at
        (release_attempt-pack (total_of q.value) (used_of q.value) (omega arith) (omega arith) n h)

  -- `quota_use` of at most `QUOTA_MAX` bytes implements `take`, if the amounts in use and asked for
  -- fit 32 bits together, and keeps the quota valid.
  pub quota_use_refines :
      (size : ℕ)
      → size ≤ quota_max
      → used_of q.value + ceil_units size < 2 ^ 32
      → let (result, q') = quota_use q size in
        ((result, view q') ≡ Spec.take (view q) size) × IsValid q'
  unfolding quota_use Spec.take
  quota_use_refines size h fits =
      ground (arith, units-ceil size h, use_attempt_lem (ceil_units size) fits)

  -- `quota_release` of what is in use implements `give`, and keeps the quota valid.
  pub quota_release_refines :
      (size : ℕ)
      → size < quota_max
      → ceil_units size ≤ used_of q.value
      → let (result, q') = quota_release q size in
        ((result, view q') ≡ Spec.give (view q) size) × IsValid q'
  unfolding quota_release Spec.give
  quota_release_refines size h fits =
      ground (arith, units-ceil size (omega arith), release_attempt_lem (ceil_units size) fits)

  -- `quota_set` up to `QUOTA_MAX` implements `limit`, and keeps the quota valid.
  pub quota_set_refines :
      (size : ℕ)
      → size ≤ quota_max
      → let (result, q') = quota_set q size in
        ((result, view q') ≡ Spec.limit (view q) size) × IsValid q'
  unfolding quota_set Spec.limit
  quota_set_refines size h =
      ground (arith, units-ceil size h, set_attempt_lem (ceil_units size) (omega arith))

  -- Where the amounts in use and asked for exceed 32 bits together, the sum wraps round, the call is
  -- granted whatever the limit, and less is in use than before.
  pub quota_use_wraps :
      (size : ℕ)
      → size ≤ quota_max
      → 2 ^ 32 ≤ used_of q.value + ceil_units size
      → let (result, q') = quota_use q size in
        (result ≡ some (ceil_units size * 1024))
        × (total_of q'.value ≡ total_of q.value)
        × (used_of q'.value + 2 ^ 32 ≡ used_of q.value + ceil_units size)
        × (used_of q'.value < used_of q.value)
  unfolding quota_use
  quota_use_wraps size h wraps =
      ground (arith, units-ceil size h, use_attempt_wraps (ceil_units size) wraps)

-- The two outcomes of `quota_use`, for a caller.
pub data Used (q : Quota) (n : ℕ) : Option ℕ × Quota → Type 0 where
  refused : total_of q.value < used_of q.value + n → Used q n (none, q)
  granted :
      {q' : Quota}
      → used_of q.value + n ≤ total_of q.value
      → total_of q'.value ≡ total_of q.value
      → used_of q'.value ≡ used_of q.value + n
      → IsValid q'
      → Used q n (some (n * 1024), q')

pub quota_use-Used :
    (q : Quota) (size : ℕ)
    → IsValid q
    → used_of q.value + ceil_units size < 2 ^ 32
    → Used q (ceil_units size) (quota_use q size)
unfolding quota_use
quota_use-Used q size v fits =
    let n : ℕ = ceil_units size in
    let max_size : ltb quota_max size ≡ false = ground arith in
    let units_lem : to_u32 (units size) ≡ n = units-ceil size (omega arith) in
    let times : n * 1024 % 2 ^ 64 ≡ n * 1024 = omega arith in
    rw (max_size, units_lem, use_attempt_lem v n fits, times)
      (elim (Bool-cases (ltb (total_of q.value) (used_of q.value + n))) [
        | inl over ↦ rw over (refused (ground arith))
        | inr under ↦ rw under (granted (ground arith) (ground arith) (ground arith) (ground arith))
      ])
