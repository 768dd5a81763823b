-- ===== src/QuotaLessor/Return.antt =====
-- `quota_end_lease` and `quota_lessor_destroy`: what goes back to the source.
use small.Base.{refl, ◌==◌, inr, inl, leb, Bool-cases, arith, ◌-◌, ◌+◌, ◌*◌, ◌≤◌, ◌≡◌, ◌<◌}
use small.Quota.Single.{IsValid, quota_release_refines}
use small.Quota.Pack.{total_of, used_of}
use small.Quota.Spec
use small.Quota.Spec.{ceil_units}
use small.Quota.{quota_max, Quota, quota_release}
use small.QuotaLessor.{
  sub64, ℕ, Lessor, quota_use_min, quota_end_lease, quota_lessor_destroy, quota_available,
}
use small.QuotaLessor.Lease.{IsSound}

-- What a release by `n` units does to a valid quota.
record Released (q : Quota) (n : ℕ) (r : ℕ × Quota) : Type 0 where
  valid : IsValid r.1
  result : r.0 ≡ n * 1024
  total : total_of r.1.value ≡ total_of q.value
  used : used_of r.1.value + n ≡ used_of q.value

quota_release-Released :
    (q : Quota) (size : ℕ)
    → IsValid q
    → size < quota_max
    → ceil_units size ≤ used_of q.value
    → Released q (ceil_units size) (quota_release q size)
unfolding Spec.give
quota_release-Released q size v small covered =
    ground (arith, quota_release_refines v size small covered)

-- `quota_end_lease` takes `size` off the leases and keeps the lessor sound. The limit and the units
-- beyond those of this lessor stay the same, and afterwards less than twice `QUOTA_USE_MIN` is
-- taken and not leased.
pub quota_end_lease-IsSound :
    (l : Lessor) (size : ℕ)
    → IsSound l
    → size ≤ l.leased
    → let (result, l') = quota_end_lease l size in
      IsSound l'
      × (result ≡ size)
      × (l'.leased + size ≡ l.leased)
      × (total_of l'.source.value ≡ total_of l.source.value)
      × (used_of l'.source.value * 1024 + l.used ≡ used_of l.source.value * 1024 + l'.used)
      × (quota_available l' < 2 * quota_use_min)
unfolding quota_end_lease quota_available
quota_end_lease-IsSound l size sound h =
    let covered = sound.covered in
    let whole = sound.whole in
    let taken = sound.taken in
    let word = sound.source.word in
    let within = sound.source.within in
    let leased' : sub64 l.leased size ≡ l.leased - size = omega arith in
    let available : sub64 l.used (l.leased - size) ≡ l.used + size - l.leased = omega arith in
    rw (leased', available)
      (elim (Bool-cases (leb (2 * quota_use_min) (l.used + size - l.leased))) [
        | inl much ↦
            let some_left : 2 * quota_use_min ≤ l.used + size - l.leased = ground arith in
            let r : ℕ = l.used + size - l.leased - quota_use_min - 1024 in
            let amount : sub64 (sub64 (l.used + size - l.leased) quota_use_min) 1024 ≡ r =
              omega arith in
            let given : Released l.source (ceil_units r) (quota_release l.source r) =
              quota_release-Released l.source r sound.source (omega arith) (omega arith) in
            let valid = given.valid in
            let result = given.result in
            let used = given.used in
            rw (much, amount)
              (
                record {
                  source = valid;
                  covered = omega arith;
                  whole = omega arith;
                  taken = omega arith;
                },
                refl,
                omega arith,
                given.total,
                omega arith,
                omega arith,
              )
        | inr little ↦
            let under : l.used + size - l.leased < 2 * quota_use_min = ground arith in
            rw little (
              record { source = sound.source; covered = omega arith; whole = whole; taken = taken },
              refl,
              omega arith,
              refl,
              refl,
              omega arith,
            )
      ])

-- Destroying a sound lessor gives all that it took back to the source.
pub quota_lessor_destroy_lem :
    (l : Lessor)
    → IsSound l
    → l.used < quota_max
    → let l' = quota_lessor_destroy l in
      IsSound l'
      × (l'.used ≡ 0)
      × (l'.leased ≡ 0)
      × (used_of l'.source.value * 1024 + l.used ≡ used_of l.source.value * 1024)
unfolding quota_lessor_destroy
quota_lessor_destroy_lem l sound small =
    let covered = sound.covered in
    let whole = sound.whole in
    let taken = sound.taken in
    let given : Released l.source (ceil_units l.used) (quota_release l.source l.used) =
      quota_release-Released l.source l.used sound.source small (omega arith) in
    let valid = given.valid in
    let used = given.used in
    elim (Bool-cases (l.used == 0)) [
      | inl nothing ↦
          let none_used : l.used ≡ 0 = ground arith in
          rw nothing (sound, none_used, omega arith, omega arith)
      | inr something ↦ rw something (
        record { source = valid; covered = omega arith; whole = omega arith; taken = omega arith },
        refl,
        refl,
        omega arith,
      )
    ]
