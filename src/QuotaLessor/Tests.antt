-- ===== src/QuotaLessor/Tests.antt =====
-- Leases from a quota of 4 MiB.
use small.Base.{refl, ◌<◌, ◌-◌, none, ◌+◌, some, arith, ◌≡◌, ◌^◌}
use small.Quota.{Quota, quota, quota_use, quota_release}
use small.Quota.Pack.{pack, total_of, used_of}
use small.QuotaLessor.{
  ◌*◌, ℕ, Lessor, quota_use_min, quota_lease, quota_end_lease, quota_lessor_create,
  quota_lessor_destroy, quota_available,
}
use small.QuotaLessor.Lease.{IsSound, Leased, quota_lease-Leased, quota_lease_refuses}
use small.QuotaLessor.Return.{quota_end_lease-IsSound, quota_lessor_destroy_lem}

abbrev lessor : ℕ → ℕ → ℕ → Lessor
lessor in_use used leased = record {
  source = quota (pack 4096 in_use);
  used = used;
  leased = leased;
}

-- 1 MiB taken, 1000 bytes of it leased.
abbrev busy : Lessor
busy = lessor 1024 (2 ^ 20) 1000

busy-IsSound : IsSound busy
busy-IsSound = record {
  source = omega arith;
  covered = omega arith;
  whole = omega arith;
  taken = omega arith;
}

lessor_runs :
    (quota_lease (quota_lessor_create (quota (pack 4096 0))) 1000 ≡ (some 1000, busy))
    × (quota_lease busy 500 ≡ (some 500, lessor 1024 (2 ^ 20) 1500))
    × (quota_lessor_destroy busy ≡ lessor 0 0 0)
    × (quota_end_lease (lessor 3072 (3 * 2 ^ 20) (2 ^ 20)) 500
        ≡ (500, lessor 2048 (2 ^ 21) (2 ^ 20 - 500)))
unfolding quota_lease quota_lessor_create quota_lessor_destroy quota_end_lease quota_use
    quota_release small.Quota.use_attempt small.Quota.release_attempt
lessor_runs = (refl, refl, refl, refl)

quota_lease-Leased_example :
    Leased busy (2 ^ 21) (1000 + 2 ^ 21 - 2 ^ 20) (quota_lease busy (2 ^ 21))
quota_lease-Leased_example =
    quota_lease-Leased busy (2 ^ 21) busy-IsSound (omega arith) (omega arith)

-- 1023 units are left, and 600 of them are refused.
abbrev nearly_full : Lessor
nearly_full = lessor 3073 0 0

nearly_full-IsSound : IsSound nearly_full
nearly_full-IsSound = record {
  source = omega arith;
  covered = omega arith;
  whole = omega arith;
  taken = omega arith;
}

quota_lease_refuses_example : quota_lease nearly_full (600 * 1024) ≡ (none, nearly_full)
quota_lease_refuses_example =
    quota_lease_refuses nearly_full (600 * 1024) nearly_full-IsSound (omega arith) (omega arith)
      (omega arith) (omega arith) (omega arith)

quota_end_lease-IsSound_example :
    let (result, l') = quota_end_lease busy 400 in
    IsSound l'
    × (result ≡ 400)
    × (l'.leased + 400 ≡ 1000)
    × (total_of l'.source.value ≡ total_of busy.source.value)
    × (used_of l'.source.value * 1024 + busy.used ≡ used_of busy.source.value * 1024 + l'.used)
    × (quota_available l' < 2 * quota_use_min)
quota_end_lease-IsSound_example = quota_end_lease-IsSound busy 400 busy-IsSound (omega arith)

quota_lessor_destroy_lem_test :
    let l' = quota_lessor_destroy busy in
    IsSound l'
    × (l'.used ≡ 0)
    × (l'.leased ≡ 0)
    × (used_of l'.source.value * 1024 + busy.used ≡ used_of busy.source.value * 1024)
quota_lessor_destroy_lem_test = quota_lessor_destroy_lem busy busy-IsSound (omega arith)
