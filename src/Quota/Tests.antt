-- ===== src/Quota/Tests.antt =====
-- A quota of 10 units at work, alone and under two threads.
use small.Base.{ℕ, ◌+◌, ◌*◌, ◌/◌, ◌^◌, ◌<◌, ◌≡◌, refl, none, some, [], ◌∷◌, arith}
use small.Quota.{
  Quota, quota, quota_init, quota_total, quota_used, quota_set, quota_use, quota_release,
  use_attempt, quota_get_total_and_used,
}
use small.Quota.Pack.{pack, total_of, used_of}
use small.Quota.Spec
use small.Quota.Single.{
  IsValid, view, quota_init_lem, quota_use_refines, quota_release_refines, quota_set_refines,
  quota_use_wraps,
}
use small.Quota.Threads.{
  take, idle, pending, Thread, System, attempt, settle, start, retry, store, Reach, here, next,
}
use small.Quota.Threads.Invariant.{IsSafe, Reach-IsSafe}

-- 10 units, 3 of them in use.
abbrev some_used : Quota
some_used = quota (pack 10 3)

some_used-IsValid : IsValid some_used
some_used-IsValid = omega arith

quota_runs :
    (quota_use some_used 5000 ≡ (some 5120, quota (pack 10 8)))
    × (quota_use some_used 8000 ≡ (none, some_used))
    × (quota_release some_used 2048 ≡ (2048, quota (pack 10 1)))
    × (quota_set some_used 2048 ≡ (none, some_used))
    × (quota_set some_used 4000 ≡ (some 4096, quota (pack 4 3)))
    × (quota_get_total_and_used some_used ≡ (10240, 3072))
unfolding quota_use quota_release quota_set use_attempt quota_get_total_and_used
    small.Quota.set_attempt small.Quota.release_attempt
quota_runs = (refl, refl, refl, refl, refl, refl)

quota_init_lem_test :
    IsValid (quota_init 10000)
    × (quota_total (quota_init 10000) ≡ (10000 + 1023) / 1024 * 1024)
    × (quota_used (quota_init 10000) ≡ 0)
quota_init_lem_test = quota_init_lem 10000 (omega arith)

quota_use_refines_example :
    let (result, q') = quota_use some_used 5000 in
    ((result, view q') ≡ Spec.take (view some_used) 5000) × IsValid q'
quota_use_refines_example = quota_use_refines some_used-IsValid 5000 (omega arith) (omega arith)

quota_release_refines_example :
    let (result, q') = quota_release some_used 2048 in
    ((result, view q') ≡ Spec.give (view some_used) 2048) × IsValid q'
quota_release_refines_example =
    quota_release_refines some_used-IsValid 2048 (omega arith) (omega arith)

quota_set_refines_example :
    let (result, q') = quota_set some_used 4000 in
    ((result, view q') ≡ Spec.limit (view some_used) 4000) × IsValid q'
quota_set_refines_example = quota_set_refines some_used-IsValid 4000 (omega arith)

-- A limit of 3 TiB, all of it in use.
abbrev all_used : Quota
all_used = quota (pack (3 * 2 ^ 30) (3 * 2 ^ 30))

all_used-IsValid : IsValid all_used
all_used-IsValid = omega arith

-- A further 2 TiB are granted, and 1 TiB counts as used.
quota_use_wraps_example :
    let (result, q') = quota_use all_used (2 ^ 41) in
    (result ≡ some ((2 ^ 41 + 1023) / 1024 * 1024))
    × (total_of q'.value ≡ total_of all_used.value)
    × (used_of q'.value + 2 ^ 32 ≡ used_of all_used.value + (2 ^ 41 + 1023) / 1024)
    × (used_of q'.value < used_of all_used.value)
quota_use_wraps_example = quota_use_wraps all_used-IsValid (2 ^ 41) (omega arith) (omega arith)

abbrev at_rest : ℕ → Thread
at_rest held = record { pc = idle; held = held }

abbrev taking : ℕ → ℕ → Thread
taking n seen = record { pc = pending (take n) seen; held = 0 }

abbrev two_threads : ℕ → Thread → Thread → System
two_threads value a b = record { value = value; threads = a ∷ b ∷ [] }

-- Both threads read the fresh quota. The first stores; the second has to read again.
race :
    Reach 10
      (two_threads (pack 10 0) (at_rest 0) (at_rest 0))
      (two_threads (pack 10 5) (at_rest 2) (at_rest 3))
unfolding attempt settle use_attempt
race =
    next
      (next
        (next
          (next (next here (start 0 (take 2) (at_rest 0) refl refl (omega arith)))
            (start 1 (take 3) (at_rest 0) refl refl (omega arith)))
          (store 0 (take 2) (pack 10 0) (pack 10 2) (taking 2 (pack 10 0)) refl refl refl refl))
        (retry 1 (take 3) (pack 10 0) (taking 3 (pack 10 0)) refl refl))
      (store 1 (take 3) (pack 10 2) (pack 10 5) (taking 3 (pack 10 2)) refl refl refl refl)

Reach-IsSafe_example : IsSafe 10 (two_threads (pack 10 5) (at_rest 2) (at_rest 3))
Reach-IsSafe_example = Reach-IsSafe 10 (omega arith) (omega arith) race
