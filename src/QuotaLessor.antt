-- ===== src/QuotaLessor.antt =====
-- include/small/quota_lessor.h: small leases from chunks that are taken from a quota.
pub mod Lease
pub mod Return
mod Tests
use small.Base.{◌/◌, some, none, Option, ◌*◌, if◌then◌else◌, ℕ, zero, suc, leb, ltb, ◌==◌}
use small.Quota.{Quota, quota_unit_size, quota_use, quota_release}
use small.Base.Words.{add64, sub64}

pub record Lessor : Type 0 where
  pub source : Quota
  pub used : ℕ
  pub leased : ℕ

-- `QUOTA_USE_MIN`
abbrev pub quota_use_min : ℕ
quota_use_min = quota_unit_size * 1024

unfoldable pub quota_leased : Lessor → ℕ
quota_leased l = l.leased

unfoldable pub quota_available : Lessor → ℕ
quota_available l = sub64 l.used l.leased

unfoldable pub quota_lessor_create : Quota → Lessor
quota_lessor_create source = record { source = source; used = 0; leased = 0 }

unfoldable pub quota_lessor_destroy : Lessor → Lessor
quota_lessor_destroy l =
    if l.used == 0
    then l
    else record { source = (quota_release l.source l.used).1; used = 0; leased = 0 }

-- A lessor after its source has granted `taken` bytes, or refused them and the loop goes on.
abbrev pub after_use :
    Lessor → ℕ → Option ℕ × Quota → (Lessor → Option ℕ × Lessor) → Option ℕ × Lessor
after_use l size (some taken, q) retry =
    (some size, record { source = q; used = add64 l.used taken; leased = add64 l.leased size })
after_use l size (none, q) retry = retry (record l { source = q })

-- `for (; use >= required; use = use/2)`, where `amount` is the `use` of the source. Every round
-- halves it, so 64 rounds suffice.
unfoldable pub lease_loop : ℕ → (required size amount : ℕ) → Lessor → Option ℕ × Lessor
lease_loop zero required size amount l = (none, l)
lease_loop (suc fuel) required size amount l =
    let retry = λ (l' : Lessor). lease_loop fuel required size (amount / 2) l' in
    let round = after_use l size (quota_use l.source amount) retry in
    if leb required amount then round else (none, l)

-- `none` where the source returns -1. `size` is not negative.
unfoldable pub quota_lease : Lessor → ℕ → Option ℕ × Lessor
unfolding lease_loop
quota_lease l size =
    if leb (add64 l.leased size) l.used
    then (some size, record l { leased = add64 l.leased size })
    else (let required = sub64 (add64 size l.leased) l.used in
        let amount = if ltb quota_use_min required then required else quota_use_min in
        lease_loop 64 required size amount l)

unfoldable pub quota_end_lease : Lessor → ℕ → ℕ × Lessor
quota_end_lease l size =
    let leased' = sub64 l.leased size in
    let available = sub64 l.used leased' in
    let release = sub64 (sub64 available quota_use_min) quota_unit_size in
    let (released, q) = quota_release l.source release in
    if leb (2 * quota_use_min) available
    then (size, record { source = q; used = sub64 l.used released; leased = leased' })
    else (size, record l { leased = leased' })
