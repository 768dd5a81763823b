-- ===== src/QuotaLessor/Lease.antt =====
-- `quota_lease`: what it grants, and when it refuses.
use small.Base.Bits.{two_pow_suc}
use small.Base.{
  zero, true, false, refl, inr, ◌/◌, inl, leb, Bool-cases, suc, ltb, arith, if◌then◌else◌, ◌-◌, ◌^◌,
  some, none, ◌*◌, ◌<◌, ◌≡◌, ◌+◌, Option, ◌%◌, ◌≤◌,
}
use small.Quota.Single.{IsValid, Used, refused, granted, quota_use-Used}
use small.Quota.Pack.{total_of, used_of}
use small.Quota.Spec.{ceil_units}
use small.Quota.{Quota, quota_use}
use small.QuotaLessor.{sub64, add64, ℕ, Lessor, quota_use_min, after_use, lease_loop, quota_lease}

-- The quota is valid, what is leased was taken from it before, in whole units.
pub record IsSound (l : Lessor) : Type 0 where
  pub source : IsValid l.source
  pub covered : l.leased ≤ l.used
  pub whole : l.used % 1024 ≡ 0
  pub taken : l.used ≤ used_of l.source.value * 1024

-- The outcomes of a lease for which `required` more bytes are needed. The source's units beyond
-- those of this lessor are the same before and after.
pub data Leased (l : Lessor) (size required : ℕ) : Option ℕ × Lessor → Type 0 where
  refuse :
      total_of l.source.value < used_of l.source.value + ceil_units (2 * required)
      → Leased l size required (none, l)
  grant :
      {l' : Lessor}
      → IsSound l'
      → l'.leased ≡ l.leased + size
      → total_of l'.source.value ≡ total_of l.source.value
      → used_of l'.source.value * 1024 + l.used ≡ used_of l.source.value * 1024 + l'.used
      → Leased l size required (some size, l')

module _ (l : Lessor) (sound : IsSound l) (size required : ℕ)
    (need : l.leased + size ≡ l.used + required) where
  after_use-Leased :
      (n : ℕ) (retry : Lessor → Option ℕ × Lessor) {r : Option ℕ × Quota}
      → required ≤ n * 1024
      → Used l.source n r
      → (total_of l.source.value < used_of l.source.value + n → Leased l size required (retry l))
      → Leased l size required (after_use l size r retry)
  after_use-Leased n retry enough (refused over) next = next over
  after_use-Leased n retry enough (granted {q'} room total used valid) next =
      let taken = sound.taken in
      let covered = sound.covered in
      let whole = sound.whole in
      let word = valid.word in
      let used' : add64 l.used (n * 1024) ≡ l.used + n * 1024 = omega arith in
      let leased' : add64 l.leased size ≡ l.leased + size = omega arith in
      rw (used', leased')
        (grant
          (record {
            source = valid;
            covered = omega arith;
            whole = omega arith;
            taken = omega arith;
          })
          refl total (omega arith))

  -- A round that is left with too small an amount was refused twice that amount before.
  lease_loop-Leased :
      (fuel amount : ℕ)
      → 1 ≤ required
      → amount < 2 ^ fuel
      → total_of l.source.value + ceil_units amount < 2 ^ 32
      → (amount < required
          → total_of l.source.value < used_of l.source.value + ceil_units (2 * required))
      → Leased l size required (lease_loop fuel required size amount l)
  unfolding lease_loop
  lease_loop-Leased zero amount pos enough fits small = refuse (small (omega arith))
  lease_loop-Leased (suc fuel) amount pos enough fits small =
      elim (Bool-cases (leb required amount)) [
        | inl large ↦
            let above : required ≤ amount = ground arith in
            let within = sound.source.within in
            rw large (
              after_use-Leased (ceil_units amount) _ (omega arith)
                (quota_use-Used l.source amount sound.source (omega arith))
                λ over.
                  lease_loop-Leased fuel (amount / 2) pos (omega (arith, two_pow_suc fuel))
                    (omega arith) (λ below. omega arith))
        | inr less ↦ rw less (refuse (small (ground arith)))
      ]

-- What a lease needs beyond what is taken and not leased, and the amount that it asks for first.
abbrev pub shortage : Lessor → ℕ → ℕ
shortage l size = l.leased + size - l.used

abbrev pub first_amount : ℕ → ℕ
first_amount required = if ltb quota_use_min required then required else quota_use_min

-- If the limit and the first amount asked for fit 32 bits together, `quota_lease` either leases
-- exactly `size` bytes, keeps the lessor sound and takes from the quota what it adds to its own
-- account, or it changes nothing, and then twice the shortage would not fit the limit.
pub quota_lease-Leased :
    (l : Lessor) (size : ℕ)
    → IsSound l
    → size < 2 ^ 63
    → total_of l.source.value + ceil_units (first_amount (shortage l size)) < 2 ^ 32
    → Leased l size (shortage l size) (quota_lease l size)
unfolding quota_lease
quota_lease-Leased l size sound small fits =
    let covered = sound.covered in
    let taken = sound.taken in
    let word = sound.source.word in
    let sum : add64 l.leased size ≡ l.leased + size = omega arith in
    let need : add64 size l.leased ≡ l.leased + size = omega arith in
    elim (Bool-cases (leb (l.leased + size) l.used)) [
      | inl enough ↦
          rw (sum, enough)
            (grant
              (record {
                source = sound.source;
                covered = ground arith;
                whole = sound.whole;
                taken = sound.taken;
              })
              refl refl refl)
      | inr short ↦
          let above : l.used < l.leased + size = ground arith in
          let required : sub64 (l.leased + size) l.used ≡ shortage l size = omega arith in
          rw (sum, short, need, required)
            (lease_loop-Leased l sound size (shortage l size) (omega arith) 64
              (first_amount (shortage l size)) (omega arith) (ground arith) fits
              (λ below. absurd (ground arith)))
    ]

-- The source refuses what does not fit its limit.
quota_use_over :
    (q : Quota) (size : ℕ)
    → IsValid q
    → used_of q.value + ceil_units size < 2 ^ 32
    → total_of q.value < used_of q.value + ceil_units size
    → quota_use q size ≡ (none, q)
quota_use_over q size v fits over = known (quota_use-Used q size v fits)
  where
    known : {r : Option ℕ × Quota} → Used q (ceil_units size) r → r ≡ (none, q)
    known (refused _) = refl
    known (granted room total used valid) = absurd (omega arith)

-- A shortage of more than half of `QUOTA_USE_MIN`, and at most that, is refused whenever the whole
-- of `QUOTA_USE_MIN` does not fit the limit, also where the shortage itself would.
pub quota_lease_refuses :
    (l : Lessor) (size : ℕ)
    → IsSound l
    → size < 2 ^ 63
    → quota_use_min < 2 * shortage l size
    → shortage l size ≤ quota_use_min
    → total_of l.source.value + 1024 < 2 ^ 32
    → total_of l.source.value < used_of l.source.value + 1024
    → quota_lease l size ≡ (none, l)
unfolding quota_lease lease_loop
quota_lease_refuses l size sound small more less fits over =
    let covered = sound.covered in
    let taken = sound.taken in
    let word = sound.source.word in
    let within = sound.source.within in
    let slow : leb (add64 l.leased size) l.used ≡ false = ground arith in
    let required : sub64 (add64 size l.leased) l.used ≡ shortage l size = omega arith in
    let first : ltb quota_use_min (shortage l size) ≡ false = ground arith in
    let goes : leb (shortage l size) quota_use_min ≡ true = ground arith in
    let ends : leb (shortage l size) 524288 ≡ false = ground arith in
    rw (
      slow,
      required,
      first,
      goes,
      quota_use_over l.source quota_use_min sound.source (omega arith) over,
      ends,
    )
