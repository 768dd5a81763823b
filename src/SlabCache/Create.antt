-- ===== src/SlabCache/Create.antt =====
-- A new slab cache.
use small.Base.{
  ℕ, zero, suc, ◌+◌, ◌-◌, ◌*◌, ◌/◌, ◌^◌, ◌≤◌, ◌≡◌, refl, sym, ap, ◌∙◌, true, [], arith, ltb,
  if◌then◌else◌,
}
use native.Mathlib.Nat.{mul-div_cancel}
use small.Base.Bits.{two_pow_reflects, two_pow_suc, two_pow_add, pow_pos, two_pow_mono}
use small.Base.Words.{to_u32, shr}
use small.Util.{small_lb}
use small.Util.Round.{small_lb_bounds}
use small.SlabCache.{slab_list_create, order_limit, Arena, SlabList, SlabCache, slab_cache_create}
use small.SlabCache.Check.{check_orders, ordered_size, used_size, slab_cache_check}
use small.SlabCache.Order.{IsSized}
use small.SlabCache.Found.{IsValid}

small_lb-two_pow : (k : ℕ) → k ≤ 63 → small_lb (2 ^ k) ≡ k
small_lb-two_pow k h =
    let small = two_pow_mono {a = k} {b = 63} h in
    let pos = pow_pos k in
    let b = small_lb_bounds (2 ^ k) (omega arith) (omega arith) in
    let double = two_pow_suc k in
    let one = two_pow_reflects {a = k} {b = small_lb (2 ^ k) + 1} b.1 in
    let lower = b.0 in
    let other = two_pow_reflects {a = small_lb (2 ^ k)} {b = suc k} (omega arith) in omega arith

div-two_pow : (s p : ℕ) → p ≤ s → 2 ^ s / 2 ^ p ≡ 2 ^ (s - p)
div-two_pow s p h =
    let split : s - p + p ≡ s = omega arith in
    let e : 2 ^ s ≡ 2 ^ (s - p) * 2 ^ p =
      ap (λ (t : ℕ). 2 ^ t) (sym split) ∙ two_pow_add (s - p) p in
    rw e (mul-div_cancel (2 ^ (s - p)) (pow_pos p))

-- The highest order that a cache has, from the binary logarithms of the sizes.
abbrev pub highest : (s p : ℕ) → ℕ
highest s p = if ltb (order_limit - 1) (s - p) then order_limit - 1 else s - p

-- A cache with nothing in it passes its own check.
module _ {A : Arena} (c : SlabCache A) (none_free : c.orders ≡ λ o. slab_list_create) where
  check_orders-empty : (n : ℕ) → check_orders c n ≡ true
  check_orders-empty zero = refl
  check_orders-empty (suc n) =
      let total : (c.orders n).total ≡ 0 = ap (λ (f : ℕ → SlabList). (f n).total) none_free in
      let used : (c.orders n).used ≡ 0 = ap (λ (f : ℕ → SlabList). (f n).used) none_free in
      rw (check_orders-empty n, total, used) (ground arith)

  ordered_size-empty : (n : ℕ) → ordered_size c n ≡ 0
  ordered_size-empty zero = refl
  ordered_size-empty (suc n) =
      let total : (c.orders n).total ≡ 0 = ap (λ (f : ℕ → SlabList). (f n).total) none_free in
      let rest = ordered_size-empty n in omega arith

  used_size-empty : (n : ℕ) → used_size c n ≡ 0
  used_size-empty zero = refl
  used_size-empty (suc n) =
      let used : (c.orders n).used ≡ 0 = ap (λ (f : ℕ → SlabList). (f n).used) none_free in
      let rest = used_size-empty n in omega arith

  check-empty : c.allocated ≡ slab_list_create → slab_cache_check c ≡ true
  unfolding slab_cache_check
  check-empty e =
      let slabs : c.allocated.slabs ≡ [] = ap (λ (l : SlabList). l.slabs) e in
      let total : c.allocated.total ≡ 0 = ap (λ (l : SlabList). l.total) e in
      let used : c.allocated.used ≡ 0 = ap (λ (l : SlabList). l.used) e in
      let lists : ℕ = c.order_max + 1 in
      rw
        (
          check_orders-empty lists,
          ordered_size-empty lists,
          used_size-empty lists,
          slabs,
          total,
          used,
        )
        refl

module _ (A : Arena) (arena : A.State) (s p : ℕ) (whole : A.slab_size ≡ 2 ^ s) (h : p ≤ s)
    (bound : s ≤ 31) where
  create_max : (slab_cache_create A (2 ^ p) arena).order_max ≡ highest s p
  unfolding slab_cache_create
  create_max =
      let e : small_lb (A.slab_size / 2 ^ p) ≡ s - p =
        ap (λ (n : ℕ). small_lb (n / 2 ^ p)) whole
        ∙ ap small_lb (div-two_pow s p h)
        ∙ small_lb-two_pow (s - p) (omega arith) in
      ap (λ (n : ℕ). if ltb (order_limit - 1) n then order_limit - 1 else n) e

  create_order0 : (slab_cache_create A (2 ^ p) arena).order0_size ≡ 2 ^ (s - highest s p)
  unfolding slab_cache_create
  create_order0 =
      let less : highest s p ≤ s = ground arith in
      let small = two_pow_mono {a = s - highest s p} {b = 31} (omega arith) in
      ap (λ (n : ℕ). to_u32 (shr A.slab_size n)) create_max
      ∙ ap (λ (n : ℕ). to_u32 (shr n (highest s p))) whole
      ∙ ap to_u32 (div-two_pow s (highest s p) less)
      ∙ omega arith

  create_lb : (slab_cache_create A (2 ^ p) arena).order0_size_lb ≡ s - highest s p
  unfolding slab_cache_create
  create_lb = ap small_lb create_order0 ∙ small_lb-two_pow (s - highest s p) (omega arith)

  create-IsSized : IsSized (slab_cache_create A (2 ^ p) arena)
  create-IsSized =
      let less : highest s p ≤ s = ground arith in
      let max_eq = create_max in
      let lb_eq = create_lb in
      record {
        order0 = create_order0 ∙ ap (λ (t : ℕ). 2 ^ t) (sym lb_eq);
        whole = whole ∙ ap (λ (t : ℕ). 2 ^ t) (omega arith);
        bound = omega arith;
      }

  -- For an arena with slabs of 2^s bytes (s up to 31) and pages of 2^p bytes, which are not larger:
  -- a new cache is valid, its highest order is s - p or 15, if that is less, and it passes
  -- `slab_cache_check`.
  pub slab_cache_create-IsValid :
      IsValid (slab_cache_create A (2 ^ p) arena)
      × ((slab_cache_create A (2 ^ p) arena).order_max ≡ highest s p)
      × (slab_cache_check (slab_cache_create A (2 ^ p) arena) ≡ true)
  unfolding slab_cache_create
  slab_cache_create-IsValid = (
    record { sized = create-IsSized; heads = λ order below. tt },
    create_max,
    check-empty (slab_cache_create A (2 ^ p) arena) refl refl,
  )
