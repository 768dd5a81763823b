-- ===== src/SlabCache/Enough.antt =====
-- `slab_get` gives out slabs of the size that `slab_real_size` says.
use mathlib.Core.Path.{subst}
use small.Base.{
  ℕ, ◌+◌, ◌^◌, ◌≤◌, ◌<◌, ◌≡◌, refl, sym, ap, ◌∙◌, inl, inr, true, false, Option, none, some, arith,
  ltb, leb, ◌==◌, Bool-cases,
}
use small.Base.Bits.{two_pow_mono}
use small.Base.Words.{add64}
use small.SlabSource.{slab_sizeof}
use small.SlabCache.{Arena, Slab, SlabCache, slab_order, slab_order_size, slab_real_size}
use small.SlabCache.Get.{slab_get_large, slab_get_with_order, slab_get}
use small.SlabCache.Order.{IsSized, IsOrder, slab_order-IsOrder}
use small.SlabCache.Found.{IsValid, MapsAligned}
use small.SlabCache.Given.{given, refused, Given, slab_get_with_order-Given}
use small.SlabCache.Large.{
  large, no_memory, no_quota, IsCounted, LargeGiven, slab_get_large-LargeGiven,
}

-- The outcomes of `slab_get`: NULL, as `slab_get_large` or `slab_get_with_order` returns it; or a slab
-- of the real size, which has room for the size past its header.
pub data Got {A : Arena} (c : SlabCache A) (size : ℕ) : Option ℕ × SlabCache A → Type 0 where
  no_large : {c' : SlabCache A} → LargeGiven c size (none, c') → Got c size (none, c')
  no_ordered :
      {c' : SlabCache A}
      → Given c (slab_order c (size + slab_sizeof)) (none, c')
      → Got c size (none, c')
  got :
      {c' : SlabCache A} {slab : ℕ}
      → (c'.headers slab).size ≡ slab_real_size c size
      → size + slab_sizeof ≤ (c'.headers slab).size
      → Got c size (some slab, c')

module _ {A : Arena} (c : SlabCache A) (size : ℕ) where
  large-Got :
      {r : Option ℕ × SlabCache A}
      → slab_real_size c size ≡ size + slab_sizeof
      → LargeGiven c size r
      → Got c size r
  large-Got e (no_quota denied) = no_large (no_quota denied)
  large-Got e (no_memory granted denied) = no_large (no_memory granted denied)
  large-Got e (large granted mapped header restored released) =
      let is_size = ap (λ (h : Slab). h.size) header in got (is_size ∙ sym e) (omega arith)

  ordered-Got :
      {r : Option ℕ × SlabCache A}
      → slab_real_size c size ≡ slab_order_size c (slab_order c (size + slab_sizeof))
      → size + slab_sizeof ≤ slab_order_size c (slab_order c (size + slab_sizeof))
      → Given c (slab_order c (size + slab_sizeof)) r
      → Got c size r
  ordered-Got e enough (refused out) = no_ordered (refused out)
  ordered-Got e enough (given same is_order is_used is_size aligned) =
      got (is_size ∙ sym e) (omega arith)

  -- A size past the slabs of the arena has the order past the highest; any other has a lower one.
  below-IsOrder :
      IsSized c
      → (slab_order c (size + slab_sizeof) == c.order_max + 1) ≡ false
      → size + slab_sizeof < 2 ^ 64
      → IsOrder c (size + slab_sizeof) (slab_order c (size + slab_sizeof))
  unfolding slab_order
  below-IsOrder v below fits = elim (Bool-cases (ltb A.slab_size (size + slab_sizeof))) [
    | inl past ↦
        let bound = v.bound in
        let whole = v.whole in
        let order0 = v.order0 in
        let sizes =
          two_pow_mono {a = c.order0_size_lb} {b = c.order_max + c.order0_size_lb} (omega arith) in
        let not_small : leb (size + slab_sizeof) c.order0_size ≡ false = ground arith in
        let e : slab_order c (size + slab_sizeof) ≡ c.order_max + 1 = rw (not_small, past) refl in
        absurd (ground arith)
    | inr inside ↦ slab_order-IsOrder c v (size + slab_sizeof) (omega arith) (ground arith)
  ]

  is_large :
      size + slab_sizeof < 2 ^ 64
      → (slab_order c (size + slab_sizeof) == c.order_max + 1) ≡ true
      → (slab_get c size ≡ slab_get_large c size) × (slab_real_size c size ≡ size + slab_sizeof)
  unfolding slab_get slab_real_size
  is_large fits past =
      let sum : add64 size slab_sizeof ≡ size + slab_sizeof = omega arith in
      (rw (sum, past) refl, rw (sum, past) refl)

  is_ordered :
      size + slab_sizeof < 2 ^ 64
      → (slab_order c (size + slab_sizeof) == c.order_max + 1) ≡ false
      → (slab_get c size ≡ slab_get_with_order c (slab_order c (size + slab_sizeof)))
        × (slab_real_size c size ≡ slab_order_size c (slab_order c (size + slab_sizeof)))
  unfolding slab_get slab_real_size
  is_ordered fits below =
      let sum : add64 size slab_sizeof ≡ size + slab_sizeof = omega arith in
      (rw (sum, below) refl, rw (sum, below) refl)

  -- In a valid cache whose counters are words, over an arena that aligns its slabs, for a size that
  -- stays below 2^64 with its header: `slab_get` gives out a slab of exactly the size that
  -- `slab_real_size` says, which is enough for the size and the header; or it returns NULL, only where
  -- the quota, `malloc` or the arena refuses (the arena after a search of the free lists).
  pub slab_get-Got :
      IsValid c
      → IsCounted c.allocated
      → MapsAligned A
      → size + slab_sizeof < 2 ^ 64
      → Got c size (slab_get c size)
  slab_get-Got v n a fits =
      elim (Bool-cases (slab_order c (size + slab_sizeof) == c.order_max + 1)) [
        | inl past ↦
            let e = is_large fits past in
            subst (λ (r : Option ℕ × SlabCache A). Got c size r) (sym e.0)
              (large-Got e.1 (slab_get_large-LargeGiven c size n fits))
        | inr below ↦
            let e = is_ordered fits below in
            let o = below-IsOrder v.sized below fits in
            subst (λ (r : Option ℕ × SlabCache A). Got c size r) (sym e.0)
              (ordered-Got e.1 o.enough
                (slab_get_with_order-Given c v a (slab_order c (size + slab_sizeof)) o.inside))
      ]
