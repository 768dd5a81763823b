-- ===== src/SlabCache/Lowest.antt =====
-- What `slab_cache_check` asks of the statistics of an order.
use mathlib.Core.Path.{subst}
use native.Mathlib.Nat.{mul-mod_left}
use small.Base.{ℕ, ◌+◌, ◌-◌, ◌*◌, ◌%◌, ◌^◌, ◌≤◌, ◌≡◌, sym, ap, ◌∙◌, ◌↔◌, true, ◌&&◌, arith, ◌==◌}
use small.Base.Bits.{two_pow_add}
use small.SlabCache.{Arena, SlabCache, slab_order_size}
use small.SlabCache.Check.{check_order, checked_size}
use small.SlabCache.Order.{IsSized, order_size}

both_zero : (t u : ℕ) → (((t == 0) && (u == 0)) ≡ true) ↔ ((t ≡ 0) × (u ≡ 0))
both_zero t u =
    (λ e. (ground arith, ground arith), λ h. (let a = h.0 in let b = h.1 in ground arith))

module _ {A : Arena} (c : SlabCache A) (v : IsSized c) (page : 8 ≤ c.order0_size_lb) where
  checked_size-lowest : (i : ℕ) → i ≤ c.order_max → checked_size c i ≡ slab_order_size c 0
  checked_size-lowest i h =
      let k : ℕ = i + c.order0_size_lb in
      let split : k - 8 + 8 ≡ k = omega arith in
      let whole : slab_order_size c i ≡ 2 ^ (k - 8) * 2 ^ 8 =
        order_size c v i h ∙ ap (λ (t : ℕ). 2 ^ t) (sym split) ∙ two_pow_add (k - 8) 8 in
      let gone : slab_order_size c i % 2 ^ 8 ≡ 0 =
        ap (λ (t : ℕ). t % 2 ^ 8) whole ∙ mul-mod_left (2 ^ (k - 8)) (2 ^ 8) in
      ap (λ (t : ℕ). slab_order_size c t) gone

  -- In a cache with sizes that are powers of two and slabs of at least 256 bytes, for each order:
  -- `slab_cache_check` accepts the statistics of the order exactly if the total and the used bytes
  -- are multiples of the size of the lowest order.
  pub check_order-lowest :
      (i : ℕ)
      → i ≤ c.order_max
      → (check_order c i ≡ true) ↔ (
          ((c.orders i).total % slab_order_size c 0 ≡ 0)
          × ((c.orders i).used % slab_order_size c 0 ≡ 0))
  check_order-lowest i h =
      let e = checked_size-lowest i h in
      subst
        (λ (s : ℕ). ((((c.orders i).total % s == 0) && ((c.orders i).used % s == 0)) ≡ true) ↔ (
          ((c.orders i).total % slab_order_size c 0 ≡ 0)
          × ((c.orders i).used % slab_order_size c 0 ≡ 0)))
        (sym e)
        (both_zero ((c.orders i).total % slab_order_size c 0)
          ((c.orders i).used % slab_order_size c 0))
