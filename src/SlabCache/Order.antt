-- ===== src/SlabCache/Order.antt =====
-- The order of a size, and the sizes that a new cache has.
use small.Base.{
  ℕ, ◌+◌, ◌-◌, ◌%◌, ◌^◌, ◌≤◌, ◌<◌, ◌≡◌, refl, ◌⊎◌, inl, inr, false, arith, ltb, leb, Bool-cases,
}
use small.Base.Bits.{two_pow_reflects, two_pow_mono, pow_pos}
use small.Base.Words.{sub64, sub32, to_u32, clz, clz-TopBit, shl64}
use small.SlabCache.{Arena, SlabCache, slab_order, slab_order_size}

-- The sizes are powers of two, up to 2 GiB, and the largest is that of the slabs of the arena.
pub record IsSized {A : Arena} (c : SlabCache A) : Type 0 where
  pub order0 : c.order0_size ≡ 2 ^ c.order0_size_lb
  pub whole : A.slab_size ≡ 2 ^ (c.order_max + c.order0_size_lb)
  pub bound : c.order_max + c.order0_size_lb ≤ 31

pub shl64-one : (k : ℕ) → k ≤ 63 → shl64 1 k ≡ 2 ^ k
shl64-one k h = omega (arith, two_pow_mono {a = k} {b = 63} h)

-- The order that a size has, and what is smallest about it.
pub record IsOrder {A : Arena} (c : SlabCache A) (size order : ℕ) : Type 0 where
  pub inside : order ≤ c.order_max
  pub enough : size ≤ slab_order_size c order
  pub least : (order ≡ 0) ⊎ (slab_order_size c (order - 1) < size)

module _ {A : Arena} (c : SlabCache A) (v : IsSized c) where
  pub order_size :
      (order : ℕ) → order ≤ c.order_max → slab_order_size c order ≡ 2 ^ (order + c.order0_size_lb)
  unfolding slab_order_size
  order_size order h = let bound = v.bound in shl64-one (order + c.order0_size_lb) (omega arith)

  -- In a cache with sizes that are powers of two, for a size from 1 to the size of the slabs of the
  -- arena, `slab_order` returns the least order whose slabs have at least that size.
  pub slab_order-IsOrder :
      (size : ℕ) → 1 ≤ size → size ≤ A.slab_size → IsOrder c size (slab_order c size)
  unfolding slab_order
  slab_order-IsOrder size pos fits =
      let bound = v.bound in
      let order0 = v.order0 in
      let whole = v.whole in
      let lb : ℕ = c.order0_size_lb in
      let top_size = two_pow_mono {a = c.order_max + lb} {b = 31} bound in
      elim (Bool-cases (leb size c.order0_size)) [
        | inl small ↦
            let same : 0 + lb ≡ lb = omega arith in
            let unit_size = order_size 0 (omega arith) in
            rw small (record {
              inside = omega arith;
              enough = rw (unit_size, same) (ground arith);
              least = inl refl;
            })
        | inr large ↦
            let not_huge : ltb A.slab_size size ≡ false = ground arith in
            let n : ℕ = size - 1 in
            let n_eq : sub32 (to_u32 size) 1 ≡ n = ground arith in
            let more : 2 ^ lb ≤ n = ground arith in
            let one = pow_pos lb in
            let top = clz-TopBit 32 n (omega arith) (omega arith) in
            let below = top.below in
            let lower = top.lower in
            let upper = top.upper in
            let t : ℕ = 32 - clz 32 n in
            let past = two_pow_reflects {a = lb} {b = t} (omega arith) in
            let not_past =
              two_pow_reflects {a = 32 - 1 - clz 32 n} {b = c.order_max + lb} (omega arith) in
            let order_eq : sub64 t lb % 2 ^ 8 ≡ t - lb = omega arith in
            let size_eq = order_size (t - lb) (omega arith) in
            let size_eq' = order_size (t - lb - 1) (omega arith) in
            let e : t - lb + lb ≡ t = omega arith in
            let e' : t - lb - 1 + lb ≡ 32 - 1 - clz 32 n = omega arith in
            rw (large, not_huge, n_eq, order_eq)
              (record {
                inside = omega arith;
                enough = rw (size_eq, e) (omega arith);
                least = inr (rw (size_eq', e') (omega arith));
              })
      ]
