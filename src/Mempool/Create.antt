-- ===== src/Mempool/Create.antt =====
-- A new pool.
use mathlib.Core.Path.{subst}
use native.Mathlib.Nat.{div-le_self, mod-eq_of_lt, div-add-mod', le-div_iff_mul-le}
use small.Base.{
  ℕ, ◌+◌, ◌-◌, ◌*◌, ◌/◌, ◌%◌, ◌^◌, ◌≤◌, ◌<◌, ◌≡◌, refl, sym, ap, ◌∙◌, Option, none, List, arith,
}
use small.Base.Words.{sub32, to_u32}
use small.SlabCache.{Arena, SlabCache, slab_order_size}
use small.Mempool.{word_size, Mslab, Mempool, mslab_sizeof, mempool_create_with_order}
use small.Mempool.Tree.{SlabTree}
use small.Mempool.Pool.{IsPool}

module _ {A : Arena} (T : SlabTree) (cache : SlabCache A) (objsize order : ℕ) (mslabs : ℕ → Mslab)
    (links : ℕ → Option ℕ) (small : slab_order_size cache order < 2 ^ 32)
    (wide : word_size ≤ objsize) (fits : mslab_sizeof + objsize ≤ slab_order_size cache order)
    (aligned : slab_order_size cache order % word_size ≡ 0) where
  abbrev created : Mempool A T
  created = mempool_create_with_order cache objsize order mslabs links

  size_is : to_u32 (slab_order_size cache order) ≡ slab_order_size cache order
  size_is = mod-eq_of_lt small

  created_count : created.objcount ≡ (slab_order_size cache order - mslab_sizeof) / objsize
  unfolding mempool_create_with_order
  created_count =
      let left : sub32 (slab_order_size cache order) mslab_sizeof
          ≡ slab_order_size cache order - mslab_sizeof =
        omega (arith, small, fits) in
      rw (size_is, left) refl

  created_room : created.objcount * objsize ≤ slab_order_size cache order - mslab_sizeof
  created_room =
      let whole = div-add-mod' (slab_order_size cache order - mslab_sizeof) objsize in
      let q = ap (λ (n : ℕ). n * objsize) created_count in omega arith

  created_some : 1 ≤ created.objcount
  created_some =
      let one : 1 ≤ (slab_order_size cache order - mslab_sizeof) / objsize =
        (le-div_iff_mul-le (omega (arith, wide))).1 (omega (arith, fits)) in
      omega (arith, created_count)

  created_offset : created.offset + created.objcount * objsize ≡ slab_order_size cache order
  unfolding mempool_create_with_order
  created_offset =
      let c = (slab_order_size cache order - mslab_sizeof) / objsize in
      let left : sub32 (slab_order_size cache order) mslab_sizeof
          ≡ slab_order_size cache order - mslab_sizeof =
        omega (arith, small, fits) in
      let room : c * objsize ≤ slab_order_size cache order - mslab_sizeof =
        subst (λ (n : ℕ). n * objsize ≤ slab_order_size cache order - mslab_sizeof) created_count
          created_room in
      let below : c * objsize % 2 ^ 32 ≡ c * objsize = mod-eq_of_lt (omega (arith, small)) in
      rw (size_is, left, below) (omega (arith, small, fits))

  -- For objects of at least the 8 bytes of a pointer that fit, with the header of a slab, into a
  -- slab of the order, whose size is less than 2^32 and a multiple of 8: a new pool has no slabs
  -- and is right; each of its slabs will hold at least one object, the first one past the header
  -- and the last one up to the end; and the remainder of the offset of the first one by 8 is what
  -- the bytes of all objects lack of a multiple of 8, so that it is aligned only where these are
  -- one.
  pub mempool_create_with_order-IsPool :
      (free : ℕ → List ℕ)
      → IsPool none created free
        × (1 ≤ created.objcount)
        × (mslab_sizeof ≤ created.offset)
        × (created.offset + created.objcount * objsize ≡ slab_order_size cache order)
        × (created.offset % word_size
            ≡ (word_size - created.objcount * objsize % word_size) % word_size)
  unfolding mempool_create_with_order
  mempool_create_with_order-IsPool free =
      let room = created_room in
      (
        record {
          small = omega (arith, created_offset, small);
          word = omega (
            arith,
            created_count,
            small,
            div-le_self (slab_order_size cache order - mslab_sizeof) objsize,
          );
          sized = omega (arith, wide);
          some_objects = created_some;
          slabs_once = tt;
          slabs_free = λ s is. absurd (ground (arith, is));
          distinct = λ s is. absurd (ground (arith, is));
          hot_flag = λ s is. absurd (ground (arith, is));
          hot = λ s is. absurd (ground (arith, sym (T.has-empty s) ∙ is));
          first = T.has-empty;
          cold = λ s is. absurd (ground (arith, is));
          cold_once = tt;
          is_spare = λ s is. absurd (ground (arith, is));
          known = λ s is h1 h2 h3. absurd (ground (arith, is));
        },
        created_some,
        omega (arith, created_offset, fits),
        created_offset,
        omega (arith, created_offset, aligned),
      )
