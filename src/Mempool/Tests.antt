-- ===== src/Mempool/Tests.antt =====
-- A pool of objects of 1000 bytes in slabs of 4096 bytes, over a cache with slabs up to 32768 bytes.
use mathlib.Core.Path.{subst}
use small.Base.{
  ◌-◌, ◌%◌, bit_and, ℕ, ◌+◌, ◌*◌, ◌≤◌, ◌<◌, min, ◌≡◌, refl, ◌∙◌, inl, inr, true, false, ◌&&◌, not,
  Option, none, some, List, [], ◌∷◌, arith, ltb, leb, ◌==◌, if◌then◌else◌, Bool-cases,
}
use small.Base.Update.{update}
use small.Base.Words.{clz, sub64}
use small.Util.{small_lb}
use small.SlabCache.{Arena, SlabCache, slab_cache_create, slab_order_size}
use small.SlabCache.Get.{slab_get_with_order}
use small.Mempool.{
  word_size, Torn, Mslab, Mempool, mslab_sizeof, mempool_create_with_order, mempool_alloc,
  mempool_free, mempool_used,
}
use small.Mempool.Tree.{SlabTree}
use small.Mempool.Pool.{contains, IsPool}
use small.Mempool.Alloc.{Allocated, mempool_alloc-Allocated}
use small.Mempool.Linked.{IsLent}
use small.Mempool.Spare.{Settled}
use small.Mempool.Freed.{mempool_free-Settled}
use small.Mempool.Create.{mempool_create_with_order-IsPool}

-- The slabs of a tree as a list.
remove_all : List ℕ → ℕ → List ℕ
remove_all [] y = []
remove_all (x ∷ xs) y = if y == x then remove_all xs y else x ∷ remove_all xs y

contains-remove :
    (xs : List ℕ) (y x : ℕ) → contains (remove_all xs y) x ≡ not (y == x) && contains xs x
unfolding remove_all
contains-remove [] y x = ground arith
contains-remove (z ∷ zs) y x =
    let rest = contains-remove zs y x in
    elim (Bool-cases (y == z)) [
      | inl gone ↦ rw gone (rest ∙ ground arith)
      | inr kept ↦ rw (kept, rest) (ground arith)
    ]

-- The least number of a list past another.
abbrev lower : ℕ → Option ℕ → Option ℕ
lower x none = some x
lower x (some z) = some (min x z)

next_in : List ℕ → ℕ → Option ℕ
next_in [] x = none
next_in (y ∷ ys) x = if ltb x y then lower y (next_in ys x) else next_in ys x

abbrev IsNext : List ℕ → ℕ → Option ℕ → Type 0
IsNext xs x none = (y : ℕ) → contains xs y ≡ true → y ≤ x
IsNext xs x (some z) =
    (contains xs z ≡ true) × (x < z) × ((y : ℕ) → contains xs y ≡ true → x < y → z ≤ y)

lower-IsNext :
    (y : ℕ) (ys : List ℕ) (x : ℕ)
    → x < y
    → (o : Option ℕ) → IsNext ys x o
    → IsNext (y ∷ ys) x (lower y o)
lower-IsNext y ys x less none n = (
  ground arith,
  less,
  λ z is past. elim (Bool-cases (y == z)) [
    | inl same ↦ ground arith
    | inr other ↦
        (let later : contains ys z ≡ true = rw other at is in
          let most = n z later in absurd (omega arith))
  ],
)
lower-IsNext y ys x less (some z) n =
    let (is_z, past_z, least_z) = n in
    elim (Bool-cases (leb y z)) [
      | inl first ↦
          (let e : y ≡ min y z = ground arith in
            subst (λ (k : ℕ). IsNext (y ∷ ys) x (some k)) e
              (
                ground arith,
                less,
                λ w is past. elim (Bool-cases (y == w)) [
                  | inl same ↦ ground arith
                  | inr other ↦
                      (let later : contains ys w ≡ true = rw other at is in
                        let least = least_z w later past in ground arith)
                ],
              ))
      | inr later ↦
          (let e : z ≡ min y z = ground arith in
            subst (λ (k : ℕ). IsNext (y ∷ ys) x (some k)) e
              (
                ground arith,
                past_z,
                λ w is past. elim (Bool-cases (y == w)) [
                  | inl same ↦ ground arith
                  | inr other ↦
                      (let inside : contains ys w ≡ true = rw other at is in least_z w inside past)
                ],
              ))
    ]

-- A number that is not past `x` is skipped.
skip-IsNext :
    (y : ℕ) (ys : List ℕ) (x : ℕ) → y ≤ x → (o : Option ℕ) → IsNext ys x o → IsNext (y ∷ ys) x o
skip-IsNext y ys x less none n = λ z is. elim (Bool-cases (y == z)) [
  | inl same ↦ ground arith
  | inr other ↦ (let inside : contains ys z ≡ true = rw other at is in n z inside)
]
skip-IsNext y ys x less (some z) n =
    let (is_z, past_z, least_z) = n in
    (
      ground arith,
      past_z,
      λ w is past. elim (Bool-cases (y == w)) [
        | inl same ↦ absurd (ground arith)
        | inr other ↦ (let inside : contains ys w ≡ true = rw other at is in least_z w inside past)
      ],
    )

next_in-IsNext : (xs : List ℕ) (x : ℕ) → IsNext xs x (next_in xs x)
unfolding next_in
next_in-IsNext [] x = λ y is. absurd (ground (arith, is))
next_in-IsNext (y ∷ ys) x = elim (Bool-cases (ltb x y)) [
  | inl less ↦ rw less (lower-IsNext y ys x (ground arith) (next_in ys x) (next_in-IsNext ys x))
  | inr not_less ↦
      rw not_less (skip-IsNext y ys x (ground arith) (next_in ys x) (next_in-IsNext ys x))
]

abbrev list_tree : SlabTree
list_tree = record {
  Tree = List ℕ;
  empty = [];
  insert = λ t y. y ∷ t;
  remove = remove_all;
  next = next_in;
  has = contains;
  has-empty = λ x. refl;
  has-insert = λ t y x. refl;
  has-remove = contains-remove;
  next_none = λ t x e. subst (IsNext t x) e (next_in-IsNext t x);
  next_some = λ t x z e. subst (IsNext t x) e (next_in-IsNext t x);
}

-- Three slabs, of which each is given out once.
abbrev arena : Arena
arena = record {
  State = ℕ;
  slab_size = 32768;
  slab_map = λ s. if ltb s 2 then (some ((s + 1) * 32768), s + 1) else (none, s);
  slab_unmap = λ s a. s;
  quota_use = λ s n. (true, s);
  quota_release = λ s n. s;
  malloc = λ s n. (none, s);
  free = λ s a. s;
}

abbrev cache : SlabCache arena
cache = slab_cache_create arena 4096 0

abbrev no_mslab : ℕ → Mslab
no_mslab slab = record { free_list = none; free_offset = 0; nfree = 0; in_hot_slabs = false }

abbrev pool : Mempool arena list_tree
pool = mempool_create_with_order cache 1000 0 no_mslab (λ a. none)

order_size : slab_order_size cache 0 ≡ 4096
unfolding slab_cache_create small_lb clz slab_order_size
order_size = refl

mempool_create_with_order-IsPool_example :
    IsPool none pool (λ s. [])
    × (1 ≤ pool.objcount)
    × (mslab_sizeof ≤ pool.offset)
    × (pool.offset + pool.objcount * 1000 ≡ slab_order_size cache 0)
    × (pool.offset % word_size ≡ (word_size - pool.objcount * 1000 % word_size) % word_size)
mempool_create_with_order-IsPool_example =
    mempool_create_with_order-IsPool list_tree cache 1000 0 no_mslab (λ a. none)
      (omega (arith, order_size)) (omega arith) (omega (arith, order_size))
      (omega (arith, order_size)) (λ s. [])

mempool_alloc-Allocated_example : Allocated pool (λ s. []) (mempool_alloc pool)
unfolding mempool_create_with_order
mempool_alloc-Allocated_example =
    mempool_alloc-Allocated pool (λ s. []) mempool_create_with_order-IsPool_example.0
      (λ s got. refl)

abbrev torn : Torn
torn = record { word = λ a. none; header = no_mslab }

abbrev first : Option ℕ × Mempool arena list_tree
first = mempool_alloc pool

abbrev second : Option ℕ × Mempool arena list_tree
second = mempool_alloc first.1

-- A freed object is given out again.
pool_runs :
    (first.0 ≡ some (32768 + 1096))
    × (second.0 ≡ some (32768 + 2096))
    × ((mempool_alloc (mempool_free torn second.1 (32768 + 1096))).0 ≡ some (32768 + 1096))
    × (mempool_used (mempool_free torn second.1 (32768 + 1096)) ≡ 1000)
unfolding mempool_create_with_order mempool_alloc mempool_free mempool_used slab_cache_create
    small_lb clz slab_order_size slab_get_with_order
pool_runs = (refl, refl, refl, refl)

-- The free area of a slab starts at an odd offset.
odd_offset :
    ((mempool_create_with_order {T = list_tree} cache 1001 0 no_mslab (λ a. none)).offset ≡ 1093)
unfolding mempool_create_with_order slab_order_size slab_cache_create small_lb clz
odd_offset = refl

-- A cold slab of which the second object is free and the others were given out.
abbrev used_pool : Mempool arena list_tree
used_pool = record pool {
  slabs = record { slabs = 32768 ∷ []; used = 2000; total = 4096 };
  cold_slabs = 32768 ∷ [];
  mslabs =
      λ s. record { free_list = some 34864; free_offset = 4096; nfree = 1; in_hot_slabs = false };
}

abbrev one_free : ℕ → List ℕ
one_free s = 34864 ∷ []

used_pool-IsPool : IsPool none used_pool one_free
unfolding mempool_create_with_order slab_order_size slab_cache_create small_lb clz
used_pool-IsPool = record {
  small = omega arith;
  word = omega arith;
  sized = omega arith;
  some_objects = omega arith;
  slabs_once = (refl, tt);
  slabs_free = λ s is. (
    record {
      chain = 34864 ∷ [];
      left = 0;
      linked = (refl, refl);
      counted = refl;
      within = refl;
      all = refl;
    },
    omega arith,
  );
  distinct = λ s is. (refl, tt);
  hot_flag = λ s is. refl;
  hot = λ s is. absurd (ground (arith, is));
  first = λ s. refl;
  cold = λ s is. (is, omega arith, refl);
  cold_once = (refl, tt);
  is_spare = λ s is. absurd (ground (arith, is));
  known = λ s is some_free not_hot not_cold. absurd (ground (arith, is, not_cold));
}

abbrev object : ℕ
object = 33864

object-IsLent : IsLent used_pool one_free (bit_and object used_pool.slab_ptr_mask) object
unfolding mempool_create_with_order slab_order_size slab_cache_create small_lb clz
object-IsLent = record {
  is_slab = refl;
  slot = 0;
  in_slab = omega arith;
  at = refl;
  past_header = omega arith;
  wide = omega arith;
  apart = λ y is x in_it. inr (let e : 34864 ≡ x = ground arith in omega arith);
  past_headers = λ y is other. absurd (other (ground arith));
  fewer = omega arith;
}

mempool_free-Settled_example :
    Settled
      (record used_pool.slabs { used = sub64 used_pool.slabs.used used_pool.objsize })
      used_pool.objcount
      (update one_free (bit_and object used_pool.slab_ptr_mask) (object ∷ 34864 ∷ []))
      (mempool_free torn used_pool object)
mempool_free-Settled_example =
    mempool_free-Settled torn used_pool one_free object used_pool-IsPool object-IsLent
