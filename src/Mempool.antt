-- ===== src/Mempool.antt =====
-- include/small/mempool.h and small/mempool.c: objects of one size, in slabs of one order. A slab is
-- its address; `mslabs` is the header that the pool keeps in each slab, and `links` is the word that is
-- read at an address, where the freed objects keep the next of them. A write of a word also changes the
-- words and the headers that it overlaps.
pub mod Tree
pub mod Slab
pub mod Pool
pub mod Draw
pub mod Ready
pub mod Fresh
pub mod Alloc
pub mod Create
pub mod Erase
pub mod Store
pub mod Linked
pub mod Cold
pub mod Spare
pub mod Freed
mod Tests
use small.Base.{
  ℕ, zero, suc, ◌+◌, ◌-◌, ◌*◌, ◌/◌, ◌%◌, ◌^◌, ◌≤◌, ◌<◌, min, max, bit_and, bit_or, bit_xor, ◌≡◌,
  refl, sym, ap, ◌∙◌, ◌≢◌, ◌↔◌, ◌⊎◌, inl, inr, Bool, true, false, ◌&&◌, ◌||◌, not, Option, none,
  some, List, [], ◌∷◌, ◌++◌, map, arith, ltb, leb, ◌==◌, if◌then◌else◌, Bool-cases, Option-cases,
  length, get_elem?, set, length-append,
}
use small.Base.Update.{update}
use small.Base.Words.{add32, sub32, add64, sub64, shr, to_u32}
use small.SlabCache.{
  Arena, SlabCache, SlabList, erase, slab_list_create, slab_list_add, slab_list_del, slab_order,
  slab_order_size,
}
use small.SlabCache.Get.{slab_get_with_order}
use small.SlabCache.Put.{slab_put_with_order}
use small.Mempool.Tree.{SlabTree}

-- The size of the header of a slab of a pool, which is a multiple of the size of a pointer.
abbrev pub mslab_sizeof : ℕ
mslab_sizeof = 112

-- "slab fragmentation must reach 1/8 before it's recycled"
abbrev pub max_cold_fraction_lb : ℕ
max_cold_fraction_lb = 3

pub record Mslab : Type 0 where
  pub free_list : Option ℕ
  pub free_offset : ℕ
  pub nfree : ℕ
  pub in_hot_slabs : Bool

pub record Mempool (A : Arena) (T : SlabTree) : Type 0 where
  pub cache : SlabCache A
  pub slabs : SlabList
  pub hot_slabs : T.Tree
  pub first_hot_slab : Option ℕ
  pub cold_slabs : List ℕ
  pub spare : Option ℕ
  pub objsize : ℕ
  pub slab_order : ℕ
  pub objcount : ℕ
  pub offset : ℕ
  pub slab_ptr_mask : ℕ
  pub mslabs : ℕ → Mslab
  pub links : ℕ → Option ℕ

-- What a write of a word leaves in the words and the headers that it overlaps in part, by address.
pub record Torn : Type 0 where
  pub word : ℕ → Option ℕ
  pub header : ℕ → Mslab

pub record MempoolStats : Type 0 where
  pub objsize : ℕ
  pub objcount : ℕ
  pub slabsize : ℕ
  pub slabcount : ℕ
  pub used : ℕ
  pub total : ℕ

unfoldable pub mempool_objsize_max : (slab_size : ℕ) → ℕ
mempool_objsize_max slab_size = bit_and (sub32 slab_size mslab_sizeof / 16) (2 ^ 64 - 8)

-- The size of a pointer.
abbrev pub word_size : ℕ
word_size = 8

-- The words at the addresses after one was written, which overlaps those that start near it.
abbrev pub store_word :
    (torn links : ℕ → Option ℕ) → (object : ℕ) → Option ℕ → (address : ℕ) → Option ℕ
store_word torn links object value address =
    if address == object
    then value
    else if ltb address (object + word_size) && ltb object (address + word_size)
    then torn address
    else links address

-- The headers of the slabs after a word was written.
abbrev pub store_header : (torn mslabs : ℕ → Mslab) → (object slab : ℕ) → Mslab
store_header torn mslabs object slab =
    if ltb slab (object + word_size) && ltb object (slab + mslab_sizeof)
    then torn slab
    else mslabs slab

abbrev pub is_slab : Option ℕ → ℕ → Bool
is_slab none slab = false
is_slab (some s) slab = s == slab

-- `pool->first_hot_slab == NULL || mslab_cmp(pool->first_hot_slab, slab) == 1`
abbrev pub lower_first : Option ℕ → ℕ → Option ℕ
lower_first none slab = some slab
lower_first (some first) slab = if ltb slab first then some slab else some first

module _ {A : Arena} where
  unfoldable pub put_slabs : SlabCache A → List ℕ → SlabCache A
  put_slabs cache [] = cache
  put_slabs cache (slab ∷ rest) = put_slabs (slab_put_with_order cache slab) rest

module _ {A : Arena} {T : SlabTree} where
  -- What a slab holds before it is formatted, and what is in the memory of objects, is arbitrary.
  unfoldable pub mempool_create_with_order :
      SlabCache A → (objsize order : ℕ) → (ℕ → Mslab) → (ℕ → Option ℕ) → Mempool A T
  mempool_create_with_order cache objsize order mslabs links =
      let slab_size = to_u32 (slab_order_size cache order) in
      let objcount = sub32 slab_size mslab_sizeof / objsize in
      record {
        cache = cache;
        slabs = slab_list_create;
        hot_slabs = T.empty;
        first_hot_slab = none;
        cold_slabs = [];
        spare = none;
        objsize = objsize;
        slab_order = order;
        objcount = objcount;
        offset = sub32 slab_size (objcount * objsize % 2 ^ 32);
        slab_ptr_mask = 2 ^ 64 - 1 - sub64 (slab_order_size cache order) 1;
        mslabs = mslabs;
        links = links;
      }

  -- `divide` is the division by OVERHEAD_RATIO, in floating point.
  unfoldable pub mempool_create :
      (divide : ℕ → ℕ) → SlabCache A → (objsize : ℕ) → (ℕ → Mslab) → (ℕ → Option ℕ) → Mempool A T
  unfolding mempool_create_with_order
  mempool_create divide cache objsize mslabs links =
      let overhead = if ltb mslab_sizeof objsize then objsize else mslab_sizeof in
      let slab_size = min (divide overhead) A.slab_size in
      mempool_create_with_order cache objsize (slab_order cache slab_size) mslabs links

  abbrev pub set_mslab : Mempool A T → ℕ → Mslab → Mempool A T
  set_mslab p slab h = record p { mslabs = update p.mslabs slab h }

  unfoldable pub mslab_create : Mempool A T → ℕ → Mempool A T
  mslab_create p slab = set_mslab p slab (record {
    free_list = none;
    free_offset = p.offset;
    nfree = p.objcount;
    in_hot_slabs = false;
  })

  -- Puts a slab into the tree.
  abbrev pub heat : Mempool A T → ℕ → Mempool A T
  heat p slab =
      let p' : Mempool A T = set_mslab p slab (record (p.mslabs slab) { in_hot_slabs = true }) in
      record p' { hot_slabs = T.insert p.hot_slabs slab }

  -- Takes a slab out of the tree.
  abbrev pub cool : Mempool A T → ℕ → Mempool A T
  cool p slab =
      let p' : Mempool A T = set_mslab p slab (record (p.mslabs slab) { in_hot_slabs = false }) in
      record p' {
        first_hot_slab =
            if is_slab p.first_hot_slab slab then T.next p.hot_slabs slab else p.first_hot_slab;
        hot_slabs = T.remove p.hot_slabs slab;
      }

  -- An object, from the list of freed ones or from the untouched area.
  abbrev pub take_object : Mempool A T → ℕ → Option ℕ → ℕ × Mempool A T
  take_object p slab (some object) =
      (object, set_mslab p slab (record (p.mslabs slab) { free_list = p.links object }))
  take_object p slab none =
      let h : Mslab = p.mslabs slab in
      (
        slab + h.free_offset,
        set_mslab p slab (record h { free_offset = add32 h.free_offset p.objsize }),
      )

  abbrev pub count_taken : ℕ → ℕ × Mempool A T → ℕ × Mempool A T
  count_taken slab (object, p) =
      let h : Mslab = p.mslabs slab in
      let nfree = sub32 h.nfree 1 in
      let p' : Mempool A T = set_mslab p slab (record h { nfree = nfree }) in
      (object, if nfree == 0 then cool p' slab else p')

  unfoldable pub mslab_alloc : Mempool A T → ℕ → ℕ × Mempool A T
  mslab_alloc p slab = count_taken slab (take_object p slab (p.mslabs slab).free_list)

  -- Gives a slab back to the cache.
  abbrev pub put_slab : Mempool A T → ℕ → Mempool A T
  put_slab p slab = record p {
    slabs = slab_list_del p.slabs slab (p.cache.headers slab).size;
    cache = slab_put_with_order p.cache slab;
  }

  abbrev pub free_spare : Mempool A T → Option ℕ → Mempool A T
  free_spare p none = p
  free_spare p (some spare) = let p' : Mempool A T = put_slab p spare in record p' { spare = none }

  unfoldable pub mempool_free_spare_slab : Mempool A T → Mempool A T
  mempool_free_spare_slab p = free_spare p p.spare

  -- A slab without objects becomes the spare one, or is given back, the lower one being kept.
  abbrev pub keep_spare : Mempool A T → ℕ → Option ℕ → Mempool A T
  keep_spare p slab none = record p { spare = some slab }
  keep_spare p slab (some spare) =
      if ltb slab spare
      then (let p' : Mempool A T = mempool_free_spare_slab p in record p' { spare = some slab })
      else put_slab p slab

  abbrev pub add_hot : Mempool A T → ℕ → Mempool A T
  add_hot p slab =
      let p' : Mempool A T = heat (record p { cold_slabs = erase slab p.cold_slabs }) slab in
      record p' { first_hot_slab = lower_first p.first_hot_slab slab }

  -- `memcpy` of a pointer to an object.
  abbrev pub write_link : Torn → Mempool A T → (object : ℕ) → Option ℕ → Mempool A T
  write_link torn p object value = record p {
    links = store_word torn.word p.links object value;
    mslabs = store_header torn.header p.mslabs object;
  }

  unfoldable pub mslab_free : Torn → Mempool A T → (slab object : ℕ) → Mempool A T
  unfolding mempool_free_spare_slab
  mslab_free torn p slab object =
      let linked : Mempool A T = write_link torn p object (p.mslabs slab).free_list in
      let h : Mslab = linked.mslabs slab in
      let nfree = add32 h.nfree 1 in
      let p' : Mempool A T =
        set_mslab linked slab (record h { free_list = some object; nfree = nfree }) in
      if not h.in_hot_slabs && leb (shr p.objcount max_cold_fraction_lb) nfree
      then add_hot p' slab
      else if nfree == 1
      then record p' { cold_slabs = slab ∷ p'.cold_slabs }
      else if nfree == p.objcount
      then (let c : Mempool A T = cool p' slab in keep_spare c slab c.spare)
      else p'

  unfoldable pub mempool_free_slab : Torn → Mempool A T → (slab object : ℕ) → Mempool A T
  unfolding mslab_free
  mempool_free_slab torn p slab object =
      mslab_free torn (record p { slabs = record p.slabs { used = sub64 p.slabs.used p.objsize } })
        slab object

  -- The mask clears the bits below the size of a slab: `slab_from_ptr`.
  unfoldable pub mempool_free : Torn → Mempool A T → (object : ℕ) → Mempool A T
  unfolding mempool_free_slab
  mempool_free torn p object = mempool_free_slab torn p (bit_and object p.slab_ptr_mask) object

  -- The slab that an allocation warms up becomes the first.
  abbrev pub heat_first : Mempool A T → ℕ → Option ℕ × Mempool A T
  heat_first p slab =
      let p' : Mempool A T = heat p slab in (some slab, record p' { first_hot_slab = some slab })

  abbrev pub from_cold : Mempool A T → List ℕ → Option ℕ × Mempool A T
  from_cold p [] = (none, p)
  from_cold p (slab ∷ rest) = heat_first (record p { cold_slabs = rest }) slab

  abbrev pub from_cache : Mempool A T → Option ℕ × SlabCache A → Option ℕ × Mempool A T
  from_cache p (none, cache) = from_cold (record p { cache = cache }) p.cold_slabs
  from_cache p (some slab, cache) =
      let p' : Mempool A T = mslab_create (record p { cache = cache }) slab in
      heat_first (record p' { slabs = slab_list_add p.slabs slab (cache.headers slab).size }) slab

  abbrev pub from_spare : Mempool A T → Option ℕ → Option ℕ × Mempool A T
  from_spare p (some slab) = heat_first (record p { spare = none }) slab
  from_spare p none = from_cache p (slab_get_with_order p.cache p.slab_order)

  -- The slab to allocate from.
  abbrev pub hot_slab : Mempool A T → Option ℕ → Option ℕ × Mempool A T
  hot_slab p (some slab) = (some slab, p)
  hot_slab p none = from_spare p p.spare

  abbrev pub alloc_from : Option ℕ × Mempool A T → Option ℕ × Mempool A T
  alloc_from (none, p) = (none, p)
  alloc_from (some slab, p) =
      let (object, p') =
        mslab_alloc (record p { slabs = record p.slabs { used = add64 p.slabs.used p.objsize } })
          slab in
      (some object, p')

  unfoldable pub mempool_alloc : Mempool A T → Option ℕ × Mempool A T
  unfolding mslab_alloc mslab_create
  mempool_alloc p = alloc_from (hot_slab p p.first_hot_slab)

  -- The cache that the slabs are in again. The pool itself is zeroed.
  unfoldable pub mempool_destroy : Mempool A T → SlabCache A
  unfolding put_slabs
  mempool_destroy p = put_slabs p.cache p.slabs.slabs

  unfoldable pub mempool_used : Mempool A T → ℕ
  mempool_used p = p.slabs.used

  unfoldable pub mempool_total : Mempool A T → ℕ
  mempool_total p = p.slabs.total

  unfoldable pub mempool_count : Mempool A T → ℕ
  mempool_count p = p.slabs.used / p.objsize

  unfoldable pub mempool_stats : Mempool A T → MempoolStats
  unfolding mempool_count
  mempool_stats p =
      let slabsize = to_u32 (slab_order_size p.cache p.slab_order) in
      let slabcount = to_u32 (p.slabs.total / slabsize) in
      record {
        objsize = p.objsize;
        objcount = to_u32 (mempool_count p);
        slabsize = slabsize;
        slabcount = slabcount;
        used = p.slabs.used;
        total = sub64 p.slabs.total (mslab_sizeof * slabcount % 2 ^ 32);
      }
