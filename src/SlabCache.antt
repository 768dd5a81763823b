-- ===== src/SlabCache.antt =====
-- include/small/slab_cache.h, include/small/slab_list.h and small/slab_cache.c: slabs of sizes that
-- are powers of two, split and merged by the buddy system. A slab is an address, and its header is
-- what the cache keeps at this address. The links of a header are the lists of addresses. The
-- instrumentation for valgrind and the identity of the thread are left out.
pub mod Get
pub mod Put
pub mod Check
pub mod Order
pub mod Buddy
pub mod Split
pub mod Found
pub mod Given
pub mod Create
pub mod Large
pub mod Enough
pub mod Merge
pub mod Lowest
mod Tests
use small.Base.{
  ℕ, zero, suc, ◌+◌, ◌-◌, ◌*◌, ◌/◌, ◌%◌, ◌^◌, ◌≤◌, ◌<◌, min, max, bit_and, bit_or, bit_xor, ◌≡◌,
  refl, sym, ap, ◌∙◌, ◌≢◌, ◌↔◌, ◌⊎◌, inl, inr, Bool, true, false, ◌&&◌, ◌||◌, not, Option, none,
  some, List, [], ◌∷◌, ◌++◌, map, arith, ltb, leb, ◌==◌, if◌then◌else◌, Bool-cases, Option-cases,
  length, get_elem?, set, length-append,
}
use small.Base.Update.{update}
use small.Base.Words.{add64, sub64, shl64, shr, to_u32, sub32, clz}
use small.Util.{small_lb}
use small.SlabSource.{slab_sizeof}

-- What a cache asks of an arena (include/small/slab_arena.h), of its quota and of `malloc`.
pub record Arena : Type 1 where
  pub State : Type 0
  pub slab_size : ℕ
  pub slab_map : State → Option ℕ × State
  pub slab_unmap : State → ℕ → State
  pub quota_use : State → ℕ → Bool × State
  pub quota_release : State → ℕ → State
  pub malloc : State → ℕ → Option ℕ × State
  pub free : State → ℕ → State

pub record Slab : Type 0 where
  pub size : ℕ
  pub magic : ℕ
  pub order : ℕ
  pub in_use : ℕ

abbrev pub slab_magic : ℕ
slab_magic = 4005625838

-- `ORDER_MAX`
abbrev pub order_limit : ℕ
order_limit = 16

pub record SlabList : Type 0 where
  pub slabs : List ℕ
  pub used : ℕ
  pub total : ℕ

abbrev pub slab_list_create : SlabList
slab_list_create = record { slabs = []; used = 0; total = 0 }

-- Takes an address out of a list.
abbrev pub erase : ℕ → List ℕ → List ℕ
erase a [] = []
erase a (x ∷ xs) = if a == x then xs else x ∷ erase a xs

-- `size` is that of the slab.
abbrev pub slab_list_add : SlabList → (slab size : ℕ) → SlabList
slab_list_add l slab size = record l { slabs = slab ∷ l.slabs; total = add64 l.total size }

abbrev pub slab_list_del : SlabList → (slab size : ℕ) → SlabList
slab_list_del l slab size = record l { slabs = erase slab l.slabs; total = sub64 l.total size }

abbrev pub is_empty : List ℕ → Bool
is_empty [] = true
is_empty (x ∷ xs) = false

pub record SlabCache (A : Arena) : Type 0 where
  pub arena : A.State
  pub order0_size : ℕ
  pub order0_size_lb : ℕ
  pub order_max : ℕ
  pub allocated : SlabList
  pub orders : ℕ → SlabList
  pub headers : ℕ → Slab

abbrev pub no_slab : Slab
no_slab = record { size = 0; magic = 0; order = 0; in_use = 0 }

-- `min_order0_size` is the size of a page, which the system says.
unfoldable pub slab_cache_create : (A : Arena) → (min_order0_size : ℕ) → A.State → SlabCache A
slab_cache_create A min_order0_size arena =
    let lb = small_lb (A.slab_size / min_order0_size) in
    let order_max = if ltb (order_limit - 1) lb then order_limit - 1 else lb in
    let order0_size = to_u32 (shr A.slab_size order_max) in
    record {
      arena = arena;
      order0_size = order0_size;
      order0_size_lb = small_lb order0_size;
      order_max = order_max;
      allocated = slab_list_create;
      orders = λ o. slab_list_create;
      headers = λ a. no_slab;
    }

module _ {A : Arena} where
  unfoldable pub slab_cache_used : SlabCache A → ℕ
  slab_cache_used c = c.allocated.used

  unfoldable pub slab_order : SlabCache A → ℕ → ℕ
  slab_order c size =
      if leb size c.order0_size
      then 0
      else if ltb A.slab_size size
      then c.order_max + 1
      else sub64 (32 - clz 32 (sub32 (to_u32 size) 1)) c.order0_size_lb % 2 ^ 8

  unfoldable pub slab_order_size : SlabCache A → ℕ → ℕ
  slab_order_size c order = shl64 1 (order + c.order0_size_lb)

  unfoldable pub slab_real_size : SlabCache A → ℕ → ℕ
  slab_real_size c size =
      let size' = add64 size slab_sizeof in
      let order = slab_order c size' in
      if order == c.order_max + 1 then size' else slab_order_size c order

  -- Changes the list of an order.
  abbrev pub set_order : SlabCache A → ℕ → SlabList → SlabCache A
  set_order c order l = record c { orders = update c.orders order l }

  abbrev pub set_header : SlabCache A → ℕ → Slab → SlabCache A
  set_header c a h = record c { headers = update c.headers a h }

  unfoldable pub slab_create : SlabCache A → (slab order size : ℕ) → SlabCache A
  slab_create c slab order size =
      set_header c slab (record { size = size; magic = slab_magic; order = order; in_use = 0 })

  unfoldable pub slab_set_free : SlabCache A → ℕ → SlabCache A
  slab_set_free c slab =
      let h : Slab = c.headers slab in
      let l : SlabList = c.orders h.order in
      let c' : SlabCache A = record c {
        allocated = record c.allocated { used = sub64 c.allocated.used h.size };
      } in
      set_header (set_order c' h.order (record l { used = sub64 l.used h.size })) slab
        (record h { in_use = 0 })

  unfoldable pub slab_set_used : SlabCache A → ℕ → SlabCache A
  slab_set_used c slab =
      let h : Slab = c.headers slab in
      let l : SlabList = c.orders h.order in
      let c' : SlabCache A = record c {
        allocated = record c.allocated { used = add64 c.allocated.used h.size };
      } in
      set_header (set_order c' h.order (record l { used = add64 l.used h.size })) slab
        (record h { in_use = 1 + h.order })

  -- The address of the buddy has the bit of the size negated. A slab of the highest order has none.
  unfoldable pub slab_buddy : SlabCache A → ℕ → Option ℕ
  slab_buddy c slab =
      let order = (c.headers slab).order in
      if order == c.order_max then none else some (bit_xor slab (slab_order_size c order))
