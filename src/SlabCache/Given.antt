-- ===== src/SlabCache/Given.antt =====
-- What `slab_get_with_order` gives out.
use mathlib.Core.Path.{subst}
use small.Base.{
  false, ℕ, ◌+◌, ◌-◌, ◌%◌, ◌≤◌, ◌≡◌, sym, ap, ◌∙◌, inl, inr, Option, none, some, List, [], ◌∷◌,
  arith, ◌==◌, Bool-cases,
}
use small.Base.Update.{update, update_self}
use small.SlabCache.{
  sub64, set_order, Arena, Slab, SlabList, SlabCache, is_empty, slab_order_size, slab_set_used,
}
use small.SlabCache.Get.{split_until, take_first, take_found, slab_get_with_order}
use small.SlabCache.Found.{
  HasFreeHead, IsValid, MapsAligned, IsOut, Found, found_at, missing, find_list-Found,
}
use small.SlabCache.Order.{IsSized}
use small.SlabCache.Split.{
  SameSizes-trans, IsFree, SameSizes, SameSizes-IsSized, size_same, split_until-IsFree,
}

-- The outcomes of a request for an order: NULL, where all lists from this order on are empty and the
-- arena has no slab, and nothing else changes; or a slab of this order, in use, aligned to its size,
-- and the sizes of the cache stay.
pub data Given {A : Arena} (c : SlabCache A) (order : ℕ) : Option ℕ × SlabCache A → Type 0 where
  refused : {s : A.State} → IsOut c order s → Given c order (none, record c { arena = s })
  given :
      {c' : SlabCache A} {slab : ℕ}
      → SameSizes c c'
      → (c'.headers slab).order ≡ order
      → (c'.headers slab).in_use ≡ 1 + order
      → (c'.headers slab).size ≡ slab_order_size c order
      → slab % slab_order_size c order ≡ 0
      → Given c order (some slab, c')

module _ {A : Arena} where
  -- A free slab that is taken into use.
  set_used-Given :
      (c c' : SlabCache A) (slab order : ℕ)
      → SameSizes c c'
      → IsFree c' slab order
      → Given c order (some slab, slab_set_used c' slab)
  unfolding slab_set_used
  set_used-Given c c' slab order same f =
      let header =
        update_self c'.headers slab
          (record (c'.headers slab) { in_use = 1 + (c'.headers slab).order }) in
      let is_order = f.order_is in
      let size_eq = size_same same order in
      given
        (record {
          same_max = same.same_max;
          same_lb = same.same_lb;
          same_order0 = same.same_order0;
        })
        (ap (λ (h : Slab). h.order) header ∙ f.order_is)
        (ap (λ (h : Slab). h.in_use) header ∙ ap (λ (t : ℕ). 1 + t) f.order_is)
        (ap (λ (h : Slab). h.size) header ∙ f.size_is ∙ size_eq)
        (ap (λ (t : ℕ). slab % t) (sym size_eq) ∙ f.aligned)

  -- A change of the lists alone keeps a slab free.
  relist-IsFree :
      (c : SlabCache A) (l : ℕ → SlabList) (slab order : ℕ)
      → IsFree c slab order
      → IsFree (record c { orders = l }) slab order
  unfolding slab_order_size
  relist-IsFree c l slab order f = record {
    order_is = f.order_is;
    size_is = f.size_is;
    aligned = f.aligned;
    inside = f.inside;
  }

  relist-SameSizes :
      {c c' : SlabCache A}
      → SameSizes c c'
      → (l : ℕ → SlabList) → SameSizes c (record c' { orders = l })
  relist-SameSizes same l = record {
    same_max = same.same_max;
    same_lb = same.same_lb;
    same_order0 = same.same_order0;
  }

  take_first-Given :
      (c c' : SlabCache A) (order found : ℕ) (xs : List ℕ)
      → IsSized c'
      → SameSizes c c'
      → order ≤ found
      → is_empty xs ≡ false
      → HasFreeHead c' found xs
      → Given c order (take_first c' order found xs)
  take_first-Given c c' order found [] v same h filled f = absurd (ground arith)
  take_first-Given c c' order found (slab ∷ rest) v same h filled f =
      let at = f.order_is in
      let h0 : Slab = c'.headers slab in
      let l : SlabList = record (c'.orders found) { slabs = rest } in
      elim (Bool-cases (h0.order == order)) [
        | inl is_order ↦
            let e : found ≡ order = ground arith in
            rw is_order (
              set_used-Given c (set_order c' found l) slab order
                (relist-SameSizes same (update c'.orders found l))
                (relist-IsFree c' (update c'.orders found l) slab order
                  (subst (λ (o : ℕ). IsFree c' slab o) e f)))
        | inr larger ↦
            let e : found ≡ order + 1 + (found - order - 1) = ground arith in
            let l' : SlabList = record l { total = sub64 l.total h0.size } in
            let unbilled : SlabCache A = set_order c' found l' in
            let start =
              relist-IsFree c' (update c'.orders found l') slab (order + 1 + (found - order - 1))
                (subst (λ (o : ℕ). IsFree c' slab o) e f) in
            let sized : IsSized unbilled = record {
              order0 = v.order0;
              whole = v.whole;
              bound = v.bound;
            } in
            let done =
              split_until-IsFree h0.order order slab (found - order - 1) unbilled sized start
                (omega arith) in
            let all_same =
              SameSizes-trans (relist-SameSizes same (update c'.orders found l')) done.1 in
            rw larger (
              set_used-Given c _ slab order (relist-SameSizes all_same _)
                (relist-IsFree (split_until h0.order order slab unbilled) _ slab order done.0))
      ]

  take_found-Given :
      (c : SlabCache A) (order : ℕ) {r : Option ℕ × SlabCache A}
      → IsSized c
      → Found c order r
      → Given c order (take_found order r)
  take_found-Given c order v (missing out) = refused out
  take_found-Given c order v (found_at {c'} {found} same h filled f) =
      take_first-Given c c' order found (c'.orders found).slabs (SameSizes-IsSized same v) same h
        filled f

module _ {A : Arena} (c : SlabCache A) (v : IsValid c) (a : MapsAligned A) where
  -- In a valid cache over an arena that aligns its slabs, for an order up to the highest,
  -- `slab_get_with_order` gives out a slab of exactly this order, marked as in use, of the size of the
  -- order and aligned to it, and the sizes of the cache stay; or, only where the lists from this order
  -- on are empty and the arena has no slab, it returns NULL and changes nothing else.
  pub slab_get_with_order-Given :
      (order : ℕ) → order ≤ c.order_max → Given c order (slab_get_with_order c order)
  unfolding slab_get_with_order
  slab_get_with_order-Given order h =
      take_found-Given c order v.sized
        (find_list-Found (c.order_max + 1) order c v a h (omega arith))
