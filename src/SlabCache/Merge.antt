-- ===== src/SlabCache/Merge.antt =====
-- Merging undoes splitting.
use native.Mathlib.Nat.{mod-eq_of_lt, div-add-mod', mul-add-mod_self_right}
use small.Base.{
  ℕ, ◌+◌, ◌-◌, ◌*◌, ◌/◌, ◌%◌, ◌^◌, ◌<◌, min, ◌≡◌, refl, sym, ap, ◌∙◌, inl, inr, true, false, some,
  arith, ltb, ◌==◌, Bool-cases,
}
use small.Base.Bits.{pow_pos, two_pow_mono}
use small.Base.Update.{update}
use small.SlabCache.{
  Arena, SlabList, SlabCache, slab_list_add, slab_list_del, slab_order_size, slab_create,
  slab_buddy,
}
use small.SlabCache.Get.{add_buddy, slab_split}
use small.SlabCache.Put.{slab_merge, free_buddy}
use small.SlabCache.Order.{IsSized, order_size}
use small.SlabCache.Buddy.{AreBuddies}
use small.SlabCache.Split.{created_pair, IsFree}
use small.SlabCache.Large.{add_sub, erase-cons, SlabList-eq}

-- A list with a slab added and taken out again.
del-add :
    (l : SlabList) (slab size : ℕ)
    → l.total < 2 ^ 64
    → size < 2 ^ 64
    → slab_list_del (slab_list_add l slab size) slab size ≡ l
del-add l slab size h h' = SlabList-eq (erase-cons slab l.slabs) refl (add_sub l.total size h h')

-- Two updates at one number.
update_twice {ℓ} :
    {A : Type ℓ} (f : ℕ → A) (i : ℕ) (u v : A)
    → v ≡ f i
    → (j : ℕ) → update (update f i u) i v j ≡ f j
update_twice f i u v e j = elim (Bool-cases (i == j)) [
  | inl same ↦ (let at : i ≡ j = ground arith in rw same (e ∙ ap f at))
  | inr differs ↦ rw differs refl
]

-- The half that is aligned to twice the size is the lower one.
lower_half : (a b s : ℕ) → 0 < s → AreBuddies a b s → a % (2 * s) ≡ 0 → ltb b a ≡ false
lower_half a b s pos r aligned = elim (Bool-cases (ltb b a)) [
  | inl below ↦
      let less : b < a = ground arith in
      let adjacent = r.adjacent in
      let e : min a b ≡ b = omega arith in
      let zero_rest : b % (2 * s) ≡ 0 = ap (λ (t : ℕ). t % (2 * s)) (sym e) ∙ r.aligned in
      let whole : b / (2 * s) * (2 * s) + s ≡ a = omega (arith, div-add-mod' b (2 * s)) in
      let rest : a % (2 * s) ≡ s =
        ap (λ (t : ℕ). t % (2 * s)) (sym whole)
        ∙ mul-add-mod_self_right (b / (2 * s)) (2 * s) s
        ∙ mod-eq_of_lt (omega arith) in
      absurd (omega arith)
  | inr above ↦ above
]

-- `c2` is `c` with the slab split, and merging the slab with `buddy` restores `c`.
pub record Undone {A : Arena} (c c2 : SlabCache A) (slab order buddy : ℕ) : Type 0 where
  pub is_buddy : slab_buddy c2 slab ≡ some buddy
  pub is_free : free_buddy c2 slab (some buddy) ≡ some buddy
  pub merged : (slab_merge c2 slab buddy).0 ≡ slab
  pub order_back : ((slab_merge c2 slab buddy).1.headers slab).order ≡ order + 1
  pub size_back : ((slab_merge c2 slab buddy).1.headers slab).size ≡ slab_order_size c (order + 1)
  pub lists_back : (o : ℕ) → (slab_merge c2 slab buddy).1.orders o ≡ c.orders o

module _ {A : Arena} (c : SlabCache A) (slab order b : ℕ) where
  split_parts :
      (size : ℕ)
      → size < 2 ^ 64
      → (c.orders order).total < 2 ^ 64
      → (b == slab) ≡ false
      → ltb b slab ≡ false
      → slab_buddy (slab_create c slab order size) slab ≡ some b
      → Undone c (add_buddy (slab_create c slab order size) order size (some b)) slab order b
  unfolding slab_merge slab_create slab_buddy slab_order_size
  split_parts size small n differs low is_b =
      let bb : (b == b) ≡ true = ground arith in
      let ss : (slab == slab) ≡ true = ground arith in
      let oo : (order == order) ≡ true = ground arith in
      record {
        is_buddy = rw differs is_b;
        is_free = rw (bb, differs, ss, oo) refl;
        merged = rw low refl;
        order_back = rw (low, ss, differs) refl;
        size_back = rw (low, ss, differs) refl;
        lists_back = λ o.
            rw (bb, oo)
              (update_twice c.orders order _ _ (del-add (c.orders order) b size n small) o);
      }

module _ {A : Arena} (c : SlabCache A) (v : IsSized c) (slab order : ℕ)
    (f : IsFree c slab (order + 1)) (n : (c.orders order).total < 2 ^ 64) where
  -- In a cache with sizes that are powers of two, for a free slab above the lowest order, aligned to
  -- its size: `slab_split` makes a buddy that is free, so that the two can be merged; and
  -- `slab_merge` gives the slab back with the order and size that it had, and all lists of free slabs
  -- with their statistics as they were, if the total of the list of the lower order is a word.
  pub slab_split-Undone : (buddy : ℕ) × Undone c (slab_split c slab) slab order buddy
  unfolding slab_split
  slab_split-Undone =
      let above = f.order_is in
      let inside = f.inside in
      let bound = v.bound in
      let size : ℕ = slab_order_size c order in
      let lower : (c.headers slab).order - 1 ≡ order = omega arith in
      let is_size = order_size c v order (omega arith) in
      let small = two_pow_mono {a = order + c.order0_size_lb} {b = 63} (omega arith) in
      let pos = pow_pos (order + c.order0_size_lb) in
      let (b, is_b, halves, twice) = created_pair c v slab order f in
      let adjacent = halves.adjacent in
      let differs : (b == slab) ≡ false = ground arith in
      let low = lower_half slab b size (omega arith) halves twice in
      let parts = split_parts c slab order b size (omega arith) n differs low is_b in
      (b, rw (lower, is_b) parts)
