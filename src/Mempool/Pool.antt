-- ===== src/Mempool/Pool.antt =====
-- A pool: its slabs are hot, cold or spare where they have free objects.
use mathlib.Core.Path.{subst}
use mathlib.Core.Option.{some-injective}
use small.Base.{
  ℕ, ◌+◌, ◌*◌, ◌^◌, ◌≤◌, ◌<◌, ◌≡◌, sym, ap, ◌∙◌, ◌≢◌, ◌⊎◌, inl, inr, Bool, true, false, ◌||◌,
  Option, none, some, List, [], ◌∷◌, arith, ◌==◌, length,
}
use small.Base.Update.{update, update_self, update_other}
use small.SlabCache.{Arena}
use small.Mempool.{Mslab, Mempool, heat_first}
use small.Mempool.Tree.{
  eq_cases, IsFirst, has_inserted, has_own, has_inserted_true, has_inserted_false, SlabTree,
}
use small.Mempool.Slab.{IsFree}

abbrev pub contains : List ℕ → ℕ → Bool
contains [] y = false
contains (x ∷ xs) y = (x == y) || contains xs y

-- No slab is in a list twice.
abbrev pub Once : List ℕ → Type 0
Once [] = Unit
Once (x ∷ xs) = (contains xs x ≡ false) × Once xs

-- The flag of a slab says nothing of its objects.
pub reflag :
    (links : ℕ → Option ℕ) (h : Mslab) (hot : Bool) (s objsize limit : ℕ) (objects : List ℕ)
    → IsFree links h s objsize limit objects
    → IsFree links (record h { in_hot_slabs = hot }) s objsize limit objects
reflag links h hot s objsize limit objects v = record {
  chain = v.chain;
  left = v.left;
  linked = v.linked;
  counted = v.counted;
  within = v.within;
  all = v.all;
}

-- A pool in which `free` are the free objects of each slab. A slab with free objects is hot, or cold,
-- or the spare one, or it is `pending`, which is none of them.
pub record IsPool {A : Arena} {T : SlabTree} (pending : Option ℕ) (p : Mempool A T)
    (free : ℕ → List ℕ) : Type 0 where
  pub small : p.offset + p.objcount * p.objsize < 2 ^ 32
  pub word : p.objcount < 2 ^ 32
  pub sized : 1 ≤ p.objsize
  pub some_objects : 1 ≤ p.objcount
  pub slabs_once : Once p.slabs.slabs
  pub slabs_free :
      (s : ℕ)
      → contains p.slabs.slabs s ≡ true
      → IsFree p.links (p.mslabs s) s p.objsize (p.offset + p.objcount * p.objsize) (free s)
        × (length (free s) ≤ p.objcount)
  pub distinct : (s : ℕ) → contains p.slabs.slabs s ≡ true → Once (free s)
  pub hot_flag :
      (s : ℕ) → contains p.slabs.slabs s ≡ true → (p.mslabs s).in_hot_slabs ≡ T.has p.hot_slabs s
  pub hot :
      (s : ℕ)
      → T.has p.hot_slabs s ≡ true
      → (contains p.slabs.slabs s ≡ true) × (1 ≤ length (free s))
  pub first : IsFirst T p.first_hot_slab p.hot_slabs
  pub cold :
      (s : ℕ)
      → contains p.cold_slabs s ≡ true
      → (contains p.slabs.slabs s ≡ true) × (1 ≤ length (free s)) × (T.has p.hot_slabs s ≡ false)
  pub cold_once : Once p.cold_slabs
  pub is_spare :
      (s : ℕ)
      → p.spare ≡ some s
      → (contains p.slabs.slabs s ≡ true)
        × (p.objcount ≤ length (free s))
        × (T.has p.hot_slabs s ≡ false)
        × (contains p.cold_slabs s ≡ false)
  pub known :
      (s : ℕ)
      → contains p.slabs.slabs s ≡ true
      → 1 ≤ length (free s)
      → T.has p.hot_slabs s ≡ false
      → contains p.cold_slabs s ≡ false
      → (p.spare ≡ some s) ⊎ (pending ≡ some s)

-- A pool is one whatever its statistics are.
pub recounted :
    {A : Arena} {T : SlabTree} (p : Mempool A T) (free : ℕ → List ℕ) (used : ℕ)
    → IsPool none p free
    → IsPool none (record p { slabs = record p.slabs { used = used } }) free
recounted p free used v = record {
  small = v.small;
  word = v.word;
  sized = v.sized;
  some_objects = v.some_objects;
  slabs_once = v.slabs_once;
  slabs_free = v.slabs_free;
  distinct = v.distinct;
  hot_flag = v.hot_flag;
  hot = v.hot;
  first = v.first;
  cold = v.cold;
  cold_once = v.cold_once;
  is_spare = v.is_spare;
  known = v.known;
}

-- A slab that is none of hot, cold and spare.
pub record IsPending {A : Arena} {T : SlabTree} (p : Mempool A T) (free : ℕ → List ℕ) (s : ℕ)
    : Type 0 where
  pub is_slab : contains p.slabs.slabs s ≡ true
  pub has_free : 1 ≤ length (free s)
  pub not_hot : T.has p.hot_slabs s ≡ false
  pub not_cold : contains p.cold_slabs s ≡ false
  pub not_spare : p.spare ≢ some s

module _ {A : Arena} {T : SlabTree} (p : Mempool A T) (free : ℕ → List ℕ) where
  -- A slab that becomes hot keeps its objects.
  pub heated_free :
      {pending : Option ℕ}
      → IsPool pending p free
      → (s : ℕ) → contains p.slabs.slabs s ≡ true
      → (y : ℕ) → contains p.slabs.slabs y ≡ true
      → let limit = p.offset + p.objcount * p.objsize in
        IsFree p.links
          (update p.mslabs s (record (p.mslabs s) { in_hot_slabs = true }) y)
          y
          p.objsize
          limit
          (free y)
  heated_free v s is_s y is =
      let h : Mslab = record (p.mslabs s) { in_hot_slabs = true } in
      let limit = p.offset + p.objcount * p.objsize in
      elim (eq_cases s y) [
        | inl same ↦
            subst (λ (x : ℕ). IsFree p.links (update p.mslabs s h x) x p.objsize limit (free x))
              same
              (subst (λ (x : Mslab). IsFree p.links x s p.objsize limit (free s))
                (sym (update_self p.mslabs s h))
                (reflag p.links (p.mslabs s) true s p.objsize limit (free s)
                  (v.slabs_free s is_s).0))
        | inr other ↦
            subst (λ (x : Mslab). IsFree p.links x y p.objsize limit (free y))
              (sym (update_other p.mslabs s y h other)) (v.slabs_free y is).0
      ]

  -- The flags of the slabs say which are in the tree.
  pub heated_flag :
      {pending : Option ℕ}
      → IsPool pending p free
      → (s y : ℕ) → contains p.slabs.slabs y ≡ true
      → (update p.mslabs s (record (p.mslabs s) { in_hot_slabs = true }) y).in_hot_slabs
        ≡ T.has (T.insert p.hot_slabs s) y
  heated_flag v s y is =
      let h : Mslab = record (p.mslabs s) { in_hot_slabs = true } in
      elim (eq_cases s y) [
        | inl same ↦
            subst
              (λ (x : ℕ). (update p.mslabs s h x).in_hot_slabs ≡ T.has (T.insert p.hot_slabs s) x)
              same
              (ap (λ (x : Mslab). x.in_hot_slabs) (update_self p.mslabs s h)
                ∙ sym (has_own T p.hot_slabs s))
        | inr other ↦
            ap (λ (x : Mslab). x.in_hot_slabs) (update_other p.mslabs s y h other)
            ∙ v.hot_flag y is
            ∙ sym (has_inserted T p.hot_slabs s y other)
      ]

  pub heated_hot :
      {pending : Option ℕ}
      → IsPool pending p free
      → (s : ℕ) → contains p.slabs.slabs s ≡ true
      → 1 ≤ length (free s)
      → (y : ℕ) → T.has (T.insert p.hot_slabs s) y ≡ true
      → (contains p.slabs.slabs y ≡ true) × (1 ≤ length (free y))
  heated_hot v s is_s some_free y is = elim (has_inserted_true T p.hot_slabs s y is) [
    | inl same ↦
        subst (λ (x : ℕ). (contains p.slabs.slabs x ≡ true) × (1 ≤ length (free x))) same
          (is_s, some_free)
    | inr old ↦ v.hot y old
  ]

  -- A slab becomes the only hot one.
  pub heat_first-IsPool :
      (s : ℕ)
      → p.first_hot_slab ≡ none
      → IsPending p free s
      → IsPool (some s) p free
      → IsPool none (heat_first p s).1 free
  heat_first-IsPool s no_first w v =
      let none_hot : (y : ℕ) → T.has p.hot_slabs y ≡ false =
        subst (λ (o : Option ℕ). IsFirst T o p.hot_slabs) no_first v.first in
      record {
        small = v.small;
        word = v.word;
        sized = v.sized;
        some_objects = v.some_objects;
        slabs_once = v.slabs_once;
        distinct = v.distinct;
        slabs_free = λ y is. (heated_free v s w.is_slab y is, (v.slabs_free y is).1);
        hot_flag = heated_flag v s;
        hot = heated_hot v s w.is_slab w.has_free;
        first = (
          has_own T p.hot_slabs s,
          λ y is. elim (has_inserted_true T p.hot_slabs s y is) [
            | inl same ↦ omega arith
            | inr old ↦ absurd (ground (arith, sym (none_hot y) ∙ old))
          ],
        );
        cold = λ y is.
            let c = v.cold y is in
            (
              c.0,
              c.1,
              has_inserted T p.hot_slabs s y (λ q.
                    absurd (ground (arith, sym w.not_cold ∙ ap (contains p.cold_slabs) q ∙ is)))
                  ∙ c.2,
            );
        cold_once = v.cold_once;
        is_spare = λ y is.
            let c = v.is_spare y is in
            (
              c.0,
              c.1,
              has_inserted T p.hot_slabs s y (λ q. w.not_spare (is ∙ ap some (sym q))) ∙ c.2,
              c.3,
            );
        known = λ y is some_free not_hot not_cold.
            let out = has_inserted_false T p.hot_slabs s y not_hot in
            elim (v.known y is some_free out.1 not_cold) [
              | inl spare ↦ inl spare
              | inr pending ↦ absurd (out.0 (some-injective s y pending))
            ];
      }
