-- ===== src/Mempool/Draw.antt =====
-- `mslab_alloc` on the first hot slab of a pool.
use mathlib.Core.Path.{subst}
use small.Base.{
  ℕ, ◌+◌, ◌*◌, ◌≤◌, ◌≡◌, refl, sym, ap, ◌∙◌, ◌≢◌, inl, inr, Bool, true, false, Option, none, some,
  List, [], ◌∷◌, arith, ◌==◌, if◌then◌else◌, length,
}
use small.Base.Update.{update, update_self, update_other}
use small.SlabCache.{Arena}
use small.Mempool.{Mslab, Mempool, cool, is_slab, mslab_alloc}
use small.Mempool.Tree.{
  eq_cases, IsFirst, removed_own, removed_other, removed_true, next_first, SlabTree,
}
use small.Mempool.Slab.{IsFree, Reheaded, Drawn, drawn, drawn_last, mslab_alloc-Drawn}
use small.Mempool.Pool.{Once, contains, IsPool}

nonempty : (objects : List ℕ) → objects ≢ [] → 1 ≤ length objects
nonempty [] h = absurd (h refl)
nonempty (x ∷ xs) h = omega arith

module _ {A : Arena} {T : SlabTree} (p : Mempool A T) (free : ℕ → List ℕ)
    (v : IsPool none p free) where
  abbrev limit : ℕ
  limit = p.offset + p.objcount * p.objsize

  -- The slabs after one of them got another header.
  redrawn :
      (s : ℕ) (mslabs : ℕ → Mslab) (objects : List ℕ) (hot : Bool)
      → Reheaded p s limit mslabs objects hot
      → length objects ≤ length (free s)
      → (y : ℕ) → contains p.slabs.slabs y ≡ true
      → IsFree p.links (mslabs y) y p.objsize limit (update free s objects y)
        × (length (update free s objects y) ≤ p.objcount)
  redrawn s mslabs objects hot r fewer y is = elim (eq_cases s y) [
    | inl same ↦
        (let old = v.slabs_free y is in
          let own : IsFree p.links (mslabs s) s p.objsize limit (update free s objects s)
              × (length (update free s objects s) ≤ p.objcount) =
            subst
              (λ (l : List ℕ).
                IsFree p.links (mslabs s) s p.objsize limit l × (length l ≤ p.objcount))
              (sym (update_self free s objects))
              (r.own, omega (arith, old.1, ap (λ (x : ℕ). length (free x)) same)) in
          subst
            (λ (x : ℕ).
              IsFree p.links (mslabs x) x p.objsize limit (update free s objects x)
              × (length (update free s objects x) ≤ p.objcount))
            same own)
    | inr other ↦
        subst
          (λ (l : List ℕ). IsFree p.links (mslabs y) y p.objsize limit l × (length l ≤ p.objcount))
          (sym (update_other free s y objects other))
          (
            subst (λ (x : Mslab). IsFree p.links x y p.objsize limit (free y))
                (sym (r.others y other)) (v.slabs_free y is).0,
            (v.slabs_free y is).1,
          )
  ]

  -- What is not the slab keeps its objects.
  kept_length :
      (s y n : ℕ) (objects : List ℕ)
      → s ≢ y
      → n ≤ length (free y)
      → n ≤ length (update free s objects y)
  kept_length s y n objects other h =
      subst (λ (l : List ℕ). n ≤ length l) (sym (update_other free s y objects other)) h

  not_same : (s y : ℕ) → T.has p.hot_slabs s ≡ true → T.has p.hot_slabs y ≡ false → s ≢ y
  not_same s y h h' q = absurd (ground (arith, sym h ∙ ap (T.has p.hot_slabs) q ∙ h'))

  redistinct :
      (s : ℕ) (objects : List ℕ)
      → Once objects
      → (y : ℕ) → contains p.slabs.slabs y ≡ true
      → Once (update free s objects y)
  redistinct s objects once y is = elim (eq_cases s y) [
    | inl same ↦
        subst (λ (x : ℕ). Once (update free s objects x)) same
          (subst Once (sym (update_self free s objects)) once)
    | inr other ↦ subst Once (sym (update_other free s y objects other)) (v.distinct y is)
  ]

  -- The first slab still has objects.
  drawn-IsPool :
      (s : ℕ) (mslabs : ℕ → Mslab) (objects : List ℕ)
      → p.first_hot_slab ≡ some s
      → T.has p.hot_slabs s ≡ true
      → Once objects
      → objects ≢ []
      → length objects ≤ length (free s)
      → Reheaded p s limit mslabs objects (p.mslabs s).in_hot_slabs
      → IsPool none (record p { mslabs = mslabs }) (update free s objects)
  drawn-IsPool s mslabs objects is_first s_hot once more fewer r = record {
    small = v.small;
    word = v.word;
    sized = v.sized;
    some_objects = v.some_objects;
    slabs_once = v.slabs_once;
    distinct = redistinct s objects once;
    slabs_free = redrawn s mslabs objects (p.mslabs s).in_hot_slabs r fewer;
    hot_flag = λ y is. elim (eq_cases s y) [
      | inl same ↦
          subst (λ (x : ℕ). (mslabs x).in_hot_slabs ≡ T.has p.hot_slabs x) same
            (r.is_hot ∙ v.hot_flag s (v.hot s s_hot).0)
      | inr other ↦ ap (λ (x : Mslab). x.in_hot_slabs) (r.others y other) ∙ v.hot_flag y is
    ];
    hot = λ y is. (
      (v.hot y is).0,
      (elim (eq_cases s y) [
        | inl same ↦
            subst (λ (x : ℕ). 1 ≤ length (update free s objects x)) same
              (subst (λ (l : List ℕ). 1 ≤ length l) (sym (update_self free s objects))
                (nonempty objects more))
        | inr other ↦ kept_length s y 1 objects other (v.hot y is).1
      ]),
    );
    first = v.first;
    cold = λ y is.
        let c = v.cold y is in (c.0, kept_length s y 1 objects (not_same s y s_hot c.2) c.1, c.2);
    cold_once = v.cold_once;
    is_spare = λ y is.
        let c = v.is_spare y is in
        (c.0, kept_length s y p.objcount objects (not_same s y s_hot c.2) c.1, c.2, c.3);
    known = λ y is some_free not_hot not_cold.
        v.known y is
          (subst (λ (l : List ℕ). 1 ≤ length l)
            (update_other free s y objects (not_same s y s_hot not_hot)) some_free)
          not_hot not_cold;
  }

  -- The first slab is used up, and leaves the tree.
  drawn_last-IsPool :
      (s : ℕ) (mslabs : ℕ → Mslab) (objects : List ℕ)
      → p.first_hot_slab ≡ some s
      → T.has p.hot_slabs s ≡ true
      → Once objects
      → objects ≡ []
      → Reheaded p s limit mslabs objects false
      → IsPool none (record (cool p s) { mslabs = mslabs }) (update free s objects)
  drawn_last-IsPool s mslabs objects is_first s_hot once last r = record {
    small = v.small;
    word = v.word;
    sized = v.sized;
    some_objects = v.some_objects;
    slabs_once = v.slabs_once;
    distinct = redistinct s objects once;
    slabs_free = redrawn s mslabs objects false r (omega (arith, ap length last));
    hot_flag = λ y is. elim (eq_cases s y) [
      | inl same ↦
          subst (λ (x : ℕ). (mslabs x).in_hot_slabs ≡ T.has (T.remove p.hot_slabs s) x) same
            (r.is_hot ∙ sym (removed_own T p.hot_slabs s))
      | inr other ↦
          ap (λ (x : Mslab). x.in_hot_slabs) (r.others y other)
          ∙ v.hot_flag y is
          ∙ sym (removed_other T p.hot_slabs s y other)
    ];
    hot = λ y is.
        let old = removed_true T p.hot_slabs s y is in
        ((v.hot y old.1).0, kept_length s y 1 objects old.0 (v.hot y old.1).1);
    first =
        subst
          (λ (o : Option ℕ).
            IsFirst T (if is_slab o s then T.next p.hot_slabs s else o) (T.remove p.hot_slabs s))
          (sym is_first)
          (let e : (s == s) ≡ true = ground arith in
            rw e (
              next_first T p.hot_slabs s
                (subst (λ (o : Option ℕ). IsFirst T o p.hot_slabs) is_first v.first)
                (T.next p.hot_slabs s) refl));
    cold = λ y is.
        let c = v.cold y is in
        let other = not_same s y s_hot c.2 in
        (c.0, kept_length s y 1 objects other c.1, removed_other T p.hot_slabs s y other ∙ c.2);
    cold_once = v.cold_once;
    is_spare = λ y is.
        let c = v.is_spare y is in
        let other = not_same s y s_hot c.2 in
        (
          c.0,
          kept_length s y p.objcount objects other c.1,
          removed_other T p.hot_slabs s y other ∙ c.2,
          c.3,
        );
    known = λ y is some_free not_hot not_cold. elim (eq_cases s y) [
      | inl same ↦ absurd (
          omega (
            arith,
            some_free,
            ap length (sym (ap (update free s objects) same) ∙ update_self free s objects ∙ last),
          ))
      | inr other ↦
          v.known y is
            (subst (λ (l : List ℕ). 1 ≤ length l) (update_other free s y objects other) some_free)
            (sym (removed_other T p.hot_slabs s y other) ∙ not_hot) not_cold
    ];
  }

  -- The first slab gives out the first of its free objects.
  draw-IsPool :
      (s object : ℕ) (objects : List ℕ)
      → p.first_hot_slab ≡ some s
      → free s ≡ object ∷ objects
      → {r : ℕ × Mempool A T} → Drawn p s limit object objects r
      → (r.0 ≡ object) × IsPool none r.1 (update free s objects) × (r.1.slabs ≡ p.slabs)
  draw-IsPool s object objects is_first head (drawn more r) =
      let f = subst (λ (o : Option ℕ). IsFirst T o p.hot_slabs) is_first v.first in
      let once = subst Once head (v.distinct s (v.hot s f.0).0) in
      (
        refl,
        drawn-IsPool s _ objects is_first f.0 once.1 more (omega (arith, ap length head)) r,
        refl,
      )
  draw-IsPool s object objects is_first head (drawn_last last r e) =
      let f = subst (λ (o : Option ℕ). IsFirst T o p.hot_slabs) is_first v.first in
      let once = subst Once head (v.distinct s (v.hot s f.0).0) in
      (
        refl,
        subst (λ (q : Mempool A T). IsPool none q (update free s objects)) (sym e)
            (drawn_last-IsPool s _ objects is_first f.0 once.1 last r),
        ap (λ (q : Mempool A T). q.slabs) e,
      )

  pub mslab_alloc-IsPool :
      (s object : ℕ) (objects : List ℕ)
      → p.first_hot_slab ≡ some s
      → free s ≡ object ∷ objects
      → ((mslab_alloc p s).0 ≡ object)
        × IsPool none (mslab_alloc p s).1 (update free s objects)
        × ((mslab_alloc p s).1.slabs ≡ p.slabs)
  mslab_alloc-IsPool s object objects is_first head =
      let f = subst (λ (o : Option ℕ). IsFirst T o p.hot_slabs) is_first v.first in
      let is = (v.hot s f.0).0 in
      let own = v.slabs_free s is in
      let word = v.word in
      draw-IsPool s object objects is_first head (
        mslab_alloc-Drawn p s limit v.small object objects
          (subst (λ (l : List ℕ). IsFree p.links (p.mslabs s) s p.objsize limit l) head own.0)
          (omega (arith, own.1, ap length head)))
