-- ===== src/Mempool/Linked.antt =====
-- The first step of `mslab_free`: the object is put before the freed ones of its slab.
use mathlib.Core.Path.{subst}
use small.Base.{
  Bool-cases, ℕ, suc, ◌+◌, ◌*◌, ◌≤◌, ◌<◌, ◌≡◌, refl, sym, ap, ◌∙◌, ◌≢◌, inl, inr, true, false,
  Option, none, some, List, ◌∷◌, arith, length,
}
use small.Base.Update.{update, update_self, update_other}
use small.Base.Words.{add32}
use small.Lifo.Stack.{Chain}
use small.SlabCache.{Arena}
use small.Mempool.{Mslab, Mempool, Torn, mslab_sizeof, word_size, write_link, set_mslab}
use small.Mempool.Store.{IsApart, stored_own, Chain-store, header_apart, contains-append}
use small.Mempool.Tree.{eq_cases, SlabTree}
use small.Mempool.Slab.{untouched, IsFree}
use small.Mempool.Pool.{contains, Once, IsPool}

-- The object was given out: it is one of the objects of a slab of the pool, and its bytes, which are
-- enough for a pointer, are neither those of a free object nor those of a header of another slab.
pub record IsLent {A : Arena} {T : SlabTree} (p : Mempool A T) (free : ℕ → List ℕ) (s object : ℕ)
    : Type 0 where
  pub is_slab : contains p.slabs.slabs s ≡ true
  pub slot : ℕ
  pub in_slab : slot < p.objcount
  pub at : object ≡ s + p.offset + slot * p.objsize
  pub past_header : mslab_sizeof ≤ p.offset
  pub wide : word_size ≤ p.objsize
  pub apart :
      (y : ℕ)
      → contains p.slabs.slabs y ≡ true
      → (x : ℕ) → contains (free y) x ≡ true
      → IsApart x p.objsize object p.objsize
  pub past_headers :
      (y : ℕ) → contains p.slabs.slabs y ≡ true → s ≢ y → IsApart y mslab_sizeof object p.objsize
  pub fewer : length (free s) < p.objcount

module _ (torn : Torn) {A : Arena} {T : SlabTree} (p : Mempool A T) (free : ℕ → List ℕ)
    (s object : ℕ) (v : IsPool none p free) (lent : IsLent p free s object) where
  -- The pool with the word written.
  abbrev pub stored : Mempool A T
  stored = write_link torn p object (p.mslabs s).free_list

  header_kept : (y : ℕ) → contains p.slabs.slabs y ≡ true → stored.mslabs y ≡ p.mslabs y
  header_kept y is =
      let wide = lent.wide in
      header_apart torn.header p.mslabs object y (elim (eq_cases s y) [
        | inl same ↦ (let at = lent.at in let past = lent.past_header in inl (omega arith))
        | inr other ↦ elim (lent.past_headers y is other) [
          | inl before ↦ inl before
          | inr past ↦ inr (omega arith)
        ]
      ])

  not_free : (y : ℕ) → contains p.slabs.slabs y ≡ true → contains (free y) object ≡ false
  not_free y is = elim (Bool-cases (contains (free y) object)) [
    | inl in_it ↦
        (let wide = lent.wide in
          elim (lent.apart y is object in_it) [
            | inl before ↦ absurd (omega arith)
            | inr past ↦ absurd (omega arith)
          ])
    | inr not_in_it ↦ not_in_it
  ]

  abbrev pub linked_header : Mslab
  linked_header = record (stored.mslabs s) {
    free_list = some object;
    nfree = add32 (stored.mslabs s).nfree 1;
  }

  abbrev old_header : Mslab
  old_header = record (p.mslabs s) { free_list = some object; nfree = add32 (p.mslabs s).nfree 1 }

  same_header : linked_header ≡ old_header
  same_header =
      ap (λ (h : Mslab). record h { free_list = some object; nfree = add32 h.nfree 1 })
        (header_kept s lent.is_slab)

  -- The pool with the object in its slab.
  abbrev pub linked : Mempool A T
  linked = set_mslab stored s linked_header

  abbrev pub free' : ℕ → List ℕ
  free' = update free s (object ∷ free s)

  pub kept : (y : ℕ) → s ≢ y → free' y ≡ free y
  kept y other = update_other free s y (object ∷ free s) other

  pub own : free' s ≡ object ∷ free s
  own = update_self free s (object ∷ free s)

  limit : ℕ
  limit = p.offset + p.objcount * p.objsize

  -- The chains of freed objects do not go through the object.
  chain_kept :
      (y : ℕ) (is : contains p.slabs.slabs y ≡ true)
      → let w = (v.slabs_free y is).0 in Chain linked.links (p.mslabs y).free_list w.chain
  chain_kept y is =
      let w = (v.slabs_free y is).0 in
      let wide = lent.wide in
      Chain-store torn.word p.links object (p.mslabs s).free_list (p.mslabs y).free_list w.chain
        (λ x in_chain.
          (let in_free =
              subst (λ (l : List ℕ). contains l x ≡ true) (sym w.all)
                (contains-append x w.chain
                  (untouched (y + (p.mslabs y).free_offset) p.objsize w.left) in_chain) in
            elim (lent.apart y is x in_free) [
              | inl before ↦ inl (omega arith)
              | inr past ↦ inr (omega arith)
            ]))
        w.linked

  old_count : add32 (p.mslabs s).nfree 1 ≡ suc (length (free s))
  old_count =
      let w = v.slabs_free s lent.is_slab in
      let count = w.0.counted in let fewer = lent.fewer in let word = v.word in omega arith

  pub linked_count : add32 (stored.mslabs s).nfree 1 ≡ suc (length (free s))
  linked_count = ap (λ (h : Mslab). add32 h.nfree 1) (header_kept s lent.is_slab) ∙ old_count

  pub linked_flag : (stored.mslabs s).in_hot_slabs ≡ T.has p.hot_slabs s
  linked_flag =
      ap (λ (h : Mslab). h.in_hot_slabs) (header_kept s lent.is_slab) ∙ v.hot_flag s lent.is_slab

  linked-IsFree :
      (y : ℕ)
      → contains p.slabs.slabs y ≡ true
      → IsFree linked.links
          (linked.mslabs y)
          y
          p.objsize
          (p.offset + p.objcount * p.objsize)
          (free' y)
        × (length (free' y) ≤ p.objcount)
  linked-IsFree y is = elim (eq_cases s y) [
    | inl same ↦
        subst
          (λ (x : ℕ).
            IsFree linked.links (linked.mslabs x) x p.objsize (p.offset + p.objcount * p.objsize)
              (free' x)
            × (length (free' x) ≤ p.objcount))
          same
          (subst
            (λ (l : List ℕ).
              IsFree linked.links (linked.mslabs s) s p.objsize (p.offset + p.objcount * p.objsize)
                l
              × (length l ≤ p.objcount))
            (sym own)
            (let w = (v.slabs_free s lent.is_slab).0 in
              (
                subst
                    (λ (x : Mslab).
                      IsFree linked.links x s p.objsize (p.offset + p.objcount * p.objsize)
                        (object ∷ free s))
                    (sym (update_self stored.mslabs s linked_header ∙ same_header))
                    (record {
                      chain = object ∷ w.chain;
                      left = w.left;
                      linked = (
                        refl,
                        subst (λ (o : Option ℕ). Chain linked.links o w.chain)
                            (sym (stored_own torn.word p.links object (p.mslabs s).free_list))
                            (chain_kept s lent.is_slab),
                      );
                      counted = old_count;
                      within = w.within;
                      all = ap (λ (l : List ℕ). object ∷ l) w.all;
                    }),
                lent.fewer,
              )))
    | inr other ↦
        subst
          (λ (l : List ℕ).
            IsFree linked.links (linked.mslabs y) y p.objsize (p.offset + p.objcount * p.objsize) l
            × (length l ≤ p.objcount))
          (sym (kept y other))
          (let w = v.slabs_free y is in
            (
              subst
                  (λ (x : Mslab).
                    IsFree linked.links x y p.objsize (p.offset + p.objcount * p.objsize) (free y))
                  (sym (update_other stored.mslabs s y linked_header other ∙ header_kept y is))
                  (record {
                    chain = w.0.chain;
                    left = w.0.left;
                    linked = chain_kept y is;
                    counted = w.0.counted;
                    within = w.0.within;
                    all = w.0.all;
                  }),
              w.1,
            ))
  ]

  more_free : (n y : ℕ) → n ≤ length (free y) → n ≤ length (free' y)
  more_free n y h = elim (eq_cases s y) [
    | inl same ↦
        subst (λ (x : ℕ). n ≤ length (free' x)) same
          (subst (λ (l : List ℕ). n ≤ length l) (sym own)
            (omega (arith, h, ap (λ (x : ℕ). length (free x)) same)))
    | inr other ↦ subst (λ (l : List ℕ). n ≤ length l) (sym (kept y other)) h
  ]

  -- It is a pool, but the slab may be none of hot, cold and spare.
  pub linked-IsPool : IsPool (some s) linked free'
  linked-IsPool = record {
    small = v.small;
    word = v.word;
    sized = v.sized;
    some_objects = v.some_objects;
    slabs_once = v.slabs_once;
    slabs_free = linked-IsFree;
    distinct = λ y is. elim (eq_cases s y) [
      | inl same ↦
          subst (λ (x : ℕ). Once (free' x)) same
            (subst Once (sym own) (not_free s lent.is_slab, v.distinct s lent.is_slab))
      | inr other ↦ subst Once (sym (kept y other)) (v.distinct y is)
    ];
    hot_flag = λ y is. elim (eq_cases s y) [
      | inl same ↦
          subst (λ (x : ℕ). (linked.mslabs x).in_hot_slabs ≡ T.has p.hot_slabs x) same
            (ap (λ (x : Mslab). x.in_hot_slabs) (update_self stored.mslabs s linked_header)
              ∙ linked_flag)
      | inr other ↦
          ap (λ (x : Mslab). x.in_hot_slabs)
            (update_other stored.mslabs s y linked_header other ∙ header_kept y is)
          ∙ v.hot_flag y is
    ];
    hot = λ y is. let w = v.hot y is in (w.0, more_free 1 y w.1);
    first = v.first;
    cold = λ y is. let w = v.cold y is in (w.0, more_free 1 y w.1, w.2);
    cold_once = v.cold_once;
    is_spare = λ y is. let w = v.is_spare y is in (w.0, more_free p.objcount y w.1, w.2, w.3);
    known = λ y h1 h2 h3 h4. elim (eq_cases s y) [
      | inl same ↦ inr (ap some same)
      | inr other ↦
          elim (v.known y h1 (subst (λ (l : List ℕ). 1 ≤ length l) (kept y other) h2) h3 h4) [
            | inl at ↦ inl at
            | inr at ↦ absurd (ground (arith, at))
          ]
    ];
  }

  -- The spare slab has all its objects.
  pub not_spare : p.spare ≢ some s
  not_spare q = let w = v.is_spare s q in let fewer = lent.fewer in absurd (omega (arith, w.1))
