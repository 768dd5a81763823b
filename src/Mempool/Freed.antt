-- ===== src/Mempool/Freed.antt =====
-- What `mempool_free` promises.
use native.Mathlib.Nat.{div-le_self}
use small.Base.{
  ℕ, suc, ◌^◌, ◌≤◌, bit_and, ◌≡◌, refl, sym, ap, ◌∙◌, ◌⊎◌, inl, inr, true, false, ◌&&◌, not, none,
  List, ◌∷◌, arith, leb, ◌==◌, Bool-cases, length,
}
use small.Base.Update.{update}
use small.Base.Words.{add32, sub64, shr}
use small.SlabCache.{Arena}
use small.Mempool.{
  Torn, Mempool, max_cold_fraction_lb, cool, mslab_free, mempool_free_slab, mempool_free,
}
use small.Mempool.Tree.{SlabTree, removed_own}
use small.Mempool.Pool.{recounted, contains, IsPool}
use small.Mempool.Linked.{
  IsLent, stored, linked_flag, linked, free', linked_count, linked-IsPool, not_spare, own,
}
use small.Mempool.Cold.{add_hot-IsPool, cold-IsPool, settled-IsPool}
use small.Mempool.Spare.{no_fewer, Settled, settled, cool-IsPool, keep_spare-Settled}

module _ (torn : Torn) {A : Arena} {T : SlabTree} (p : Mempool A T) (free : ℕ → List ℕ)
    (s object : ℕ) (v : IsPool none p free) (lent : IsLent p free s object) where
  abbrev q : Mempool A T
  q = linked torn p free s object v lent

  abbrev f : ℕ → List ℕ
  f = free' torn p free s object v lent

  free_count : length (f s) ≡ suc (length (free s))
  free_count = ap length (own torn p free s object v lent)

  -- A slab without free objects is neither hot nor cold.
  empty_not_hot : length (free s) ≡ 0 → T.has p.hot_slabs s ≡ false
  empty_not_hot empty = elim (Bool-cases (T.has p.hot_slabs s)) [
    | inl is ↦ (let w = v.hot s is in absurd (omega (arith, w.1)))
    | inr not ↦ not
  ]

  not_both : (T.has p.hot_slabs s ≡ true) ⊎ (length (free s) ≡ 0) → contains p.cold_slabs s ≡ false
  not_both h = elim (Bool-cases (contains p.cold_slabs s)) [
    | inl is ↦
        (let w = v.cold s is in
          elim h [
            | inl hot ↦ absurd (ground (arith, sym w.2 ∙ hot))
            | inr empty ↦ absurd (omega (arith, w.1))
          ])
    | inr not ↦ not
  ]

  mslab_free-Settled : Settled q.slabs q.objcount f (mslab_free torn p s object)
  unfolding mslab_free
  mslab_free-Settled =
      let pending = linked-IsPool torn p free s object v lent in
      let is = lent.is_slab in
      let spare = not_spare torn p free s object v lent in
      let count = linked_count torn p free s object v lent in
      let more = free_count in
      let flag = linked_flag torn p free s object v lent in
      let h = (stored torn p free s object v lent).mslabs s in
      let nfree = add32 h.nfree 1 in
      elim (Bool-cases (not h.in_hot_slabs && leb (shr p.objcount max_cold_fraction_lb) nfree)) [
        | inl fragmented ↦
            rw fragmented
              (settled (add_hot-IsPool q f s pending is (omega arith) spare) no_fewer refl)
        | inr not_fragmented ↦ elim (Bool-cases (nfree == 1)) [
          | inl one ↦
              (let empty : length (free s) ≡ 0 = ground arith in
                rw (not_fragmented, one)
                  (settled
                    (cold-IsPool q f s pending (record {
                      is_slab = is;
                      has_free = omega arith;
                      not_hot = empty_not_hot empty;
                      not_cold = not_both (inr empty);
                      not_spare = spare;
                    }))
                    no_fewer refl))
          | inr several ↦ elim (Bool-cases (nfree == p.objcount)) [
            | inl all ↦
                (let full : nfree ≡ p.objcount = ground arith in
                  let hot : h.in_hot_slabs ≡ true = (elim (Bool-cases h.in_hot_slabs) [
                    | inl is_hot ↦ is_hot
                    | inr cold ↦
                        (let part = div-le_self p.objcount (2 ^ max_cold_fraction_lb) in
                          let enough : leb (shr p.objcount max_cold_fraction_lb) nfree ≡ true =
                            ground arith in
                          absurd (ground (arith, enough, cold, not_fragmented)))
                  ]) in
                  let s_hot = sym flag ∙ hot in
                  rw (not_fragmented, several, all)
                    (keep_spare-Settled (cool q s) f s (cool-IsPool q f s pending is s_hot) is
                      (omega arith) (removed_own T q.hot_slabs s) (not_both (inl s_hot)) spare
                      p.spare refl))
            | inr some_out ↦
                (let used : 1 ≤ length (free s) = ground arith in
                  rw (not_fragmented, several, some_out)
                    (settled
                      (settled-IsPool q f s pending (λ not_hot not_cold.
                        elim (v.known s is used not_hot not_cold) [
                          | inl at ↦ at
                          | inr at ↦ absurd (ground (arith, at))
                        ]))
                      no_fewer refl))
          ]
        ]
      ]

module _ (torn : Torn) {A : Arena} {T : SlabTree} (p : Mempool A T) (free : ℕ → List ℕ) (object : ℕ)
    (v : IsPool none p free) where
  -- In a pool of which a list says the free objects of each slab, in which a slab with free
  -- objects is hot, cold or spare, for an object that was given out, where objects have at least
  -- the 8 bytes of a pointer: the mask leads to a slab of the pool, the object is at the place of
  -- one of its objects, past the header, and its bytes are neither those of a free object nor of
  -- the header of another slab, and the slab has not all its objects free. Then, whatever a write
  -- of a word leaves in what it overlaps, mempool_free makes the object the first free one of this
  -- slab, all others stay free, and the object is no longer counted as used. The lists and the
  -- tree are again right for what is free, the pool keeping its slabs, but for at most one of
  -- which all objects are free.
  pub mempool_free-Settled :
      IsLent p free (bit_and object p.slab_ptr_mask) object
      → Settled
          (record p.slabs { used = sub64 p.slabs.used p.objsize })
          p.objcount
          (update free
            (bit_and object p.slab_ptr_mask)
            (object ∷ free (bit_and object p.slab_ptr_mask)))
          (mempool_free torn p object)
  unfolding mempool_free mempool_free_slab
  mempool_free-Settled lent =
      let s = bit_and object p.slab_ptr_mask in
      let used : Mempool A T = record p {
        slabs = record p.slabs { used = sub64 p.slabs.used p.objsize };
      } in
      mslab_free-Settled torn used free s object (recounted p free (sub64 p.slabs.used p.objsize) v)
        (record {
          is_slab = lent.is_slab;
          slot = lent.slot;
          in_slab = lent.in_slab;
          at = lent.at;
          past_header = lent.past_header;
          wide = lent.wide;
          apart = lent.apart;
          past_headers = lent.past_headers;
          fewer = lent.fewer;
        })
