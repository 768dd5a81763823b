-- ===== src/Ibuf/Shape.antt =====
-- Dropping input at either end of an input buffer, and shrinking its memory.
use small.Base.{
  ℕ, ◌+◌, ◌-◌, ◌≤◌, ◌≡◌, refl, sym, inl, inr, Option, none, some, [], arith, ltb, ◌==◌,
  if◌then◌else◌, Bool-cases, take, drop,
}
use small.Base.Slices.{length-overwrite, take-take, drop-drop, drop-take}
use small.SlabSource.{Block, SlabSource}
use small.Ibuf.{
  Ibuf, ibuf_used, ibuf_capacity, ibuf_shrink, shrunk, ibuf_truncate, ibuf_consume, contents,
}
use small.Ibuf.Contents.{front, length-input, IsValid}

module _ {S : SlabSource} (b : Ibuf S) (v : IsValid b) where
  -- On a valid buffer, for `n` up to the size of the input, `ibuf_truncate` to `n` keeps its first
  -- `n` bytes, and `ibuf_consume` of `n` drops them; both leave the buffer valid.
  pub ibuf_cut :
      (n : ℕ)
      → n ≤ ibuf_used b
      → (contents (ibuf_truncate b n) ≡ take n (contents b))
        × IsValid (ibuf_truncate b n)
        × (contents (ibuf_consume b n) ≡ drop n (contents b))
        × IsValid (ibuf_consume b n)
  unfolding ibuf_truncate ibuf_consume ibuf_used
  ibuf_cut n h =
      let order = v.order in
      let inside = v.inside in
      let used : ℕ = b.wpos - b.rpos in
      let left : b.wpos - (used - n) - b.rpos ≡ n = omega arith in
      let right : b.wpos - (b.rpos + n) ≡ used - n = omega arith in
      let whole : n + (used - n) ≡ used = omega arith in
      let kept : take n (contents b) ≡ take n (drop b.rpos b.memory) =
        take-take n used (drop b.rpos b.memory) h in
      let dropped : drop n (contents b) ≡ take (used - n) (drop (b.rpos + n) b.memory) =
        rw (← drop-drop n b.rpos b.memory)
          (rw whole at (drop-take n (used - n) (drop b.rpos b.memory))) in
      (
        rw (left, kept),
        record { order = omega arith; inside = omega arith; bare = v.bare },
        rw (right, dropped),
        record { order = omega arith; inside = inside; bare = v.bare },
      )

  shrunk-contents :
      (size : ℕ) {r : Option Block × S.State}
      → S.slab_get b.slabc size ≡ r
      → ibuf_used b ≤ size
      → (contents (shrunk b (ibuf_used b) r) ≡ contents b) × IsValid (shrunk b (ibuf_used b) r)
  unfolding ibuf_used
  shrunk-contents size {r = (none, s)} e enough =
      (refl, record { order = v.order; inside = v.inside; bare = v.bare })
  shrunk-contents size {r = (some new, s)} e enough =
      let room = S.slab_get-capacity b.slabc size e in
      let same = length-input b v in
      let kept = length-overwrite 0 (contents b) new.bytes (omega arith) in
      (
        front (b.wpos - b.rpos) (contents b) new.bytes same,
        record {
          order = omega arith;
          inside = omega arith;
          bare = λ q. absurd (ground (arith, q));
        },
      )

  contents-nil : ibuf_used b ≡ 0 → contents b ≡ []
  unfolding ibuf_used
  contents-nil e = rw e

  -- `ibuf_shrink` keeps the input, whether or not it gets a smaller block, and the buffer valid.
  pub ibuf_shrink-contents : (contents (ibuf_shrink b) ≡ contents b) × IsValid (ibuf_shrink b)
  unfolding ibuf_shrink
  ibuf_shrink-contents =
      let capacity = if ltb b.start_capacity (ibuf_used b) then ibuf_used b else b.start_capacity in
      let got = shrunk-contents capacity refl (ground arith) in
      elim (Bool-cases (ibuf_used b == 0)) [
        | inl empty ↦ rw empty (
          sym (contents-nil (ground arith)),
          record { order = omega arith; inside = omega arith; bare = λ q. refl },
        )
        | inr some_left ↦
            rw some_left
              (elim (Bool-cases
                (S.slab_real_size b.slabc (ibuf_capacity b) == S.slab_real_size b.slabc capacity)) [
                  | inl same ↦ rw same (refl, v)
                  | inr other ↦ rw other got
                ])
      ]
