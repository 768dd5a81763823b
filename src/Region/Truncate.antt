-- ===== src/Region/Truncate.antt =====
-- `region_truncate` drops the bytes that were allocated last.
use small.Base.{
  ap, ◌∙◌, ℕ, ◌+◌, ◌-◌, ◌≤◌, ◌<◌, ◌≡◌, refl, inl, inr, List, [], ◌∷◌, arith, ltb, Bool-cases, take,
}
use small.Base.Slices.{take-append_le, take-append_add, take-take}
use small.SlabSource.{SlabSource}
use small.Region.{slab_size, sub64, Rslab, Region, trim, region_truncate}
use small.Region.Log.{log_of, contents, total_used, Fits, IsValid, length-log_of}

-- What the loop leaves: nothing to be cut, and the oldest bytes.
record Trimmed {S : SlabSource} (cut_size : ℕ) (xs : List Rslab) (out : Region S × ℕ) : Type 0 where
  done : out.1 ≡ 0
  fits : Fits (out.0).slabs
  count : total_used (out.0).slabs ≡ total_used xs - cut_size
  kept : contents out.0 ≡ take (total_used xs - cut_size) (log_of xs)

module _ {S : SlabSource} where
  trim-Trimmed :
      (xs : List Rslab) (cut_size : ℕ) (r : Region S)
      → Fits xs
      → cut_size ≤ total_used xs
      → Trimmed cut_size xs (trim cut_size xs r)
  unfolding trim
  trim-Trimmed [] cut_size r f h =
      let gone : cut_size ≡ 0 = omega arith in
      record { done = gone; fits = tt; count = omega arith; kept = rw gone refl }
  trim-Trimmed (x ∷ xs) cut_size r f h = elim (Bool-cases (ltb cut_size x.used)) [
    | inl last ↦
        let less : cut_size < x.used = ground arith in
        let left : x.used + total_used xs - cut_size ≡ total_used xs + (x.used - cut_size) =
          omega arith in
        let size = length-log_of xs f.2 in
        let cut =
          take-append_add (total_used xs) (x.used - cut_size) (log_of xs) (take x.used x.memory)
            size in
        let same = take-take (x.used - cut_size) x.used x.memory (omega arith) in
        let inside = f.0 in
        rw last record {
          done = refl;
          fits = (omega arith, f.1, f.2);
          count = omega arith;
          kept = rw (left, cut, same) refl;
        }
    | inr whole ↦
        let more : x.used ≤ cut_size = ground arith in
        let fewer = record r {
          cache = S.slab_put r.cache x.address;
          total = sub64 r.total (slab_size x);
        } in
        let ih = trim-Trimmed xs (cut_size - x.used) fewer f.2 (omega arith) in
        let left : x.used + total_used xs - cut_size ≡ total_used xs - (cut_size - x.used) =
          omega arith in
        let size = length-log_of xs f.2 in
        let cut =
          take-append_le (total_used xs - (cut_size - x.used)) (log_of xs) (take x.used x.memory)
            (omega arith) in
        rw whole record {
          done = ih.done;
          fits = ih.fits;
          count = rw left ih.count;
          kept = rw (left, cut) ih.kept;
        }
  ]

module _ {S : SlabSource} (r : Region S) (v : IsValid r) (used : ℕ) (h : used ≤ r.used) where
  -- On a valid region, `region_truncate` to a size that is not above what is used keeps as many of
  -- the bytes that were allocated first, counts them, and leaves the region valid.
  pub region_truncate-contents :
      (contents (region_truncate r used) ≡ take used (contents r))
      × ((region_truncate r used).used ≡ used)
      × IsValid (region_truncate r used)
  unfolding region_truncate
  region_truncate-contents =
      let count = v.count in
      let out = trim-Trimmed r.slabs (r.used - used) r v.fits (omega arith) in
      let left : total_used r.slabs - (r.used - used) ≡ used = omega arith in
      let total = out.count in
      (
        out.kept ∙ ap (λ (n : ℕ). take n (contents r)) left,
        refl,
        record { fits = out.fits; count = omega arith },
      )
