-- ===== src/Region/Reset.antt =====
-- `region_reset`.
use mathlib.Core.Path.{subst}
use small.Base.{◌^◌, ◌<◌, ◌≡◌, refl, sym, ap, ◌∙◌, List, [], ◌∷◌, arith, length}
use mathlib.Core.List.{append-nil}
use small.SlabSource.{SlabSource}
use small.Region.{sub64, Rslab, Region, reset_first, region_reset}
use small.Region.Log.{log_of, contents, total_used, Fits, IsValid}

-- The slabs past the newest.
abbrev pub older : List Rslab → List Rslab
older [] = []
older (x ∷ xs) = xs

module _ {S : SlabSource} where
  -- `reset_first`, on the slabs of a region.
  reset_first-older :
      (r : Region S) (xs : List Rslab)
      → Fits xs
      → r.slabs ≡ xs
      → r.used ≡ total_used xs
      → r.used < 2 ^ 64
      → (contents (reset_first r xs) ≡ log_of (older xs))
        × ((reset_first r xs).used ≡ total_used (older xs))
        × IsValid (reset_first r xs)
        × (length (reset_first r xs).slabs ≡ length xs)
  reset_first-older r [] f e count small = (
    ap log_of e,
    count,
    record { fits = subst Fits (sym e) tt; count = count ∙ ap total_used (sym e) },
    ap (λ (l : List Rslab). length l) e,
  )
  reset_first-older r (x ∷ xs) f e count small =
      let inside = f.0 in
      let left : sub64 r.used x.used ≡ total_used xs = omega arith in
      (
        append-nil (log_of xs),
        left,
        record { fits = (omega arith, f.1, f.2); count = omega arith },
        refl,
      )

module _ {S : SlabSource} (r : Region S) (v : IsValid r) (small : r.used < 2 ^ 64) where
  -- On a valid region whose use is a word, `region_reset` keeps the slabs and the bytes that were
  -- allocated in all slabs but the newest, counts these, and leaves the region valid.
  pub region_reset-older :
      (contents (region_reset r) ≡ log_of (older r.slabs))
      × ((region_reset r).used ≡ total_used (older r.slabs))
      × IsValid (region_reset r)
      × (length (region_reset r).slabs ≡ length r.slabs)
  unfolding region_reset
  region_reset-older = reset_first-older r r.slabs v.fits refl v.count small
