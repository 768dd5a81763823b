-- ===== src/Region/Log.antt =====
-- A region as the sequence of the bytes that were allocated, oldest first.
use small.Base.{
  length-take, ℕ, ◌+◌, ◌^◌, ◌≤◌, ◌<◌, ◌≡◌, refl, List, [], ◌∷◌, ◌++◌, arith, length, length-append,
  take,
}
use small.SlabSource.{SlabSource}
use small.Region.{Rslab, Region}

abbrev pub log_of : List Rslab → List ℕ
log_of [] = []
log_of (x ∷ xs) = log_of xs ++ take x.used x.memory

abbrev pub contents : {S : SlabSource} → Region S → List ℕ
contents r = log_of r.slabs

abbrev pub total_used : List Rslab → ℕ
total_used [] = 0
total_used (x ∷ xs) = x.used + total_used xs

abbrev pub Fits : List Rslab → Type 0
Fits [] = Unit
Fits (x ∷ xs) = (x.used ≤ length x.memory) × (length x.memory < 2 ^ 32) × Fits xs

-- Every slab has the memory that it counts as used, less than 4 GiB, and the region counts what its
-- slabs do.
pub record IsValid {S : SlabSource} (r : Region S) : Type 0 where
  pub fits : Fits r.slabs
  pub count : r.used ≡ total_used r.slabs

pub length-log_of : (xs : List Rslab) → Fits xs → length (log_of xs) ≡ total_used xs
length-log_of [] f = refl
length-log_of (x ∷ xs) f = omega (
  arith,
  length-append {0} (log_of xs) (take x.used x.memory),
  length-take x.used x.memory,
  length-log_of xs f.2,
)
