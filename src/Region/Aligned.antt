-- ===== src/Region/Aligned.antt =====
-- `region_aligned_alloc` appends padding and a chunk to the bytes that were allocated.
use mathlib.Core.Path.{sym, subst}
use small.Base.Bits.{pow_pos, two_pow_mono}
use small.Base.{
  ℕ, ◌+◌, ◌-◌, ◌%◌, ◌^◌, ◌≤◌, ◌<◌, ◌≡◌, refl, inl, inr, Option, none, some, List, [], ◌∷◌, ◌++◌,
  arith, ltb, Bool-cases, length,
}
use small.Base.Words.{add64, sub64, size_max}
use small.SlabSource.{SlabSource}
use small.Util.{small_align}
use small.Util.Align.{small_align_bounds}
use small.Region.{
  slab_min_size, use_first, region_aligned_reserve, region_reserve, Rslab, Region, effective_size,
  aligned_first, align_result, region_aligned_alloc,
}
use small.Region.Log.{contents, IsValid}
use small.Region.Alloc.{
  exhausted, ready, store, Room, use_first-Used, Reserved, IsModest, region_reserve-Reserved,
}

-- The outcomes of `region_aligned_alloc`: NULL, where the slab cache has no slab, and nothing else
-- changes; or an aligned pointer, and storing `size` bytes there appends them to the bytes that were
-- allocated, after less than `alignment` bytes of padding.
pub data AlignedAllocated {S : SlabSource} (r : Region S) (size alignment : ℕ)
    : Option ℕ × Region S → Type 0 where
  no_memory :
      {s : S.State}
      → S.slab_get r.cache (slab_min_size (size + alignment - 1)) ≡ (none, s)
      → AlignedAllocated r size alignment (none, record r { cache = s })
  aligned :
      {r' : Region S} {p : ℕ} (pad : ℕ)
      → IsValid r'
      → p % alignment ≡ 0
      → pad < alignment
      → r'.used ≡ r.used + (pad + size)
      → ((bytes : List ℕ)
          → length bytes ≡ size
          → (padding : List ℕ) × (length padding ≡ pad)
            × (contents (store r' p bytes) ≡ contents r ++ (padding ++ bytes)))
      → AlignedAllocated r size alignment (some p, r')

-- The pointers stay below 2^64: a slab does not wrap round the address space.
pub record IsMapped {S : SlabSource} (r : Region S) (request alignment : ℕ) : Type 0 where
  pub mapped :
      (p : ℕ) (r' : Region S) → region_reserve r request ≡ (some p, r') → p ≤ size_max - alignment

exponent_small : (k : ℕ) → 2 ^ k < 2 ^ 64 → k < 64
exponent_small k h = elim (Bool-cases (ltb k 64)) [
  | inl less ↦ ground arith
  | inr more ↦ absurd (omega (arith, two_pow_mono {a = 64} {b = k} (ground arith)))
]

Room-data_end :
    (size q p n : ℕ) (xs : List Rslab)
    → Room n p xs
    → p ≤ q
    → q < 2 ^ 64
    → q - p + size < 2 ^ 32
    → effective_size q size xs ≡ q - p + size
Room-data_end size q p n [] room h small bound = absurd room
Room-data_end size q p n (x ∷ xs) room h small bound = let at = room.0 in omega arith

Room-mono : (m n p : ℕ) (xs : List Rslab) → m ≤ n → Room n p xs → Room m p xs
Room-mono m n p [] h room = absurd room
Room-mono m n p (x ∷ xs) h room = let inside = room.1 in (room.0, omega arith)

module _ {S : SlabSource} (r : Region S) (size k : ℕ) where
  aligned_first-AlignedAllocated :
      r.used ≤ 2 ^ 63
      → size + 2 ^ k ≤ 2 ^ 32
      → (out : Option ℕ × Region S) → Reserved r (size + 2 ^ k - 1) out
      → ((p : ℕ) (r' : Region S) → out ≡ (some p, r') → p ≤ size_max - 2 ^ k)
      → AlignedAllocated r size (2 ^ k) (aligned_first size (align_result (2 ^ k) out))
  aligned_first-AlignedAllocated used_small bound _ (exhausted e) mapped = no_memory e
  aligned_first-AlignedAllocated used_small bound (some p, r') (ready v same count room) mapped =
      let below = mapped p r' refl in
      let al = small_align_bounds k p (exponent_small k (omega arith)) below in
      let lower = al.0 in
      let upper = al.1 in
      let q : ℕ = small_align p (2 ^ k) in
      let top = pow_pos k in
      let n =
        Room-data_end size q p (size + 2 ^ k - 1) r'.slabs room lower (omega arith) (omega arith) in
      let fits = Room-mono (q - p + size) (size + 2 ^ k - 1) p r'.slabs (omega arith) room in
      let done =
        use_first-Used r' (q - p + size) (q - p) size p r'.slabs refl v.fits v.count fits
          (omega arith) in
      let more = done.more in
      let at : p + (q - p) ≡ q = omega arith in
      subst (λ (u : ℕ). AlignedAllocated r size (2 ^ k) (some q, use_first u r' r'.slabs)) (sym n)
        (aligned (q - p) done.valid al.2 (omega arith) (omega arith) (
          rw (← same) (
            subst
              (λ (a : ℕ).
                (bytes : List ℕ)
                → length bytes ≡ size
                → (padding : List ℕ) × (length padding ≡ q - p)
                  × (contents (store (use_first (q - p + size) r' r'.slabs) a bytes)
                      ≡ contents r' ++ (padding ++ bytes)))
              at done.appended)))

module _ {S : SlabSource} (r : Region S) (v : IsValid r) (size k : ℕ)
    (bound : size + 2 ^ k ≤ 2 ^ 32) (m : IsModest r (size + 2 ^ k - 1))
    (mapped : IsMapped r (size + 2 ^ k - 1) (2 ^ k)) where
  -- On a valid region, for a size and an alignment of 2^k that come to at most 4 GiB, where a new
  -- slab would be smaller than 4 GiB, less than 2^63 bytes are in use, and reserved memory does not
  -- reach the end of the address space: `region_aligned_alloc` returns a multiple of 2^k, so that
  -- storing `size` bytes there appends less than 2^k bytes of padding and these bytes to what was
  -- allocated, counts both and leaves the region valid; or, only where the slab cache has no slab, it
  -- returns NULL and changes nothing else.
  pub region_aligned_alloc-Allocated :
      AlignedAllocated r size (2 ^ k) (region_aligned_alloc r size (2 ^ k))
  unfolding region_aligned_alloc region_aligned_reserve
  region_aligned_alloc-Allocated =
      let used_small = m.used_small in
      let top = pow_pos k in
      let request : sub64 (add64 size (2 ^ k)) 1 ≡ size + 2 ^ k - 1 = omega arith in
      rw request (
        aligned_first-AlignedAllocated r size k used_small bound
          (region_reserve r (size + 2 ^ k - 1)) (region_reserve-Reserved r v (size + 2 ^ k - 1) m)
          mapped.mapped)
