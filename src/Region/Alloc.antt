-- ===== src/Region/Alloc.antt =====
-- `region_alloc` appends to the bytes that were allocated, or changes nothing.
use mathlib.Core.Path.{subst}
use small.Base.{
  ℕ, ◌+◌, ◌-◌, ◌^◌, ◌≤◌, ◌<◌, ◌≡◌, refl, sym, ap, ◌∙◌, inl, inr, Option, none, some, List, [], ◌∷◌,
  ◌++◌, arith, leb, Bool-cases, Option-cases, length, take, drop, length-take, length-drop,
}
use small.Base.Slices.{slice, overwrite, take-overwrite, take_add}
use mathlib.Core.List.{append_assoc, append-nil}
use small.SlabSource.{Block, SlabSource}
use small.Region.{
  slab_min_size, region_alloc, alloc_first, slab_sizeof, rslab_sizeof, slab_size,
  region_reserve_slow, sub64, first_fit, add64, to_u32, add32, Rslab, Region, rslab_data,
  rslab_data_end, rslab_unused, use_first, add_slab, region_reserve,
}
use small.Region.Log.{log_of, contents, total_used, Fits, IsValid}

-- The caller stores `bytes` at a pointer into the first slab.
abbrev pub store_first : ℕ → List ℕ → List Rslab → List Rslab
store_first p bytes [] = []
store_first p bytes (x ∷ xs) =
    record x { memory = overwrite (p - rslab_data x) bytes x.memory } ∷ xs

abbrev pub store : {S : SlabSource} → Region S → ℕ → List ℕ → Region S
store r p bytes = record r { slabs = store_first p bytes r.slabs }

-- `p` is where the free memory of the first slab starts, which has room for `size` bytes.
abbrev pub Room : ℕ → ℕ → List Rslab → Type 0
Room size p [] = ⊥
Room size p (x ∷ xs) = (p ≡ rslab_data_end x) × (x.used + size ≤ length x.memory)

-- The memory of a chunk that starts `pad` bytes past the used ones.
pub chunk :
    (used pad : ℕ) (bytes memory : List ℕ)
    → used + (pad + length bytes) ≤ length memory
    → take (used + (pad + length bytes)) (overwrite (used + pad) bytes memory)
      ≡ take used memory ++ (slice used pad memory ++ bytes)
chunk used pad bytes memory h =
    let e : used + (pad + length bytes) ≡ used + pad + length bytes = omega arith in
    rw (e, take-overwrite (used + pad) bytes memory (omega arith), take_add used pad memory)
      (append_assoc (take used memory) (slice used pad memory) bytes)

-- What `use_first` does for a chunk with `pad` bytes before it, if the bytes allocated were `old`.
pub record Used {S : SlabSource} (old : List ℕ) (count pad size p : ℕ) (out : Region S)
    : Type 0 where
  pub valid : IsValid out
  pub more : out.used ≡ count + (pad + size)
  pub appended :
      (bytes : List ℕ)
      → length bytes ≡ size
      → (padding : List ℕ) × (length padding ≡ pad)
        × (contents (store out (p + pad) bytes) ≡ old ++ (padding ++ bytes))

module _ {S : SlabSource} where
  pub use_first-Used :
      (r : Region S) (n pad size p : ℕ) (xs : List Rslab)
      → n ≡ pad + size
      → Fits xs
      → r.used ≡ total_used xs
      → Room n p xs
      → r.used + n < 2 ^ 64
      → Used (log_of xs) r.used pad size p (use_first n r xs)
  use_first-Used r n pad size p [] e f count room small = absurd room
  use_first-Used r n pad size p (x ∷ xs) e f count room small =
      let inside = room.1 in
      let bound = f.1 in
      let at = room.0 in
      let sum : add32 x.used (to_u32 n) ≡ x.used + (pad + size) = omega arith in
      let sum' : add64 r.used n ≡ r.used + (pad + size) = omega arith in
      let place : p + pad - rslab_data x ≡ x.used + pad = omega arith in
      record {
        valid = record { fits = (rw sum (omega arith), bound, f.2); count = omega arith };
        more = sum';
        appended = λ bytes len.
            let fit : x.used + (pad + length bytes) ≤ length x.memory = omega arith in
            (
              slice x.used pad x.memory,
              omega (arith, length-take pad (drop x.used x.memory), length-drop x.used x.memory),
              rw (sum, place, ← len)
                  (ap (λ (t : List ℕ). log_of xs ++ t) (chunk x.used pad bytes x.memory fit)
                    ∙ sym (
                        append_assoc (log_of xs) (take x.used x.memory)
                          (slice x.used pad x.memory ++ bytes))),
            );
      }

-- The outcomes of a reservation: NULL, where the slab cache has no slab, and nothing else changes; or
-- room for `size` bytes in the first slab, and the bytes allocated are the same.
pub data Reserved {S : SlabSource} (r : Region S) (size : ℕ) : Option ℕ × Region S → Type 0 where
  exhausted :
      {s : S.State}
      → S.slab_get r.cache (slab_min_size size) ≡ (none, s)
      → Reserved r size (none, record r { cache = s })
  ready :
      {r' : Region S} {p : ℕ}
      → IsValid r'
      → contents r' ≡ contents r
      → r'.used ≡ r.used
      → Room size p r'.slabs
      → Reserved r size (some p, r')

pub first_fit-Room :
    (xs : List Rslab) (size p : ℕ) → Fits xs → first_fit xs size ≡ some p → Room size p xs
unfolding rslab_unused
first_fit-Room [] size p f e = absurd (ground arith)
first_fit-Room (x ∷ xs) size p f e =
    let inside = f.0 in
    let bound = f.1 in
    let free : to_u32 (sub64 (slab_size x - rslab_sizeof) x.used) ≡ length x.memory - x.used =
      omega arith in
    elim (Bool-cases (leb size (rslab_unused x))) [
      | inl fits ↦ (ground arith, ground arith)
      | inr full ↦ absurd (ground arith)
    ]

-- The request stays below 4 GiB, and so does a slab that is taken for it.
pub record IsModest {S : SlabSource} (r : Region S) (size : ℕ) : Type 0 where
  pub size_small : size < 2 ^ 32
  pub used_small : r.used ≤ 2 ^ 63
  pub slab_small :
      {b : Block} {s : S.State}
      → S.slab_get r.cache (slab_min_size size) ≡ (some b, s)
      → length b.bytes < 2 ^ 32

module _ {S : SlabSource} (r : Region S) (v : IsValid r) (size : ℕ) (m : IsModest r size) where
  add_slab-Reserved :
      {out : Option Block × S.State}
      → S.slab_get r.cache (slab_min_size size) ≡ out
      → Reserved r size (add_slab r out)
  add_slab-Reserved {out = (none, s)} e = exhausted e
  add_slab-Reserved {out = (some b, s)} e =
      let room = S.slab_get-capacity r.cache (slab_min_size size) e in
      let bound = m.slab_small e in
      let size_small = m.size_small in
      let count = v.count in
      let rest = length-drop (rslab_sizeof - slab_sizeof) b.bytes in
      ready (record { fits = (omega arith, omega arith, v.fits); count = omega arith })
        (append-nil (log_of r.slabs)) refl (omega arith, omega arith)

  pub region_reserve-Reserved : Reserved r size (region_reserve r size)
  unfolding region_reserve region_reserve_slow
  region_reserve-Reserved = elim (Option-cases (first_fit r.slabs size)) [
    | inl full ↦ rw (region_reserve, full) (add_slab-Reserved refl)
    | inr (p, fits) ↦
        rw (region_reserve, fits) (ready v refl refl (first_fit-Room r.slabs size p v.fits fits))
  ]

-- The outcomes of `region_alloc`: NULL, where the slab cache has no slab, and nothing else changes; or
-- a chunk of `size` bytes, and storing there appends to the bytes that were allocated.
pub data Allocated {S : SlabSource} (r : Region S) (size : ℕ) : Option ℕ × Region S → Type 0 where
  exhausted :
      {s : S.State}
      → S.slab_get r.cache (slab_min_size size) ≡ (none, s)
      → Allocated r size (none, record r { cache = s })
  allocated :
      {r' : Region S} {p : ℕ}
      → IsValid r'
      → r'.used ≡ r.used + size
      → ((bytes : List ℕ) → length bytes ≡ size → contents (store r' p bytes) ≡ contents r ++ bytes)
      → Allocated r size (some p, r')

length-zero : (xs : List ℕ) → length xs ≡ 0 → xs ≡ []
length-zero [] e = refl
length-zero (x ∷ xs) e = absurd (omega arith)

alloc_first-Allocated :
    {S : SlabSource} (r : Region S) (size : ℕ)
    → r.used + size < 2 ^ 64
    → {out : Option ℕ × Region S} → Reserved r size out
    → Allocated r size (alloc_first size out)
alloc_first-Allocated r size small (exhausted e) = exhausted e
alloc_first-Allocated r size small (ready {r'} {p} v same count room) =
    let done =
      use_first-Used r' size 0 size p r'.slabs (omega arith) v.fits v.count room (omega arith) in
    let more = done.more in
    let at : p + 0 ≡ p = omega arith in
    allocated done.valid (omega arith) λ bytes len.
      (let got = done.appended bytes len in
        let none_left = length-zero got.0 got.1 in
        rw (← same) (
          subst
            (λ (q : ℕ).
              contents (store (use_first size r' r'.slabs) q bytes) ≡ contents r' ++ bytes)
            at
            (subst
              (λ (padding : List ℕ).
                contents (store (use_first size r' r'.slabs) (p + 0) bytes)
                ≡ contents r' ++ (padding ++ bytes))
              none_left got.2)))

module _ {S : SlabSource} (r : Region S) (v : IsValid r) (size : ℕ) (m : IsModest r size) where
  -- On a valid region, for less than 4 GiB, and where a new slab would be smaller than 4 GiB and
  -- less than 2^63 bytes are in use: `region_alloc` returns a chunk, so that storing `size` bytes at
  -- the pointer appends them to the bytes that were allocated, counts them and leaves the region
  -- valid; or, only where the slab cache has no slab, it returns NULL and changes nothing else.
  pub region_alloc-Allocated : Allocated r size (region_alloc r size)
  unfolding region_alloc
  region_alloc-Allocated =
      let size_small = m.size_small in
      let used_small = m.used_small in
      alloc_first-Allocated r size (omega arith) (region_reserve-Reserved r v size m)
