-- ===== src/Ibuf/Contents.antt =====
-- What the operations of an input buffer keep and change.
use mathlib.Core.Path.{subst}
use small.Base.{
  ◌≢◌, max, ap, ◌*◌, sym, ◌∙◌, ◌<◌, ℕ, ◌+◌, ◌-◌, ◌^◌, ◌≤◌, ◌≡◌, refl, inl, inr, Option, none, some,
  List, ◌++◌, arith, ltb, leb, if◌then◌else◌, Bool-cases, length, drop,
}
use small.Base.Slices.{
  slice, overwrite, length-slice, take-append, slice-overwrite, length-overwrite,
}
use small.Base.Words.{add64, mul64}
use small.SlabSource.{Block, SlabSource}
use small.Ibuf.{
  Ibuf, grow, reserved, pointer, advance, ibuf_reserve_slow, ibuf_reserve, ibuf_alloc, contents,
  store,
}
use small.Ibuf.Grow.{IsLeast, grow_enough}

-- The positions are in order and inside the memory.
pub record IsValid {S : SlabSource} (b : Ibuf S) : Type 0 where
  pub order : b.rpos ≤ b.wpos
  pub inside : b.wpos ≤ length b.memory
  pub bare : b.buf ≡ none → length b.memory ≡ 0

-- Moving the input to the front of memory that holds it keeps it.
pub front :
    (used : ℕ) (input rest : List ℕ)
    → length input ≡ used
    → slice 0 (used - 0) (overwrite 0 input rest) ≡ input
front used input rest e =
    let same : used - 0 ≡ used = omega arith in
    rw same (take-append input (drop (0 + length input) rest) used e)

module _ {S : SlabSource} where
  -- The capacity of a new block: that of the old one doubled, or the start capacity if that is more,
  -- doubled on as long as it does not hold `wanted` bytes.
  abbrev pub IsNewCapacity : Ibuf S → (wanted capacity : ℕ) → Type 0
  IsNewCapacity b wanted capacity =
      IsLeast wanted (max (2 * length b.memory) b.start_capacity) capacity

  -- The outcomes of a request for `size` bytes: NULL, where the memory does not have them and the slab
  -- cache refuses a block of the new capacity, and nothing else changes; NULL, where no bytes are
  -- asked for and there is no memory; or a pointer to as much memory behind the input, which is the
  -- same.
  pub data Reserved (b : Ibuf S) (size : ℕ) : Option ℕ × Ibuf S → Type 0 where
    exhausted :
        {s : S.State} {capacity : ℕ}
        → length b.memory < b.wpos - b.rpos + size
        → IsNewCapacity b (b.wpos - b.rpos + size) capacity
        → S.slab_get b.slabc capacity ≡ (none, s)
        → Reserved b size (none, record b { slabc = s })
    nothing : size ≡ 0 → b.buf ≡ none → Reserved b size (none, b)
    ready :
        {b' : Ibuf S} {p : ℕ}
        → IsValid b'
        → b'.buf ≢ none
        → p ≡ b'.wpos
        → b'.wpos + size ≤ length b'.memory
        → contents b' ≡ contents b
        → Reserved b size (some p, b')

  module _ (b : Ibuf S) (v : IsValid b) where
    pub length-input : length (contents b) ≡ b.wpos - b.rpos
    length-input =
        let order = v.order in
        let inside = v.inside in length-slice b.rpos (b.wpos - b.rpos) b.memory (omega arith)

    reserved-Reserved :
        (size needed : ℕ) {r : Option Block × S.State}
        → S.slab_get b.slabc needed ≡ r
        → IsNewCapacity b (b.wpos - b.rpos + size) needed
        → length b.memory < b.wpos - b.rpos + size
        → Reserved b size (reserved b (b.wpos - b.rpos) r)
    reserved-Reserved size needed {r = (none, s)} e new_capacity full =
        exhausted full new_capacity e
    reserved-Reserved size needed {r = (some new, s)} e new_capacity full =
        let enough = new_capacity.enough in
        let room = S.slab_get-capacity b.slabc needed e in
        let same = length-input in
        let kept = length-overwrite 0 (contents b) new.bytes (omega arith) in
        ready
          (record {
            order = omega arith;
            inside = omega arith;
            bare = λ q. absurd (ground (arith, q));
          })
          (λ q. absurd (ground (arith, q))) refl (omega arith)
          (front (b.wpos - b.rpos) (contents b) new.bytes same)

    -- The memory from `wpos` has `size` bytes.
    fits-Reserved :
        (size : ℕ)
        → b.wpos + size ≤ length b.memory
        → (buf : Option ℕ) → b.buf ≡ buf
        → Reserved b size (pointer buf b.wpos, b)
    fits-Reserved size room none e = let no_memory = v.bare e in nothing (omega arith) e
    fits-Reserved size room (some address) e =
        ready v (λ q. absurd (ground (arith, sym e ∙ q))) refl room refl

    -- The memory has the bytes once the input is at its front.
    moved-Reserved :
        (size : ℕ)
        → length b.memory < b.wpos + size
        → b.wpos - b.rpos + size ≤ length b.memory
        → (buf : Option ℕ) → b.buf ≡ buf
        → Reserved b size (
          pointer buf (b.wpos - b.rpos),
          record b {
            memory = overwrite 0 (slice b.rpos (b.wpos - b.rpos) b.memory) b.memory;
            rpos = 0;
            wpos = b.wpos - b.rpos;
          },
        )
    moved-Reserved size full room none e =
        let no_memory = v.bare e in let inside = v.inside in absurd (omega arith)
    moved-Reserved size full room (some address) e =
        let same = length-input in
        let inside = v.inside in
        let kept = length-overwrite 0 (contents b) b.memory (omega arith) in
        ready
          (record {
            order = omega arith;
            inside = omega arith;
            bare = λ q. absurd (ground (arith, sym e ∙ q));
          })
          (λ q. absurd (ground (arith, sym e ∙ q))) refl (omega arith)
          (front (b.wpos - b.rpos) (contents b) b.memory same)

-- The sizes stay below 2^62, so that nothing wraps, and the start capacity is not 0, without which
-- doubling would not end.
pub record IsModest {S : SlabSource} (b : Ibuf S) (size : ℕ) : Type 0 where
  pub start : 1 ≤ b.start_capacity
  pub start_small : b.start_capacity ≤ 2 ^ 62
  pub capacity_small : length b.memory ≤ 2 ^ 62
  pub size_small : size ≤ 2 ^ 62

module _ {S : SlabSource} (b : Ibuf S) (v : IsValid b) (size : ℕ) (m : IsModest b size) where
  ibuf_reserve_slow-Reserved :
      length b.memory < b.wpos + size → Reserved b size (ibuf_reserve_slow b size)
  unfolding ibuf_reserve_slow
  ibuf_reserve_slow-Reserved past =
      let order = v.order in
      let inside = v.inside in
      let start = m.start in
      let capacity_small = m.capacity_small in
      let size_small = m.size_small in
      let start_small = m.start_small in
      let used : ℕ = b.wpos - b.rpos in
      let cap : ℕ = length b.memory in
      let first : ℕ =
        if ltb (mul64 cap 2) b.start_capacity then b.start_capacity else mul64 cap 2 in
      let is_first : first ≡ max (2 * cap) b.start_capacity = ground arith in
      let pos : 1 ≤ first = ground arith in
      let new_capacity : IsNewCapacity b (used + size) (grow 64 (used + size) first) =
        subst (λ (n : ℕ). IsLeast (used + size) n (grow 64 (used + size) first)) is_first
          (grow_enough 64 (used + size) first pos (omega arith) (omega arith)) in
      let sum : add64 used size ≡ used + size = omega arith in
      let sum' : add64 size used ≡ size + used = omega arith in
      rw (sum, sum')
        (elim (Bool-cases (leb (size + used) cap)) [
          | inl fits ↦ rw fits (moved-Reserved b v size past (ground arith) b.buf refl)
          | inr full ↦ rw full (
              reserved-Reserved b v size (grow 64 (used + size) first) refl new_capacity
                (ground arith))
        ])

  -- On a valid input buffer whose sizes stay below 2^62 and whose start capacity is not 0,
  -- ibuf_reserve returns a pointer right behind the input, with as much memory there as was asked
  -- for, keeps the input and leaves the buffer valid; or it returns NULL and changes nothing else:
  -- only where the memory is too small and the slab cache refuses a block of the new capacity,
  -- which is the start capacity or twice the old one, whichever is more, doubled as often as it
  -- takes to hold the input and the bytes and no oftener; or where no bytes are asked for and the
  -- buffer has no memory.
  pub ibuf_reserve-Reserved : Reserved b size (ibuf_reserve b size)
  unfolding ibuf_reserve
  ibuf_reserve-Reserved = elim (Bool-cases (leb (b.wpos + size) (length b.memory))) [
    | inl fits ↦ rw fits (fits-Reserved b v size (ground arith) b.buf refl)
    | inr full ↦ rw full (ibuf_reserve_slow-Reserved (ground arith))
  ]

-- The outcomes of `ibuf_alloc`: NULL, where the memory does not have `size` bytes behind the input and
-- the slab cache refuses a block of the new capacity, and nothing else changes; NULL, where no bytes
-- are asked for and there is no memory; or `size` more bytes are part of the
-- input, and storing there appends to it.
pub data Allocated {S : SlabSource} (b : Ibuf S) (size : ℕ) : Option ℕ × Ibuf S → Type 0 where
  exhausted :
      {s : S.State} {capacity : ℕ}
      → length b.memory < b.wpos - b.rpos + size
      → IsNewCapacity b (b.wpos - b.rpos + size) capacity
      → S.slab_get b.slabc capacity ≡ (none, s)
      → Allocated b size (none, record b { slabc = s })
  nothing : {b' : Ibuf S} → size ≡ 0 → b.buf ≡ none → b' ≡ b → Allocated b size (none, b')
  allocated :
      {b' : Ibuf S} {p : ℕ}
      → IsValid b'
      → b'.buf ≢ none
      → ((bytes : List ℕ) → length bytes ≡ size → contents (store b' p bytes) ≡ contents b ++ bytes)
      → Allocated b size (some p, b')

advance-Allocated :
    {S : SlabSource} (b : Ibuf S) (size : ℕ) {r : Option ℕ × Ibuf S}
    → Reserved b size r
    → Allocated b size (advance size r)
advance-Allocated b size (exhausted full new_capacity e) = exhausted full new_capacity e
advance-Allocated b size (nothing none_asked e) = nothing none_asked e refl
advance-Allocated b size (ready {b'} {p} v real at room same) =
    let order = v.order in
    allocated (record { order = omega arith; inside = room; bare = v.bare }) real
      λ bytes len.
        rw (at, ← same, ← len) (slice-overwrite b'.rpos b'.wpos bytes b'.memory order (rw len room))

-- The memory from `wpos` has `size` bytes.
fits-Allocated :
    {S : SlabSource} (b : Ibuf S)
    → IsValid b
    → (size : ℕ) → b.wpos + size ≤ length b.memory
    → (buf : Option ℕ) → b.buf ≡ buf
    → Allocated b size (pointer buf b.wpos, record b { wpos = b.wpos + size })
fits-Allocated b v size room none e =
    let no_memory = v.bare e in
    let none_asked : size ≡ 0 = omega arith in
    let same : b.wpos + size ≡ b.wpos = omega arith in
    nothing none_asked e (ap (λ (n : ℕ). record b { wpos = n }) same)
fits-Allocated b v size room (some address) e =
    advance-Allocated b size {r = (some b.wpos, b)}
      (ready v (λ q. absurd (ground (arith, sym e ∙ q))) refl room refl)

module _ {S : SlabSource} (b : Ibuf S) (v : IsValid b) (size : ℕ) (m : IsModest b size) where
  -- On a valid input buffer whose sizes stay below 2^62 and whose start capacity is not 0,
  -- ibuf_alloc makes room for the bytes behind the input, so that storing them at the pointer it
  -- returns appends them to the input, and leaves the buffer valid; or it returns NULL and changes
  -- nothing else: only where the memory is too small and the slab cache refuses a block of the new
  -- capacity, which is the start capacity or twice the old one, whichever is more, doubled as
  -- often as it takes to hold the input and the bytes and no oftener; or where no bytes are asked
  -- for and the buffer has no memory.
  pub ibuf_alloc-Allocated : Allocated b size (ibuf_alloc b size)
  unfolding ibuf_alloc
  ibuf_alloc-Allocated = elim (Bool-cases (leb (b.wpos + size) (length b.memory))) [
    | inl fits ↦ rw fits (fits-Allocated b v size (ground arith) b.buf refl)
    | inr full ↦
        rw full (advance-Allocated b size (ibuf_reserve_slow-Reserved b v size m (ground arith)))
  ]
