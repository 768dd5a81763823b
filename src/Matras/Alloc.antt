-- ===== src/Matras/Alloc.antt =====
-- What `matras_alloc` and `matras_alloc_range` promise.
use small.Base.Bits.{pow_pos}
use mathlib.Core.Path.{subst}
use native.Mathlib.Nat.{mod-lt, mod-eq_of_lt}
use small.Base.{
  ◌==◌, ℕ, ◌+◌, ◌-◌, ◌%◌, ◌^◌, ◌≤◌, ◌<◌, bit_and, ◌≡◌, refl, sym, ap, ◌∙◌, inl, inr, Option, none,
  some, arith, ltb, Bool-cases,
}
use small.Base.Words.{to_u32}
use small.Matras.{
  matras_alloc_range, matras_alloc, part3, Extents, Allocator, View, Matras, Pointer, add_blocks,
  matras_view_get_no_check, matras_get, part1, part2,
}
use small.Matras.Stock.{Place, Keeper}
use small.Matras.Levels.{matras_alloc_internal-Internal}
use small.Matras.Lookup.{IsAt}
use small.Matras.Building.{built, Context, Internal, internal_refused, internal_got, IsValid}
use small.Matras.Rows.{row_IsAt, row_fits, row_part1, row_part2, row_part3}

-- What an allocation keeps of the blocks below `m.head.block_count`, of which `m'` comes after `m`:
-- every view finds them at the same pointers, and their content is the same.
pub record Unmoved {E : Extents} (m m' : Matras E) (place place' : ℕ → Place) : Type 0 where
  pub heads : (i : ℕ) → i < m.head.block_count → matras_get m' i ≡ matras_get m i
  pub views :
      (w : View) (i : ℕ)
      → i < m.head.block_count
      → IsAt m m.cells place w.root i
      → (matras_view_get_no_check m' w i ≡ matras_view_get_no_check m w i)
        × IsAt m' m'.cells place' w.root i
  pub content :
      (w : View) (i slot : ℕ)
      → IsAt m m.cells place w.root i
      → let (e, k) = matras_view_get_no_check m w i in m'.cells e slot ≡ m.cells e slot

-- The outcomes of an allocation of `n` blocks.
pub data Allocated {E : Extents} (K : Keeper E) (m : Matras E) (place : ℕ → Place) (n : ℕ)
    : Option (ℕ × Pointer) × Matras E → Type 0 where
  alloc_full : m.capacity < m.head.block_count + n → Allocated K m place n (none, m)
  alloc_refused :
      {m' : Matras E} {s : E.State} (place' : ℕ → Place)
      → (E.alloc_func s).0 ≡ none
      → IsValid K m' place'
      → m'.head.block_count ≡ m.head.block_count
      → Unmoved m m' place place'
      → Allocated K m place n (none, m')
  alloc_new :
      {m' : Matras E} {e slot : ℕ} (place' : ℕ → Place)
      → IsValid K m' place'
      → m'.head.block_count ≡ m.head.block_count + n
      → Unmoved m m' place place'
      → ((j : ℕ) → j < n → matras_get m' (m.head.block_count + j) ≡ (e, slot + j))
      → Allocated K m place n (some (m.head.block_count, (e, slot)), m')

module _ {E : Extents} (K : Keeper E) (m : Matras E) (place : ℕ → Place)
    (v : IsValid K m place) where
  abbrev counted : Allocator E → (ℕ → ℕ → ℕ) → (root n k count : ℕ) → Matras E
  counted a cells root n k count =
      let b : Matras E = built m a cells root n k in
      record b { head = record b.head { block_count = count } }

  same_pointer :
      (a : Allocator E) (cells : ℕ → ℕ → ℕ) (root : ℕ) (place' : ℕ → Place)
      → Context K m place a cells root place'
      → (r i : ℕ) → i < m.head.block_count
      → IsAt m m.cells place r i
      → cells (cells r (part1 m i)) (part2 m i) ≡ m.cells (m.cells r (part1 m i)) (part2 m i)
  same_pointer a cells root place' c r i less at =
      let q = c.kept.kept_path r i less at in ap (λ (t : ℕ). cells t (part2 m i)) q.0 ∙ q.1

  same_root :
      (a : Allocator E) (cells : ℕ → ℕ → ℕ) (root : ℕ) (place' : ℕ → Place)
      → Context K m place a cells root place'
      → (i : ℕ) → i < m.head.block_count
      → root ≡ m.head.root
  same_root a cells root place' c i less = c.same (λ q. absurd (omega arith))

  Context-Unmoved :
      (a : Allocator E) (cells : ℕ → ℕ → ℕ) (root n k count : ℕ) (place' : ℕ → Place)
      → Context K m place a cells root place'
      → Unmoved m (counted a cells root n k count) place place'
  unfolding matras_get
  Context-Unmoved a cells root n k count place' c = record {
    heads = λ i less.
        ap (λ (r : ℕ). (cells (cells r (part1 m i)) (part2 m i), part3 m i))
          (same_root a cells root place' c i less)
        ∙ ap (λ (e : ℕ). (e, part3 m i))
            (same_pointer a cells root place' c m.head.root i less (v.blocks i less));
    views = λ w i less at. (
      ap (λ (e : ℕ). (e, part3 m i)) (same_pointer a cells root place' c w.root i less at),
      c.kept.kept_place w.root i less at,
    );
    content = λ w i slot at.
        c.kept.kept_block (m.cells (m.cells w.root (part1 m i)) (part2 m i)) (part1 m i) (part2 m i)
          slot at.2;
  }

  Context-IsValid :
      (a : Allocator E) (cells : ℕ → ℕ → ℕ) (root n k count : ℕ) (place' : ℕ → Place)
      → Context K m place a cells root place'
      → ((i : ℕ) → i < count → IsAt m cells place' root i)
      → IsValid K (counted a cells root n k count) place'
  Context-IsValid a cells root n k count place' c at = record {
    shaped = record {
      mask1_is = v.shaped.mask1_is;
      mask2_is = v.shaped.mask2_is;
      order = v.shaped.order;
      small = v.shaped.small;
    };
    stocked = c.stocked;
    blocks = at;
  }

  old_at :
      (a : Allocator E) (cells : ℕ → ℕ → ℕ) (root : ℕ) (place' : ℕ → Place)
      → Context K m place a cells root place'
      → (i : ℕ) → i < m.head.block_count
      → IsAt m cells place' root i
  old_at a cells root place' c i less =
      subst (λ (r : ℕ). IsAt m cells place' r i) (sym (same_root a cells root place' c i less))
        (c.kept.kept_place m.head.root i less (v.blocks i less))

  abbrev pointer : (cells : ℕ → ℕ → ℕ) → (root i : ℕ) → Pointer
  pointer cells root i = (cells (cells root (part1 m i)) (part2 m i), part3 m i)

  new_pointer :
      (cells : ℕ → ℕ → ℕ) (root e j : ℕ)
      → m.head.block_count % 2 ^ m.shift2 + j < 2 ^ m.shift2
      → cells (cells root (part1 m m.head.block_count)) (part2 m m.head.block_count) ≡ e
      → pointer cells root (m.head.block_count + j)
        ≡ (e, bit_and (bit_and m.head.block_count m.mask1) m.mask2 + j)
  new_pointer cells root e j fits found =
      let id = m.head.block_count in
      let to_slot : ℕ → ℕ → ℕ → Pointer = λ k1 k2 k3. (cells (cells root k1) k2, k3) in
      ap (λ (t : ℕ). to_slot t (part2 m (id + j)) (part3 m (id + j)))
        (row_part1 m v.shaped id j fits)
      ∙ ap (λ (t : ℕ). to_slot (part1 m id) t (part3 m (id + j))) (row_part2 m v.shaped id j fits)
      ∙ ap (λ (t : ℕ). (t, part3 m (id + j))) found
      ∙ ap (λ (t : ℕ). (e, t)) (row_part3 m v.shaped id j fits)

  add_blocks-Allocated :
      (n : ℕ) {r : Option Pointer × Matras E}
      → m.head.block_count < 2 ^ 32
      → m.head.block_count % 2 ^ m.shift2 + n ≤ 2 ^ m.shift2
      → Internal K m place r
      → Allocated K m place n (add_blocks n r)
  unfolding matras_get
  add_blocks-Allocated n less fits
        (internal_refused {a = a} {cells = cells} {root = root} {n = x} {k = k} place' fails c) =
      alloc_refused place' fails
        (Context-IsValid a cells root x k m.head.block_count place' c
          (old_at a cells root place' c))
        refl (Context-Unmoved a cells root x k m.head.block_count place' c)
  add_blocks-Allocated n less fits
        (internal_got {a = a} {cells = cells} {root = root} {n = x} {k = k} {e = e} place' c at
          found) =
      let count = m.head.block_count in
      let e32 : to_u32 count ≡ count = mod-eq_of_lt less in
      rw e32 (
        alloc_new place'
          (Context-IsValid a cells root x k (count + n) place' c (λ i below.
            elim (Bool-cases (ltb i count)) [
              | inl old ↦ old_at a cells root place' c i (ground arith)
              | inr new ↦
                  (let from : count ≤ i = ground arith in
                    let split : count + (i - count) ≡ i = omega arith in
                    subst (λ (t : ℕ). IsAt m cells place' root t) split
                      (row_IsAt m v.shaped count (i - count) (omega arith) cells root place' at))
            ]))
          refl (Context-Unmoved a cells root x k (count + n) place' c)
          (λ j below. new_pointer cells root e j (omega arith) found))

  -- In a valid table with at most as many blocks as its capacity, for a user that does not give an
  -- extent out twice: matras_alloc returns NULL where the table is full; or NULL because the user
  -- gives no extent, and the table is valid with the blocks that it had; or the number and the
  -- pointer of a new block, at which matras_get finds it, in a valid table with one block more.
  -- The blocks that were there keep their pointers and what they hold, in the head and in every
  -- view.
  pub matras_alloc-Allocated :
      m.head.block_count ≤ m.capacity → Allocated K m place 1 (matras_alloc m)
  unfolding matras_alloc
  matras_alloc-Allocated below =
      let small = v.shaped.small in
      let low = mod-lt m.head.block_count (pow_pos m.shift2) in
      elim (Bool-cases (m.head.block_count == m.capacity)) [
        | inl all ↦ rw all (alloc_full (ground arith))
        | inr some_left ↦
            (let less : m.head.block_count < m.capacity = ground arith in
              rw some_left (
                add_blocks-Allocated 1 (omega arith) (omega arith)
                  (matras_alloc_internal-Internal K m place v (omega arith))))
      ]

  -- In a valid table, for a positive range_count that divides the number of blocks in the table
  -- and in an extent, and a user that does not give an extent out twice: matras_alloc_range
  -- returns NULL where the range would pass the capacity; or NULL because the user gives no
  -- extent; or a pointer from which the new blocks, as matras_get finds them, follow each other in
  -- one extent. The table is valid after it, and the blocks that were there keep their pointers
  -- and what they hold.
  pub matras_alloc_range-Allocated :
      (range_count : ℕ)
      → 0 < range_count
      → m.head.block_count % range_count ≡ 0
      → 2 ^ m.shift2 % range_count ≡ 0
      → Allocated K m place range_count (matras_alloc_range m range_count)
  unfolding matras_alloc_range
  matras_alloc_range-Allocated n pos whole divides =
      let small = v.shaped.small in
      let fits = row_fits n m.head.block_count (2 ^ m.shift2) (pow_pos m.shift2) whole divides in
      elim (Bool-cases (ltb m.capacity (m.head.block_count + n))) [
        | inl full ↦ rw full (alloc_full (ground arith))
        | inr left ↦
            (let below : m.head.block_count + n ≤ m.capacity = ground arith in
              rw left (
                add_blocks-Allocated n (omega arith) fits
                  (matras_alloc_internal-Internal K m place v (omega arith))))
      ]
