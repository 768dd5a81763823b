-- ===== src/Matras/Create.antt =====
-- A new table of blocks, and the bounds of the slots that the numbers of blocks select.
use mathlib.Core.Path.{subst}
use native.Mathlib.Nat.{mul-le-mul_right, mod-eq_of_lt, div-lt_iff_lt-mul, mod-lt}
use small.Base.{ℕ, suc, ◌+◌, ◌-◌, ◌*◌, ◌/◌, ◌%◌, ◌^◌, ◌≤◌, ◌<◌, min, ◌≡◌, sym, ap, ◌∙◌, arith}
use small.Base.Bits.{two_pow_reflects, two_pow_lt, pow_pos, two_pow_add, two_pow_mono}
use small.Base.Words.{to_u32, clz, clz-TopBit, sub32, shl32}
use small.Matras.{Extents, Allocator, Matras, matras_log2, matras_create, part1, part2, part3}
use small.Matras.Shape.{IsShaped, low1, low2}
use small.Matras.Stock.{spare, Keeper, IsStocked}
use small.Matras.Building.{IsValid}

matras_log2-two_pow : (k : ℕ) → k < 32 → matras_log2 (2 ^ k) ≡ k
unfolding matras_log2
matras_log2-two_pow k h =
    let below = two_pow_lt k 32 h in
    let top = clz-TopBit 32 (2 ^ k) (pow_pos k) (two_pow_lt k 32 h) in
    let fits = top.below in
    let word : to_u32 (2 ^ k) ≡ 2 ^ k = mod-eq_of_lt below in
    let least : 32 - 1 - clz 32 (2 ^ k) < suc k =
      two_pow_reflects (omega (arith, top.lower, two_pow_lt k (suc k) (omega arith))) in
    let most : k < 32 - clz 32 (2 ^ k) = two_pow_reflects top.upper in rw word (omega arith)

-- The slots of a block are in their extents.
pub record HasSlots {E : Extents} (m : Matras E) (i : ℕ) : Type 0 where
  pub slot1 : (part1 m i + 1) * 8 ≤ m.extent_size
  pub slot2 : (part2 m i + 1) * 8 ≤ m.extent_size
  pub slot3 : (part3 m i + 1) * m.block_size ≤ m.extent_size

mask_lem : (s : ℕ) → s < 32 → sub32 (shl32 1 s) 1 ≡ 2 ^ s - 1
mask_lem s h =
    let some_bits = pow_pos s in
    let below = two_pow_lt s 32 h in let q : shl32 1 s ≡ 2 ^ s = ground arith in rw q (omega arith)

module _ (E : Extents) (e b : ℕ) (extent_is : E.extent_size ≡ 2 ^ e) (b_below : b ≤ e)
    (e_above : 4 ≤ e) (e_below : e < 32) (fits : 2 * e < b + 35) (a : Allocator E)
    (cells : ℕ → ℕ → ℕ) where
  abbrev m : Matras E
  m = matras_create E (2 ^ b) a cells

  log_extent : matras_log2 E.extent_size ≡ e
  log_extent = ap matras_log2 extent_is ∙ matras_log2-two_pow e e_below

  log_block : matras_log2 (2 ^ b) ≡ b
  log_block = matras_log2-two_pow b (omega arith)

  log_pointer : matras_log2 8 ≡ 3
  log_pointer = matras_log2-two_pow 3 (omega arith)

  create_shift1 : m.shift1 ≡ 2 * e - b - 3
  unfolding matras_create
  create_shift1 = rw (log_extent, log_block, log_pointer) (omega arith)

  create_shift2 : m.shift2 ≡ e - b
  unfolding matras_create
  create_shift2 = rw (log_extent, log_block) (omega arith)

  create_capacity : m.capacity ≡ 2 ^ min 32 (3 * e - b - 6)
  unfolding matras_create
  create_capacity = rw (log_extent, log_block, log_pointer) (ap (λ (k : ℕ). 2 ^ k) (ground arith))

  create_mask1 : m.mask1 ≡ 2 ^ m.shift1 - 1
  unfolding matras_create
  create_mask1 = mask_lem m.shift1 (let q = create_shift1 in omega arith)

  create_mask2 : m.mask2 ≡ 2 ^ m.shift2 - 1
  unfolding matras_create
  create_mask2 = mask_lem m.shift2 (let q = create_shift2 in omega arith)

  create_extent_size : m.extent_size ≡ 2 ^ e
  unfolding matras_create
  create_extent_size = ap to_u32 extent_is ∙ mod-eq_of_lt (two_pow_lt e 32 e_below)

  create-IsShaped : IsShaped m
  create-IsShaped = record {
    mask1_is = create_mask1;
    mask2_is = create_mask2;
    order = let q1 = create_shift1 in let q2 = create_shift2 in omega arith;
    small =
        subst (λ (t : ℕ). t ≤ 2 ^ 32) (sym create_capacity) (two_pow_mono {b = 32} (omega arith));
  }

  create-IsValid : (K : Keeper E) → IsStocked K a (λ x. spare) → IsValid K m (λ x. spare)
  unfolding matras_create
  create-IsValid K stocked = record {
    shaped = create-IsShaped;
    stocked = stocked;
    blocks = λ i less. absurd (omega arith);
  }

  slot_fits : (i x y k : ℕ) → i < 2 ^ (x + y) → k ≡ y → i / 2 ^ k < 2 ^ x
  slot_fits i x y k less q =
      (div-lt_iff_lt-mul (pow_pos k)).1
        (subst (λ (t : ℕ). i < 2 ^ x * 2 ^ t) (sym q) (omega (arith, two_pow_add x y, less)))

  in_extent : (i : ℕ) → i < 2 ^ (e - 3) → (i + 1) * 8 ≤ m.extent_size
  in_extent i less =
      let split : e - 3 + 3 ≡ e = omega arith in
      let whole : 2 ^ (e - 3) * 2 ^ 3 ≡ 2 ^ e =
        sym (two_pow_add (e - 3) 3) ∙ ap (λ (t : ℕ). 2 ^ t) split in
      omega (arith, create_extent_size)

  cap_lem : (i : ℕ) → i < m.capacity → i < 2 ^ (e - 3 + (2 * e - b - 3))
  cap_lem i less =
      let more : 2 ^ min 32 (3 * e - b - 6) ≤ 2 ^ (e - 3 + (2 * e - b - 3)) =
        two_pow_mono (omega arith) in
      omega (arith, create_capacity)

  matras_create-HasSlots : (i : ℕ) → i < m.capacity → HasSlots m i
  unfolding matras_create
  matras_create-HasSlots i less =
      let cap : i < 2 ^ (e - 3 + (2 * e - b - 3)) = cap_lem i less in
      let low : i % 2 ^ m.shift1 < 2 ^ (e - 3 + (e - b)) =
        subst (λ (t : ℕ). i % 2 ^ t < 2 ^ (e - 3 + (e - b))) (sym create_shift1)
          (subst (λ (t : ℕ). i % 2 ^ (2 * e - b - 3) < 2 ^ t) (omega arith)
            (mod-lt i (pow_pos (2 * e - b - 3)))) in
      record {
        slot1 =
            in_extent (part1 m i) (slot_fits i (e - 3) (2 * e - b - 3) m.shift1 cap create_shift1);
        slot2 = in_extent (part2 m i) (
            subst (λ (t : ℕ). t / 2 ^ m.shift2 < 2 ^ (e - 3)) (sym (low1 m create-IsShaped i))
              (slot_fits (i % 2 ^ m.shift1) (e - 3) (e - b) m.shift2 low create_shift2));
        slot3 =
            (let split : e - b + b ≡ e = omega arith in
              let whole : 2 ^ (e - b) * 2 ^ b ≡ 2 ^ e =
                sym (two_pow_add (e - b) b) ∙ ap (λ (t : ℕ). 2 ^ t) split in
              let below : part3 m i + 1 ≤ 2 ^ (e - b) =
                subst (λ (t : ℕ). t + 1 ≤ 2 ^ (e - b)) (sym (low2 m create-IsShaped i))
                  (subst (λ (t : ℕ). i % 2 ^ t + 1 ≤ 2 ^ (e - b)) (sym create_shift2)
                    (omega (arith, mod-lt i (pow_pos (e - b))))) in
              let more = mul-le-mul_right (2 ^ b) below in
              subst (λ (t : ℕ). (part3 m i + 1) * 2 ^ b ≤ t) (sym create_extent_size)
                (omega arith));
      }

  -- For extents of 2^e bytes (e from 4 to 31) and blocks of 2^b bytes that are not larger, with 2
  -- * e < b + 35: a new table is valid, its capacity is 2^(3 * e - b - 6) or 2^32, if that is
  -- less, and each number below the capacity selects, at all three levels, a slot that lies inside
  -- its extent.
  pub matras_create-IsValid :
      (K : Keeper E)
      → IsStocked K a (λ x. spare)
      → IsValid K m (λ x. spare)
        × (m.capacity ≡ 2 ^ min 32 (3 * e - b - 6))
        × ((i : ℕ) → i < m.capacity → HasSlots m i)
  matras_create-IsValid K stocked =
      (create-IsValid K stocked, create_capacity, matras_create-HasSlots)
