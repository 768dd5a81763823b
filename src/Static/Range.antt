-- ===== src/Static/Range.antt =====
-- The memory that the static buffer gives out.
use small.Base.{
  refl, false, ℕ, ◌+◌, ◌-◌, ◌%◌, ◌^◌, ◌≤◌, ◌<◌, ◌≡◌, inl, inr, Option, none, some, arith, ltb,
  Bool-cases,
}
use small.Base.Bits.{pow_pos, two_pow_mono}
use small.Base.Words.{add64, sub64}
use small.Util.Align.{small_align_bounds}
use small.Static.{
  small_static_size, static_reserve, static_alloc, static_aligned_reserve, static_aligned_alloc,
}

-- The outcomes of a request at the position `pos`, for a chunk that needs up to `room` bytes with its
-- padding: NULL where the buffer is smaller than that; or a chunk inside the buffer, which starts at
-- the position or behind it, or at the start of the buffer if the rest of it was too small. The
-- position afterwards is the end of the chunk.
pub data Chunk (buffer pos size room alignment : ℕ) : Option ℕ × ℕ → Type 0 where
  too_large : small_static_size < room → Chunk buffer pos size room alignment (none, pos)
  next :
      {p pos' : ℕ}
      → p % alignment ≡ 0
      → buffer + pos ≤ p
      → p + size ≤ buffer + small_static_size
      → buffer + pos' ≡ p + size
      → Chunk buffer pos size room alignment (some p, pos')
  recycled :
      {p pos' : ℕ}
      → small_static_size < pos + room
      → p % alignment ≡ 0
      → buffer ≤ p
      → p + size ≤ buffer + small_static_size
      → buffer + pos' ≡ p + size
      → Chunk buffer pos size room alignment (some p, pos')

mod_one : (n : ℕ) → n % 1 ≡ 0
mod_one n = omega arith

module _ (buffer pos size : ℕ) (inside : pos ≤ small_static_size) (mapped : buffer ≤ 2 ^ 63) where
  -- For a position inside the buffer, a buffer in the lower half of the address space and a size below
  -- 2^62: `static_alloc` returns NULL where the
  -- size is larger than the buffer; else a chunk inside the buffer, at the position, or at the start
  -- if the rest was too small. The new position is the end of the chunk.
  pub static_alloc-Chunk :
      size < 2 ^ 62 → Chunk buffer pos size size 1 (static_alloc buffer pos size)
  unfolding static_alloc static_reserve
  static_alloc-Chunk small =
      let sum : add64 pos size ≡ pos + size = omega arith in
      elim (Bool-cases (ltb small_static_size (pos + size))) [
        | inl over ↦ elim (Bool-cases (ltb small_static_size size)) [
          | inl huge ↦ rw (sum, over, huge) (too_large (ground arith))
          | inr fits ↦
              rw (sum, over, fits)
                (recycled (ground arith) (mod_one buffer) (omega arith) (ground arith)
                  (omega arith))
        ]
        | inr enough ↦
            rw (sum, enough)
              (next (mod_one (buffer + pos)) (omega arith) (ground arith) (ground arith))
      ]

  -- For an alignment of 2^k below 2^62, too: `static_aligned_alloc` returns NULL where the size with
  -- the largest padding is larger than the buffer; else a chunk at a multiple of 2^k inside the
  -- buffer, at the position or behind it, or behind the start if the rest was too small. The new
  -- position is the end of the chunk.
  pub static_aligned_alloc-Chunk :
      (k : ℕ)
      → k < 62
      → size < 2 ^ 62
      → Chunk buffer pos size
          (size + 2 ^ k - 1)
          (2 ^ k)
          (static_aligned_alloc buffer pos size (2 ^ k))
  unfolding static_aligned_alloc static_aligned_reserve static_reserve
  static_aligned_alloc-Chunk k k_small small =
      let one = pow_pos k in
      let bound = two_pow_mono {a = k} {b = 62} (omega arith) in
      let room : ℕ = size + 2 ^ k - 1 in
      let request : sub64 (add64 size (2 ^ k)) 1 ≡ room = omega arith in
      let sum : add64 pos room ≡ pos + room = omega arith in
      elim (Bool-cases (ltb small_static_size (pos + room))) [
        | inl over ↦ elim (Bool-cases (ltb small_static_size room)) [
          | inl huge ↦ rw (request, sum, over, huge) (too_large (ground arith))
          | inr fits ↦
              let (lower, upper, aligned) =
                small_align_bounds k buffer (omega arith) (omega arith) in
              let holds : room ≤ small_static_size = ground arith in
              rw (request, sum, over, fits)
                (recycled (ground arith) aligned lower (omega arith) (omega arith))
        ]
        | inr enough ↦
            let holds : pos + room ≤ small_static_size = ground arith in
            let (lower, upper, aligned) =
              small_align_bounds k (buffer + pos) (omega arith) (omega arith) in
            rw (request, sum, enough) (next aligned lower (omega arith) (omega arith))
      ]

-- For a position inside the buffer and a word `size`, where the two come to 2^64 or more:
-- `static_reserve` returns a pointer, though the size is larger than the buffer.
pub static_reserve_wraps :
    (buffer pos size : ℕ)
    → pos ≤ small_static_size
    → size < 2 ^ 64
    → 2 ^ 64 ≤ pos + size
    → (static_reserve buffer pos size ≡ (some (buffer + pos), pos)) × (small_static_size < size)
unfolding static_reserve
static_reserve_wraps buffer pos size inside word wraps =
    let fits : ltb small_static_size (add64 pos size) ≡ false = ground arith in
    (rw fits refl, omega arith)
