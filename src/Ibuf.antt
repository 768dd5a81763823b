-- ===== src/Ibuf.antt =====
-- include/small/ibuf.h and small/ibuf.c: a buffer that is filled at one end and read at the other.
-- `rpos`, `wpos` and `end` are kept as offsets from `buf`, and the memory from `buf` to `end` as a
-- list of bytes. Where `buf` is NULL, all of them are, there is no memory, and the offsets are 0. The
-- poisoning of memory does nothing outside of ASAN builds, and is left out.
pub mod Grow
pub mod Shape
pub mod Contents
mod Tests
use small.Base.{
  ℕ, zero, suc, ◌+◌, ◌-◌, ◌*◌, ◌/◌, ◌%◌, ◌^◌, ◌≤◌, ◌<◌, min, max, bit_and, bit_or, bit_xor, ◌≡◌,
  refl, sym, ap, ◌∙◌, ◌≢◌, ◌↔◌, ◌⊎◌, inl, inr, Bool, true, false, ◌&&◌, ◌||◌, not, Option, none,
  some, List, [], ◌∷◌, ◌++◌, map, arith, ltb, leb, ◌==◌, if◌then◌else◌, Bool-cases, Option-cases,
  length, get_elem?, set, length-append, take, drop,
}
use small.Base.Words.{add64, mul64}
use small.Base.Slices.{slice, overwrite}
use small.SlabSource.{Block, SlabSource}

pub record Ibuf (S : SlabSource) : Type 0 where
  pub slabc : S.State
  pub buf : Option ℕ
  pub memory : List ℕ
  pub rpos : ℕ
  pub wpos : ℕ
  pub start_capacity : ℕ

-- `while (new_capacity < used + size) new_capacity *= 2`. From a capacity that is not 0, 63
-- doublings reach 2^63.
unfoldable pub grow : ℕ → (needed new_capacity : ℕ) → ℕ
grow zero needed new_capacity = new_capacity
grow (suc fuel) needed new_capacity =
    let more = grow fuel needed (mul64 new_capacity 2) in
    if ltb new_capacity needed then more else new_capacity

module _ (S : SlabSource) where
  unfoldable pub ibuf_create : S.State → ℕ → Ibuf S
  ibuf_create slabc start_capacity = record {
    slabc = slabc;
    buf = none;
    memory = [];
    rpos = 0;
    wpos = 0;
    start_capacity = start_capacity;
  }

  -- Gives the memory of a buffer back, if it has any.
  abbrev pub put_buf : S.State → Option ℕ → S.State
  put_buf s none = s
  put_buf s (some address) = S.slab_put s address

-- The pointer at an offset: NULL, where the buffer has no memory.
abbrev pub pointer : Option ℕ → ℕ → Option ℕ
pointer none offset = none
pointer (some address) offset = some offset

module _ {S : SlabSource} where
  unfoldable pub ibuf_used : Ibuf S → ℕ
  ibuf_used b = b.wpos - b.rpos

  unfoldable pub ibuf_unused : Ibuf S → ℕ
  ibuf_unused b = length b.memory - b.wpos

  unfoldable pub ibuf_capacity : Ibuf S → ℕ
  ibuf_capacity b = length b.memory

  unfoldable pub ibuf_pos : Ibuf S → ℕ
  ibuf_pos b = b.rpos

  -- The slab cache after `ibuf_destroy`.
  unfoldable pub ibuf_destroy : Ibuf S → S.State
  ibuf_destroy b = put_buf S b.slabc b.buf

  unfoldable pub ibuf_reinit : Ibuf S → Ibuf S
  unfolding ibuf_destroy ibuf_create
  ibuf_reinit b = ibuf_create S (ibuf_destroy b) b.start_capacity

  unfoldable pub ibuf_reset : Ibuf S → Ibuf S
  ibuf_reset b = record b { rpos = 0; wpos = 0 }

  -- The input moves to the front of the block that `slab_get` returned; the old one is given back.
  abbrev pub relocate : Ibuf S → ℕ → Block → S.State → Ibuf S
  relocate b used new s = record b {
    slabc = put_buf S s b.buf;
    buf = some new.address;
    memory = overwrite 0 (slice b.rpos used b.memory) new.bytes;
    rpos = 0;
    wpos = used;
  }

  abbrev pub reserved : Ibuf S → ℕ → Option Block × S.State → Option ℕ × Ibuf S
  reserved b used (none, s) = (none, record b { slabc = s })
  reserved b used (some new, s) = (some used, relocate b used new s)

  -- The result is the offset of the pointer that is returned, `none` for NULL.
  unfoldable pub ibuf_reserve_slow : Ibuf S → ℕ → Option ℕ × Ibuf S
  unfolding ibuf_used ibuf_capacity grow
  ibuf_reserve_slow b size =
      let used = ibuf_used b in
      let capacity = ibuf_capacity b in
      let doubled = mul64 capacity 2 in
      let first = if ltb doubled b.start_capacity then b.start_capacity else doubled in
      let new_capacity = grow 64 (add64 used size) first in
      if leb (add64 size used) capacity
      then (
        pointer b.buf used,
        record b {
          memory = overwrite 0 (slice b.rpos used b.memory) b.memory;
          rpos = 0;
          wpos = used;
        },
      )
      else reserved b used (S.slab_get b.slabc new_capacity)

  unfoldable pub ibuf_reserve : Ibuf S → ℕ → Option ℕ × Ibuf S
  unfolding ibuf_reserve_slow
  ibuf_reserve b size =
      if leb (b.wpos + size) (length b.memory)
      then (pointer b.buf b.wpos, b)
      else ibuf_reserve_slow b size

  abbrev pub advance : ℕ → Option ℕ × Ibuf S → Option ℕ × Ibuf S
  advance size (none, b) = (none, b)
  advance size (some p, b) = (some p, record b { wpos = b.wpos + size })

  unfoldable pub ibuf_alloc : Ibuf S → ℕ → Option ℕ × Ibuf S
  unfolding ibuf_reserve_slow
  ibuf_alloc b size =
      if leb (b.wpos + size) (length b.memory)
      then (pointer b.buf b.wpos, record b { wpos = b.wpos + size })
      else advance size (ibuf_reserve_slow b size)

  abbrev pub shrunk : Ibuf S → ℕ → Option Block × S.State → Ibuf S
  shrunk b used (none, s) = record b { slabc = s }
  shrunk b used (some new, s) = relocate b used new s

  unfoldable pub ibuf_shrink : Ibuf S → Ibuf S
  unfolding ibuf_used ibuf_capacity
  ibuf_shrink b =
      let used = ibuf_used b in
      let capacity = ibuf_capacity b in
      let new_capacity = if ltb b.start_capacity used then used else b.start_capacity in
      if used == 0
      then record b { slabc = put_buf S b.slabc b.buf; buf = none; memory = []; rpos = 0; wpos = 0 }
      else if S.slab_real_size b.slabc capacity == S.slab_real_size b.slabc new_capacity
      then b
      else shrunk b used (S.slab_get b.slabc new_capacity)

  unfoldable pub ibuf_discard : Ibuf S → ℕ → Ibuf S
  ibuf_discard b size = record b { wpos = b.wpos - size }

  unfoldable pub ibuf_truncate : Ibuf S → ℕ → Ibuf S
  unfolding ibuf_discard ibuf_used
  ibuf_truncate b used = ibuf_discard b (ibuf_used b - used)

  unfoldable pub ibuf_consume : Ibuf S → ℕ → Ibuf S
  ibuf_consume b size = record b { rpos = b.rpos + size }

  -- `ptr` is an offset too.
  unfoldable pub ibuf_consume_before : Ibuf S → ℕ → Ibuf S
  unfolding ibuf_consume
  ibuf_consume_before b ptr = ibuf_consume b (ptr - b.rpos)

  -- The caller stores `bytes` at a pointer that it was given.
  abbrev pub store : Ibuf S → ℕ → List ℕ → Ibuf S
  store b p bytes = record b { memory = overwrite p bytes b.memory }

  -- The input that is not processed yet.
  abbrev pub contents : Ibuf S → List ℕ
  contents b = slice b.rpos (b.wpos - b.rpos) b.memory
