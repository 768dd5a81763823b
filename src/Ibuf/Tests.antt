-- ===== src/Ibuf/Tests.antt =====
-- An input buffer over a slab cache that has blocks of 16 and 32 bytes.
use small.Base.{
  ℕ, ◌+◌, ◌≤◌, ◌≡◌, refl, Option, none, some, [], ◌∷◌, arith, leb, if◌then◌else◌, length, take,
  drop, replicate,
}
use small.SlabSource.{Block, SlabSource}
use small.Ibuf.{
  Ibuf, ibuf_create, ibuf_alloc, ibuf_used, ibuf_reserve, ibuf_shrink, ibuf_truncate, ibuf_consume,
  contents,
}
use small.Ibuf.Contents.{
  IsValid, IsModest, Reserved, Allocated, ibuf_reserve-Reserved, ibuf_alloc-Allocated,
}
use small.Ibuf.Shape.{ibuf_cut, ibuf_shrink-contents}

-- The address of the next block; blocks beyond 32 bytes are refused.
abbrev get_block : ℕ → ℕ → Option Block × ℕ
get_block s size =
    if leb size 16
    then (some (record { address = s; bytes = replicate 16 0 }), s + 64)
    else if leb size 32
    then (some (record { address = s; bytes = replicate 32 0 }), s + 64)
    else (none, s)

get_block-capacity :
    (s size : ℕ) {b : Block} {s' : ℕ} → get_block s size ≡ (some b, s') → size ≤ length b.bytes
get_block-capacity s size e = ground arith

abbrev two_sizes : SlabSource
two_sizes = record {
  State = ℕ;
  slab_get = get_block;
  slab_put = λ s a. s;
  slab_real_size = λ s size. if leb size 16 then 16 else 32;
  slab_get-capacity = get_block-capacity;
}

-- Three bytes of input in the middle of a small block.
abbrev some_input : Ibuf two_sizes
some_input = record {
  slabc = 64;
  buf = some 0;
  memory = 1 ∷ 2 ∷ 3 ∷ 4 ∷ 5 ∷ replicate 11 0;
  rpos = 2;
  wpos = 5;
  start_capacity = 16;
}

some_input-IsValid : IsValid some_input
some_input-IsValid = record {
  order = omega arith;
  inside = omega arith;
  bare = λ q. absurd (ground (arith, q));
}

some_input-IsModest : (n : ℕ) → n ≤ 100 → IsModest some_input n
some_input-IsModest n h = omega arith

ibuf_runs :
    (contents some_input ≡ 3 ∷ 4 ∷ 5 ∷ [])
    × ((ibuf_alloc some_input 4).0 ≡ some 5)
    × ((ibuf_alloc some_input 12).0 ≡ some 3)
    × ((ibuf_alloc some_input 20).0 ≡ some 3)
    × ((ibuf_alloc some_input 30).0 ≡ none)
    × ((ibuf_alloc (ibuf_create two_sizes 0 16) 0).0 ≡ none)
    × ((ibuf_alloc (ibuf_create two_sizes 0 16) 5).0 ≡ some 0)
unfolding ibuf_alloc ibuf_create
ibuf_runs = (refl, refl, refl, refl, refl, refl, refl)

ibuf_reserve-Reserved_example : Reserved some_input 20 (ibuf_reserve some_input 20)
ibuf_reserve-Reserved_example =
    ibuf_reserve-Reserved some_input some_input-IsValid 20 (some_input-IsModest 20 (omega arith))

ibuf_alloc-Allocated_example : Allocated some_input 20 (ibuf_alloc some_input 20)
ibuf_alloc-Allocated_example =
    ibuf_alloc-Allocated some_input some_input-IsValid 20 (some_input-IsModest 20 (omega arith))

ibuf_cut_test :
    (contents (ibuf_truncate some_input 1) ≡ take 1 (contents some_input))
    × IsValid (ibuf_truncate some_input 1)
    × (contents (ibuf_consume some_input 1) ≡ drop 1 (contents some_input))
    × IsValid (ibuf_consume some_input 1)
unfolding ibuf_used
ibuf_cut_test = ibuf_cut some_input some_input-IsValid 1 (omega arith)

ibuf_shrink-contents_example :
    (contents (ibuf_shrink some_input) ≡ contents some_input) × IsValid (ibuf_shrink some_input)
ibuf_shrink-contents_example = ibuf_shrink-contents some_input some_input-IsValid
