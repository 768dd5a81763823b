-- ===== src/Matras/Tests.antt =====
-- A table of blocks of 8 bytes over extents of 16 bytes, of which five can be had.
use mathlib.Core.Option.{some-injective}
use small.Base.{
  ◌+◌, ◌==◌, true, zero, ◌≢◌, ◌∷◌, ℕ, suc, ◌-◌, ◌*◌, ◌^◌, ◌<◌, min, ◌≡◌, refl, sym, ap, ◌∙◌, ◌⊎◌,
  inl, inr, Bool, ◌&&◌, Option, none, some, [], arith, ltb, leb, if◌then◌else◌, Bool-cases,
}
use small.Base.Update.{update, update_other}
use small.Base.Words.{clz}
use small.Matras.{
  matras_log2, Extents, Allocator, View, Matras, Pointer, matras_allocator_create, matras_create,
  matras_alloc, matras_alloc_range, matras_view_get_no_check,
}
use small.Matras.Views.{matras_touch, matras_needs_touch, free_rows}
use small.Matras.Destroy.{matras_destroy}
use small.Matras.Shape.{IsShaped}
use small.Matras.Written.{Written, matras_touch-Written}
use small.Matras.Stock.{Place, spare, top, mid, leaf, Keeper, IsStocked}
use small.Matras.Lookup.{IsUnshared, IsAt, matras_view_get-injective}
use small.Matras.Building.{IsValid}
use small.Matras.Alloc.{Allocated, matras_alloc-Allocated, matras_alloc_range-Allocated}
use small.Matras.Create.{HasSlots, matras_create-IsValid}
use small.Matras.Loops.{Ended, free_rows-endless}
use small.Matras.Destroyed.{matras_destroy-Ended}

-- The extents are given out in order, and none is given out again.
abbrev five : Extents
five = record {
  State = ℕ;
  extent_size = 16;
  alloc_func = λ s. if ltb s 5 then (some (suc s), suc s) else (none, s);
  free_func = λ s x. s;
}

abbrev given_out : ℕ → ℕ → Bool
given_out s e = leb 1 e && leb e s

five_state :
    (s : ℕ)
    → (((five.alloc_func s).1 ≡ suc s) × ((five.alloc_func s).0 ≡ some (suc s)))
      ⊎ (((five.alloc_func s).1 ≡ s) × ((five.alloc_func s).0 ≡ none))
five_state s = elim (Bool-cases (ltb s 5)) [
  | inl more ↦ inl (rw more (refl, refl))
  | inr no_more ↦ inr (rw no_more (refl, refl))
]

keeper : Keeper five
keeper = record {
  owned = given_out;
  alloc_new = λ s s' e h. elim (five_state s) [
    | inl c ↦
        (let got = sym c.1 ∙ ap (λ (t : Option ℕ × ℕ). t.0) h in
          let at : suc s ≡ e = some-injective (suc s) e got in
          let next : suc s ≡ s' = sym c.0 ∙ ap (λ (t : Option ℕ × ℕ). t.1) h in
          (ground arith, ground arith))
    | inr c ↦ absurd (ground (arith, sym c.1 ∙ ap (λ (t : Option ℕ × ℕ). t.0) h))
  ];
  alloc_keeps = λ s s' o h e own. elim (five_state s) [
    | inl c ↦ (let next : suc s ≡ s' = sym c.0 ∙ ap (λ (t : Option ℕ × ℕ). t.1) h in ground arith)
    | inr c ↦ (let next : s ≡ s' = sym c.0 ∙ ap (λ (t : Option ℕ × ℕ). t.1) h in ground arith)
  ];
  free_keeps = λ s x e other own. own;
}

abbrev allocator : Allocator five
allocator = matras_allocator_create five 0

abbrev table : Matras five
table = matras_create five 8 allocator (λ x slot. 0)

allocator-IsStocked : IsStocked keeper allocator (λ x. spare)
unfolding matras_allocator_create
allocator-IsStocked = record { placed = λ e differs. absurd (differs refl); reserve = tt }

matras_create-IsValid_example :
    IsValid keeper (matras_create five (2 ^ 3) allocator (λ x slot. 0)) (λ x. spare)
    × ((matras_create five (2 ^ 3) allocator (λ x slot. 0)).capacity ≡ 2 ^ min 32 (3 * 4 - 3 - 6))
    × ((i : ℕ)
        → i < (matras_create five (2 ^ 3) allocator (λ x slot. 0)).capacity
        → HasSlots (matras_create five (2 ^ 3) allocator (λ x slot. 0)) i)
matras_create-IsValid_example =
    matras_create-IsValid five 4 3 refl (omega arith) (omega arith) (omega arith) (omega arith)
      allocator (λ x slot. 0) keeper allocator-IsStocked

table-IsValid : IsValid keeper table (λ x. spare)
table-IsValid = matras_create-IsValid_example.0

matras_alloc-Allocated_example : Allocated keeper table (λ x. spare) 1 (matras_alloc table)
unfolding matras_create matras_log2 clz
matras_alloc-Allocated_example =
    matras_alloc-Allocated keeper table (λ x. spare) table-IsValid (omega arith)

matras_alloc_range-Allocated_example :
    Allocated keeper table (λ x. spare) 2 (matras_alloc_range table 2)
unfolding matras_create matras_log2 clz
matras_alloc_range-Allocated_example =
    matras_alloc_range-Allocated keeper table (λ x. spare) table-IsValid 2 (omega arith) refl refl

abbrev third : Option (ℕ × Pointer) × Matras five
third = matras_alloc (matras_alloc (matras_alloc table).1).1

-- Three extents hold two blocks, and the third block needs another.
third_is : (third.0 ≡ some (2, (4, 0))) × (third.1.extent_count ≡ 4)
unfolding matras_alloc matras_create matras_allocator_create matras_log2 clz
third_is = (refl, refl)

-- A table with one block, in the extents 1, 2 and 3.
abbrev one_cells : ℕ → ℕ → ℕ
one_cells = update (update (λ x slot. 0) 1 (λ slot. 2)) 2 (λ slot. 3)

abbrev one_place : ℕ → Place
one_place = update (update (update (λ x. spare) 1 top) 2 (mid 0)) 3 (leaf 0 0)

abbrev one_view : View
one_view = record { root = 1; block_count = 1 }

abbrev one : Matras five
one = record table { cells = one_cells; head = one_view }

one-IsShaped : IsShaped one
one-IsShaped =
    let v = table-IsValid.shaped in
    record { mask1_is = v.mask1_is; mask2_is = v.mask2_is; order = v.order; small = v.small }

-- A table with three blocks, of which the first two are in the extent 3 and the last is in 4.
abbrev three_cells : ℕ → ℕ → ℕ
three_cells x slot = if x == 1 then 2 else slot + 3

abbrev three_view : View
three_view = record { root = 1; block_count = 3 }

abbrev three : Matras five
three = record table { cells = three_cells; head = three_view }

three-IsShaped : IsShaped three
three-IsShaped =
    let v = table-IsValid.shaped in
    record { mask1_is = v.mask1_is; mask2_is = v.mask2_is; order = v.order; small = v.small }

three-IsUnshared : IsUnshared three three_view
unfolding matras_create matras_log2 clz
three-IsUnshared = record {
  unshared = λ n1 n2 k1 k2 slot slot' less less' e. (omega arith, omega arith);
}

matras_view_get-injective_example :
    matras_view_get_no_check three three_view 0 ≢ matras_view_get_no_check three three_view 2
matras_view_get-injective_example =
    matras_view_get-injective three three-IsShaped three_view 0 2 three-IsUnshared (omega arith)
      (omega arith) (omega arith)

matras_destroy-Ended_example : Ended (record one { views = [] }) (matras_destroy one)
unfolding matras_create matras_log2 clz
matras_destroy-Ended_example = matras_destroy-Ended one (omega arith) tt

-- A table of as many blocks as there are numbers.
abbrev all : Matras five
all = record table { head = record { root = 1; block_count = 2 ^ 32 } }

free_rows-endless_example : free_rows 7 0 0 all ≡ none
unfolding matras_create matras_log2 clz
free_rows-endless_example = free_rows-endless 7 0 0 (2 ^ 30) all refl (omega arith) (omega arith)

-- The table with one block, and a view of it.
abbrev shared : Matras five
shared = record one { allocator = record allocator { external = 3 }; views = one_view ∷ [] }

one-blocks : (i : ℕ) → i < 1 → IsAt shared shared.cells one_place 1 i
unfolding matras_create matras_log2 clz
one-blocks zero less = (refl, refl, refl)
one-blocks (suc i) less = absurd (omega arith)

one-placed : (e : ℕ) → one_place e ≢ spare → given_out 3 e ≡ true
one-placed e differs = elim (Bool-cases (given_out 3 e)) [
  | inl own ↦ own
  | inr out ↦ absurd (
      differs (
        update_other (update (update (λ x. spare) 1 top) 2 (mid 0)) 3 e (leaf 0 0)
          (λ q. absurd (ground arith))
        ∙ update_other (update (λ x. spare) 1 top) 2 e (mid 0) (λ q. absurd (ground arith))
        ∙ update_other (λ x. spare) 1 e top (λ q. absurd (ground arith))))
]

shared-IsValid : IsValid keeper shared one_place
unfolding keeper matras_allocator_create
shared-IsValid = record {
  shaped =
      let v = one-IsShaped in
      record { mask1_is = v.mask1_is; mask2_is = v.mask2_is; order = v.order; small = v.small };
  stocked = record { placed = one-placed; reserve = tt };
  blocks = one-blocks;
}

matras_touch-Written_example : Written keeper shared one_place 1 0 (matras_touch shared 0)
unfolding matras_needs_touch matras_create matras_log2 clz
matras_touch-Written_example =
    matras_touch-Written keeper shared one_place shared-IsValid one_view [] refl (omega arith)
      one-blocks 0 (omega arith) refl

-- Two extents are left, and the touch needs three.
touch_refused_test : (matras_touch shared 0).0 ≡ none
unfolding matras_touch matras_needs_touch matras_create matras_log2 clz matras_allocator_create
touch_refused_test = refl
