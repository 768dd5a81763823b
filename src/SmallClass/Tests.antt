-- ===== src/SmallClass/Tests.antt =====
-- Size classes at a granularity of 8 with 4 steps to each doubling.
use small.Base.{suc, ◌+◌, ◌-◌, ◌^◌, ◌≤◌, ◌<◌, ◌≡◌, refl, [], ◌∷◌, map, arith}
use small.Base.Words.{clz, ctz}
use small.SmallClass.{
  SmallClass, small_class_create, small_class_fls, significant, small_class_calc_offset_by_size,
  small_class_calc_size_by_offset, calc_offset_branchless,
}
use small.SmallClass.Create.{IsValid, small_class_create-IsValid}
use small.SmallClass.Blocks.{blocks}
use small.SmallClass.Offset.{small_class_fls_bounds}
use small.SmallClass.Classes.{offset-least, offset-size}
use small.SmallClass.Branchless.{calc_offset_branchless_lem}

-- The lowest class has 16 bytes.
abbrev eights : SmallClass
eights = record {
  granularity = 8;
  ignore_bits_count = 3;
  effective_bits = 2;
  effective_size = 4;
  effective_mask = 3;
  size_shift = 8;
  size_shift_plus_1 = 9;
}

eights-IsValid : IsValid 3 2 eights
eights-IsValid = record {
  g_small = omega arith;
  e_small = omega arith;
  granularity = refl;
  ignore_bits_count = refl;
  effective_bits = refl;
  effective_size = refl;
  effective_mask = refl;
  size_shift = omega arith;
  size_shift_plus_1 = refl;
}

small_class_runs :
    (small_class_create 8 2 16 ≡ eights)
    × (map (small_class_calc_offset_by_size eights) (1 ∷ 16 ∷ 17 ∷ 40 ∷ 41 ∷ 73 ∷ 100 ∷ [])
        ≡ 0 ∷ 0 ∷ 1 ∷ 3 ∷ 4 ∷ 8 ∷ 9 ∷ [])
    × (map (small_class_calc_size_by_offset eights) (0 ∷ 1 ∷ 3 ∷ 4 ∷ 8 ∷ 9 ∷ [])
        ≡ 16 ∷ 24 ∷ 40 ∷ 48 ∷ 88 ∷ 104 ∷ [])
unfolding small_class_create small_class_calc_offset_by_size small_class_calc_size_by_offset
    significant small_class_fls clz ctz
small_class_runs = (refl, refl, refl)

small_class_create-IsValid_example :
    let sc = small_class_create (2 ^ 3) 2 16 in IsValid 3 2 sc × (sc.size_shift + 2 ^ 3 ≡ 16)
small_class_create-IsValid_example =
    small_class_create-IsValid 3 2 16 (omega arith) (omega arith) (omega arith) (omega arith)

small_class_fls_bounds_example :
    (2 ^ small_class_fls 100 ≤ 100) × (100 < 2 ^ suc (small_class_fls 100))
small_class_fls_bounds_example = small_class_fls_bounds 100 (omega arith) (omega arith)

offset-least_example :
    let cls = small_class_calc_offset_by_size eights 100 in
    (100 ≤ small_class_calc_size_by_offset eights cls)
    × (0 < cls → small_class_calc_size_by_offset eights (cls - 1) < 100)
offset-least_example = offset-least eights-IsValid 100 (omega arith) (omega arith)

offset-size_example :
    small_class_calc_offset_by_size eights (small_class_calc_size_by_offset eights 9) ≡ 9
unfolding blocks
offset-size_example = offset-size eights-IsValid 9 (omega arith)

calc_offset_branchless_lem_example :
    calc_offset_branchless eights 100 ≡ small_class_calc_offset_by_size eights 100
calc_offset_branchless_lem_example = calc_offset_branchless_lem eights-IsValid 100 (omega arith)
