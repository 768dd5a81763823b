-- ===== src/SmallClass/Create.antt =====
-- `small_class_create`: what the fields of a size class evaluator satisfy.
use small.Base.Bits.{pow_pos, two_pow_mono}
use small.Base.{ℕ, ◌+◌, ◌-◌, ◌^◌, ◌≤◌, ◌≡◌, refl, arith}
use small.SmallClass.{SmallClass, small_class_create}
use small.Base.Words.{sub32, shl32, ctz-two_pow}

-- An evaluator for a granularity of `2 ^ g` with `2 ^ e` steps to each doubling. The limits leave
-- room in 32 bits for sizes up to 2^30.
pub record IsValid (g e : ℕ) (sc : SmallClass) : Type 0 where
  pub g_small : g ≤ 30
  pub e_small : e ≤ 30
  pub granularity : sc.granularity ≡ 2 ^ g
  pub ignore_bits_count : sc.ignore_bits_count ≡ g
  pub effective_bits : sc.effective_bits ≡ e
  pub effective_size : sc.effective_size ≡ 2 ^ e
  pub effective_mask : sc.effective_mask ≡ 2 ^ e - 1
  pub size_shift : sc.size_shift ≤ 2 ^ 30
  pub size_shift_plus_1 : sc.size_shift_plus_1 ≡ sc.size_shift + 1

-- A granularity that is a power of two, and a lowest size that is not below it, give a valid
-- evaluator, shifted so that its lowest class has that size.
pub small_class_create-IsValid :
    (g e min_alloc : ℕ)
    → g ≤ 30
    → e ≤ 30
    → 2 ^ g ≤ min_alloc
    → min_alloc ≤ 2 ^ 30
    → let sc = small_class_create (2 ^ g) e min_alloc in
      IsValid g e sc × (sc.size_shift + 2 ^ g ≡ min_alloc)
unfolding small_class_create
small_class_create-IsValid g e min_alloc hg he lo hi =
    let top : 2 ^ e ≤ 2 ^ 30 = two_pow_mono he in
    let pos : 1 ≤ 2 ^ e = pow_pos e in
    let size : shl32 1 e ≡ 2 ^ e = omega arith in
    let shift : sub32 min_alloc (2 ^ g) ≡ min_alloc - 2 ^ g = omega arith in
    rw (size, shift, ctz-two_pow 32 g (omega arith))
      (
        record {
          g_small = hg;
          e_small = he;
          granularity = refl;
          ignore_bits_count = refl;
          effective_bits = refl;
          effective_size = refl;
          effective_mask = omega arith;
          size_shift = omega arith;
          size_shift_plus_1 = omega arith;
        },
        omega arith,
      )
