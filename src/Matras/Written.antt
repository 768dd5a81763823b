-- ===== src/Matras/Written.antt =====
-- What `matras_touch` promises: the block can be written without a change to any view.
use mathlib.Core.Path.{subst}
use native.Mathlib.Nat.{le-div_iff_mul-le, div-add-mod', mod-lt}
use small.Base.{
  ℕ, ◌+◌, ◌-◌, ◌*◌, ◌/◌, ◌^◌, ◌≤◌, ◌<◌, ◌≡◌, refl, sym, ap, ◌≢◌, inl, inr, true, false, not, Option,
  none, some, List, ◌∷◌, arith, ltb, ◌==◌, Bool-cases,
}
use small.Base.Bits.{pow_pos}
use small.Base.Words.{sub32, to_u32}
use small.Matras.{
  Extents, Allocator, View, Matras, Pointer, part3, matras_view_get_no_check, matras_get,
}
use small.Matras.Views.{
  needs_touch, matras_needs_touch, touch_no_check, matras_touch_no_check, matras_touch,
}
use small.Matras.Stock.{Place, Keeper}
use small.Matras.Lookup.{IsAt}
use small.Matras.Rows.{row_IsAt}
use small.Matras.Building.{IsValid}
use small.Matras.Sharing.{touching, IsBehind, Stage, Touched, touch_refused, touch_got}
use small.Matras.Touch.{level1-Touched}

-- A touch keeps what the blocks of the head hold, and, in every view that shares with the head only
-- what the previous view shares, the pointers of the blocks and what they hold.
pub record Preserved {E : Extents} (m m' : Matras E) (place place' : ℕ → Place) (prev id : ℕ)
    : Type 0 where
  pub heads :
      (i slot : ℕ)
      → i < m.head.block_count
      → let (e', k') = matras_get m' i in
        let (e, k) = matras_get m i in m'.cells e' slot ≡ m.cells e slot
  pub views :
      (w : View) (i : ℕ)
      → IsBehind m place prev id w.root
      → IsAt m m.cells place w.root i
      → (matras_view_get_no_check m' w i ≡ matras_view_get_no_check m w i)
        × IsAt m' m'.cells place' w.root i
  pub blocks :
      (w : View) (i slot : ℕ)
      → IsBehind m place prev id w.root
      → IsAt m m.cells place w.root i
      → let (e, k) = matras_view_get_no_check m w i in m'.cells e slot ≡ m.cells e slot

-- The outcomes of a touch.
pub data Written {E : Extents} (K : Keeper E) (m : Matras E) (place : ℕ → Place) (prev id : ℕ)
    : Option Pointer × Matras E → Type 0 where
  not_written :
      {m' : Matras E} {s : E.State} (place' : ℕ → Place)
      → (E.alloc_func s).0 ≡ none
      → IsValid K m' place'
      → m'.head.block_count ≡ m.head.block_count
      → Preserved m m' place place' prev id
      → Written K m place prev id (none, m')
  written :
      {m' : Matras E} {e k : ℕ} (place' : ℕ → Place)
      → IsValid K m' place'
      → m'.head.block_count ≡ m.head.block_count
      → Preserved m m' place place' prev id
      → matras_get m' id ≡ (e, k)
      → ((w : View)
          → IsBehind m place prev id w.root
          → IsAt m m.cells place w.root id
          → let (e', k') = matras_view_get_no_check m w id in e ≢ e')
      → Written K m place prev id (some (e, k), m')

module _ {E : Extents} (K : Keeper E) (m : Matras E) (place : ℕ → Place) (v : IsValid K m place)
    (prev id : ℕ) where
  Stage-Preserved :
      (a : Allocator E) (cells : ℕ → ℕ → ℕ) (root n k r : ℕ) (place' : ℕ → Place)
      → Stage K m place prev id a cells root place'
      → Preserved m (touching m a cells root n k r) place place' prev id
  unfolding matras_view_get_no_check matras_get
  Stage-Preserved a cells root n k r place' c = record {
    heads = λ i slot less. (c.heads i less).same_block slot;
    views = λ w i behind at.
        let q = c.views w.root i behind at in (ap (λ (e : ℕ). (e, part3 m i)) q.same_path, q.at);
    blocks = λ w i slot behind at. (c.views w.root i behind at).same_block slot;
  }

  Stage-IsValid :
      (a : Allocator E) (cells : ℕ → ℕ → ℕ) (root n k r : ℕ) (place' : ℕ → Place)
      → Stage K m place prev id a cells root place'
      → IsValid K (touching m a cells root n k r) place'
  Stage-IsValid a cells root n k r place' c = record {
    shaped = record {
      mask1_is = v.shaped.mask1_is;
      mask2_is = v.shaped.mask2_is;
      order = v.shaped.order;
      small = v.shaped.small;
    };
    stocked = c.stocked;
    blocks = λ i less. (c.heads i less).at;
  }

  Touched-Written :
      {r : Option Pointer × Matras E} → Touched K m place prev id r → Written K m place prev id r
  unfolding matras_view_get_no_check matras_get
  Touched-Written
        (touch_refused {a = a} {cells = cells} {root = root} {n = n} {k = k} {r = r} place' fails
          c) =
      not_written place' fails (Stage-IsValid a cells root n k r place' c) refl
        (Stage-Preserved a cells root n k r place' c)
  Touched-Written
        (touch_got {a = a} {cells = cells} {root = root} {n = n} {k = k} {r = r} place' c found
          apart) =
      written place' (Stage-IsValid a cells root n k r place' c) refl
        (Stage-Preserved a cells root n k r place' c) (ap (λ (e : ℕ). (e, part3 m id)) found)
        (λ w behind at. apart w.root behind at)

module _ {E : Extents} (K : Keeper E) (m : Matras E) (place : ℕ → Place) (v : IsValid K m place)
    (prev : View) (older : List View) (views : m.views ≡ prev ∷ older)
    (word : prev.block_count ≤ 2 ^ 32)
    (placed : (i : ℕ) → i < prev.block_count → IsAt m m.cells place prev.root i) (id : ℕ) where
  -- The last block of the previous view, which is in the row or behind it.
  same_row :
      1 ≤ prev.block_count
      → prev.block_count ≤ id
      → id / 2 ^ m.shift2 ≤ (prev.block_count - 1) / 2 ^ m.shift2
      → IsAt m m.cells place prev.root id
  same_row some_blocks past row =
      let t = 2 ^ m.shift2 in
      let last = prev.block_count - 1 in
      let row' : last / t ≤ id / t =
        (le-div_iff_mul-le (pow_pos m.shift2)).1 (omega (arith, div-add-mod' last t)) in
      let whole = div-add-mod' id t in
      let whole' = div-add-mod' last t in
      let same : id / t ≡ last / t = omega arith in
      let q = ap (λ (x : ℕ). x * t) same in
      let low = mod-lt id (pow_pos m.shift2) in
      let split : last + (id - last) ≡ id = omega arith in
      subst (λ (x : ℕ). IsAt m m.cells place prev.root x) split
        (row_IsAt m v.shaped last (id - last) (omega arith) m.cells prev.root place
          (placed last (omega arith)))

  -- A block that is to be touched is in a row of the previous view.
  needs_touch-IsAt : needs_touch m (prev ∷ older) id ≡ true → IsAt m m.cells place prev.root id
  needs_touch-IsAt needs = elim (Bool-cases (prev.block_count == 0)) [
    | inl empty ↦ (let no : false ≡ true = rw empty at needs in absurd (ground arith))
    | inr used ↦ elim (Bool-cases (ltb id prev.block_count)) [
      | inl inside ↦ placed id (ground arith)
      | inr past ↦
          (let some_blocks : 1 ≤ prev.block_count = ground arith in
            let last_is : to_u32 (sub32 (to_u32 prev.block_count) 1) ≡ prev.block_count - 1 =
              omega (arith, word) in
            let test : not (ltb ((prev.block_count - 1) / 2 ^ m.shift2) (id / 2 ^ m.shift2))
                ≡ true =
              rw (used, last_is) at needs in
            same_row some_blocks (ground arith) (ground arith))
    ]
  ]

  -- In a valid table, for a block of the head that needs a touch, where the blocks of the previous
  -- view, 2^32 at most, stand at their places, and for a user that does not give an extent out
  -- twice: matras_touch returns NULL, only where the user gives no extent; or the pointer at which
  -- matras_get finds the block after it, in an extent that no view behind the previous one shares:
  -- the previous view, and each that shares with the head, on the way to the block, only what that
  -- one shares. In both cases the table is valid, the blocks of the head hold what they held, and
  -- these views find theirs at the same pointers with the same content.
  pub matras_touch-Written :
      id < m.head.block_count
      → matras_needs_touch m id ≡ true
      → Written K m place prev.root id (matras_touch m id)
  unfolding matras_touch matras_touch_no_check matras_needs_touch
  matras_touch-Written below needs =
      let needs' : needs_touch m (prev ∷ older) id ≡ true =
        subst (λ (vs : List View). needs_touch m vs id ≡ true) views needs in
      rw needs (
        subst (λ (vs : List View). Written K m place prev.root id (touch_no_check m vs id))
          (sym views)
          (Touched-Written K m place v prev.root id (
            level1-Touched K m place prev.root id below (needs_touch-IsAt needs') v.stocked v.blocks
              prev refl)))
