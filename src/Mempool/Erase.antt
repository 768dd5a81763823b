-- ===== src/Mempool/Erase.antt =====
-- Slabs that are taken out of a list.
use small.Base.{
  ℕ, ◌≡◌, refl, sym, ap, ◌∙◌, ◌≢◌, inl, inr, true, false, not, List, [], ◌∷◌, arith, ◌==◌,
  Bool-cases,
}
use small.SlabCache.{erase}
use small.Mempool.Tree.{eq_cases}
use small.Mempool.Pool.{contains, Once}

pub erase_other : (x y : ℕ) (xs : List ℕ) → x ≢ y → contains (erase x xs) y ≡ contains xs y
erase_other x y [] other = refl
erase_other x y (z ∷ zs) other =
    let later = erase_other x y zs other in
    elim (Bool-cases (x == z)) [
      | inl here ↦ (let e : (z == y) ≡ false = ground arith in rw (here, e) refl)
      | inr past ↦ rw (past, later) refl
    ]

pub erase_own : (x : ℕ) (xs : List ℕ) → Once xs → contains (erase x xs) x ≡ false
erase_own x [] once = refl
erase_own x (z ∷ zs) once =
    let later = erase_own x zs once.1 in
    elim (Bool-cases (x == z)) [
      | inl here ↦ (let at : z ≡ x = ground arith in rw here (sym (ap (contains zs) at) ∙ once.0))
      | inr past ↦ (let e : (z == x) ≡ false = ground arith in rw (past, e, later) refl)
    ]

pub erase-true :
    (x y : ℕ) (xs : List ℕ)
    → Once xs
    → contains (erase x xs) y ≡ true
    → (x ≢ y) × (contains xs y ≡ true)
erase-true x y xs once h = elim (eq_cases x y) [
  | inl same ↦
      absurd (ground (arith, sym (erase_own x xs once) ∙ ap (contains (erase x xs)) same ∙ h))
  | inr other ↦ (other, sym (erase_other x y xs other) ∙ h)
]

pub erase-false :
    (x y : ℕ) (xs : List ℕ) → Once xs → contains xs y ≡ false → contains (erase x xs) y ≡ false
erase-false x y xs once h = elim (Bool-cases (contains (erase x xs) y)) [
  | inl is ↦ absurd (ground (arith, sym h ∙ (erase-true x y xs once is).1))
  | inr not ↦ not
]

pub erase-Once : (x : ℕ) (xs : List ℕ) → Once xs → Once (erase x xs)
erase-Once x [] once = tt
erase-Once x (z ∷ zs) once = elim (Bool-cases (x == z)) [
  | inl here ↦ rw here once.1
  | inr past ↦ rw past (erase-false x z zs once.1 once.0, erase-Once x zs once.1)
]
