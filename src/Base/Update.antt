-- ===== src/Base/Update.antt =====
-- Functions that are changed at one number, for memory and arrays.
use small.Base.{ℕ, ◌≡◌, refl, ◌≢◌, inl, inr, true, arith, ◌==◌, if◌then◌else◌, Bool-cases}

-- A function that differs at one number.
abbrev pub update {ℓ} : {A : Type ℓ} → (ℕ → A) → ℕ → A → ℕ → A
update f i v j = if i == j then v else f j

pub update_self {ℓ} : {A : Type ℓ} (f : ℕ → A) (i : ℕ) (v : A) → update f i v i ≡ v
update_self f i v = let e : (i == i) ≡ true = ground arith in rw e refl

pub update_other {ℓ} : {A : Type ℓ} (f : ℕ → A) (i j : ℕ) (v : A) → i ≢ j → update f i v j ≡ f j
update_other f i j v h = elim (Bool-cases (i == j)) [
  | inl same ↦ absurd (h (ground arith))
  | inr differs ↦ rw differs refl
]
