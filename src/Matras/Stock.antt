-- ===== src/Matras/Stock.antt =====
-- Who owns an extent: the outside, the reserve, or a place of the tree.
use mathlib.Core.Path.{ap, subst}
use small.Base.{
  ℕ, ◌≡◌, refl, sym, ◌∙◌, ◌≢◌, inl, inr, Bool, true, false, Option, none, some, List, [], ◌∷◌,
  arith, ◌==◌, Bool-cases, Absent,
}
use small.Base.Update.{update_self, update, update_other}
use small.Matras.{matras_allocator_free, Extents, Allocator, take_reserved, matras_allocator_alloc}

-- Where an extent stands: nowhere, at the root, or below it at a path.
pub data Place : Type 0 where
  spare : Place
  top : Place
  mid : (n1 : ℕ) → Place
  leaf : (n1 n2 : ℕ) → Place

-- The functions of the user keep apart the extents that they gave out.
pub record Keeper (E : Extents) : Type 0 where
  pub owned : E.State → ℕ → Bool
  pub alloc_new :
      (s s' : E.State) (e : ℕ)
      → E.alloc_func s ≡ (some e, s')
      → (owned s e ≡ false) × (owned s' e ≡ true)
  pub alloc_keeps :
      (s s' : E.State) (o : Option ℕ)
      → E.alloc_func s ≡ (o, s')
      → (e : ℕ) → owned s e ≡ true
      → owned s' e ≡ true
  pub free_keeps :
      (s : E.State) (x e : ℕ) → e ≢ x → owned s e ≡ true → owned (E.free_func s x) e ≡ true

abbrev pub IsReserve : (ℕ → Bool) → (ℕ → Place) → List ℕ → Type 0
IsReserve owned place [] = Unit
IsReserve owned place (x ∷ xs) =
    (owned x ≡ true) × (place x ≡ spare) × Absent x xs × IsReserve owned place xs

-- Every extent of the tree was given out, and so was the reserve, whose extents differ and have no
-- place.
pub record IsStocked {E : Extents} (K : Keeper E) (a : Allocator E) (place : ℕ → Place)
    : Type 0 where
  pub placed : (e : ℕ) → place e ≢ spare → K.owned a.external e ≡ true
  pub reserve : IsReserve (K.owned a.external) place a.reserved_extents

-- The outcomes of `matras_allocator_alloc`: NULL, where nothing is reserved and the user's function
-- refuses; or an extent that had no place, and can be put at any.
pub data Taken {E : Extents} (K : Keeper E) (a : Allocator E) (place : ℕ → Place)
    : Option ℕ × Allocator E → Type 0 where
  refused :
      {s : E.State}
      → (E.alloc_func a.external).0 ≡ none
      → IsStocked K (record a { external = s }) place
      → Taken K a place (none, record a { external = s })
  taken :
      {a' : Allocator E} {e : ℕ}
      → place e ≡ spare
      → ((p : Place) → IsStocked K a' (update place e p))
      → Taken K a place (some e, a')

spare_unless : (p : Place) → ¬ (p ≢ spare) → p ≡ spare
spare_unless spare h = refl
spare_unless top h = absurd (h (λ e. absurd (ground arith)))
spare_unless (mid n1) h = absurd (h (λ e. absurd (ground arith)))
spare_unless (leaf n1 n2) h = absurd (h (λ e. absurd (ground arith)))

-- An extent that was not given out has no place.
not_placed :
    (owned : ℕ → Bool) (place : ℕ → Place) (x : ℕ)
    → owned x ≡ false
    → ((e : ℕ) → place e ≢ spare → owned e ≡ true)
    → place x ≡ spare
not_placed owned place x out h =
    spare_unless (place x) (λ differs. let is_in = h x differs in absurd (ground arith))

module _ {E : Extents} (K : Keeper E) where
  IsReserve-place :
      (owned : ℕ → Bool) (place : ℕ → Place) (x : ℕ) (p : Place) (xs : List ℕ)
      → Absent x xs
      → IsReserve owned place xs
      → IsReserve owned (update place x p) xs
  IsReserve-place owned place x p [] h r = r
  IsReserve-place owned place x p (y ∷ ys) h r =
      (r.0, update_other place x y p h.0 ∙ r.1, r.2, IsReserve-place owned place x p ys h.1 r.3)

  IsReserve-owned :
      (owned owned' : ℕ → Bool) (place : ℕ → Place) (xs : List ℕ)
      → ((e : ℕ) → owned e ≡ true → owned' e ≡ true)
      → IsReserve owned place xs
      → IsReserve owned' place xs
  IsReserve-owned owned owned' place [] h r = r
  IsReserve-owned owned owned' place (y ∷ ys) h r =
      (h y r.0, r.1, r.2, IsReserve-owned owned owned' place ys h r.3)

  placed_update :
      (owned : ℕ → Bool) (place : ℕ → Place) (x : ℕ) (p : Place)
      → owned x ≡ true
      → ((e : ℕ) → place e ≢ spare → owned e ≡ true)
      → (e : ℕ) → update place x p e ≢ spare
      → owned e ≡ true
  placed_update owned place x p own h e differs = elim (Bool-cases (x == e)) [
    | inl same ↦ (let at : x ≡ e = ground arith in subst (λ (t : ℕ). owned t ≡ true) at own)
    | inr other ↦ h e (λ q. differs (update_other place x e p (λ at. absurd (ground arith)) ∙ q))
  ]

  external_Taken :
      (a : Allocator E) (place : ℕ → Place)
      → IsStocked K a place
      → a.reserved_extents ≡ []
      → (r : Option ℕ × E.State) → E.alloc_func a.external ≡ r
      → Taken K a place (r.0, record a { external = r.1 })
  external_Taken a place v none_left (none, s) e =
      refused (ap (λ (t : Option ℕ × E.State). t.0) e) (record {
        placed = λ x h. K.alloc_keeps a.external s none e x (v.placed x h);
        reserve =
            IsReserve-owned (K.owned a.external) (K.owned s) place a.reserved_extents
              (K.alloc_keeps a.external s none e) v.reserve;
      })
  external_Taken a place v none_left (some x, s) e =
      let fresh = K.alloc_new a.external s x e in
      taken (not_placed (K.owned a.external) place x fresh.0 v.placed) λ p. record {
        placed =
            placed_update (K.owned s) place x p fresh.1
              (λ y h. K.alloc_keeps a.external s (some x) e y (v.placed y h));
        reserve =
            subst (λ (l : List ℕ). IsReserve (K.owned s) (update place x p) l) (sym none_left) tt;
      }

  take_reserved-Taken :
      (a : Allocator E) (place : ℕ → Place) (xs : List ℕ)
      → IsStocked K a place
      → a.reserved_extents ≡ xs
      → Taken K a place (take_reserved a xs)
  take_reserved-Taken a place [] v e = external_Taken a place v e (E.alloc_func a.external) refl
  take_reserved-Taken a place (x ∷ xs) v e =
      let r = subst (λ (l : List ℕ). IsReserve (K.owned a.external) place l) e v.reserve in
      taken r.1 λ p. record {
        placed = placed_update (K.owned a.external) place x p r.0 v.placed;
        reserve = IsReserve-place (K.owned a.external) place x p xs r.2 r.3;
      }

  pub matras_allocator_alloc-Taken :
      (a : Allocator E) (place : ℕ → Place)
      → IsStocked K a place
      → Taken K a place (matras_allocator_alloc a)
  unfolding matras_allocator_alloc
  matras_allocator_alloc-Taken a place v = take_reserved-Taken a place a.reserved_extents v refl

  IsReserve-freed :
      (s : E.State) (place : ℕ → Place) (x : ℕ) (xs : List ℕ)
      → place x ≢ spare
      → IsReserve (K.owned s) place xs
      → IsReserve (K.owned (E.free_func s x)) (update place x spare) xs
  IsReserve-freed s place x [] h r = r
  IsReserve-freed s place x (y ∷ ys) h r =
      let other : x ≢ y = λ e. h (ap place e ∙ r.1) in
      (
        K.free_keeps s x y (λ e. other (sym e)) r.0,
        update_other place x y spare other ∙ r.1,
        r.2,
        IsReserve-freed s place x ys h r.3,
      )

  -- An extent that is given back has no place.
  pub IsStocked-freed :
      (a : Allocator E) (place : ℕ → Place) (x : ℕ)
      → place x ≢ spare
      → IsStocked K a place
      → IsStocked K (matras_allocator_free a x) (update place x spare)
  unfolding matras_allocator_free
  IsStocked-freed a place x h v = record {
    placed = λ e differs. elim (Bool-cases (x == e)) [
      | inl same ↦
          (let at : x ≡ e = ground arith in
            absurd (
              differs
                (subst (λ (t : ℕ). update place x spare t ≡ spare) at (update_self place x spare))))
      | inr unlike ↦
          (let other : x ≢ e = λ at. absurd (ground arith) in
            K.free_keeps a.external x e (λ at. other (sym at))
              (v.placed e (λ q. differs (update_other place x e spare other ∙ q))))
    ];
    reserve = IsReserve-freed a.external place x a.reserved_extents h v.reserve;
  }
