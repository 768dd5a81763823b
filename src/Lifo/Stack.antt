-- ===== src/Lifo/Stack.antt =====
-- The linked elements as a stack.
use mathlib.Core.Path.{subst}
use small.Base.{Absent, ℕ, ◌≡◌, refl, sym, Option, none, some, List, [], ◌∷◌, arith}
use small.Base.Update.{update, update_self, update_other}
use small.Lifo.{Lifo, lifo_push, lifo_pop, lifo_peek, lifo_is_empty, popped, is_null}

-- The links lead from `next` through the elements of the list, in this order, to NULL.
abbrev pub Chain : (ℕ → Option ℕ) → Option ℕ → List ℕ → Type 0
Chain links next [] = next ≡ none
Chain links next (x ∷ xs) = (next ≡ some x) × Chain links (links x) xs

abbrev pub top : List ℕ → Option ℕ
top [] = none
top (x ∷ xs) = some x

abbrev pub rest : List ℕ → List ℕ
rest [] = []
rest (x ∷ xs) = xs

-- The elements of the stack are `xs`, the first on top.
pub record IsStack (s : Lifo) (xs : List ℕ) : Type 0 where
  pub chain : Chain s.links s.next xs

-- A write to an element that is not in a chain keeps it.
pub Chain-update :
    (links : ℕ → Option ℕ) (a : ℕ) (v next : Option ℕ) (xs : List ℕ)
    → Absent a xs
    → Chain links next xs
    → Chain (update links a v) next xs
Chain-update links a v next [] h c = c
Chain-update links a v next (x ∷ xs) h c = (
  c.0,
  subst (λ (o : Option ℕ). Chain (update links a v) o xs) (sym (update_other links a x v h.0))
      (Chain-update links a v (links x) xs h.1 c.1),
)

same_elem : {x y : ℕ} → some x ≡ some y → x ≡ y
same_elem {x} {y} e = ground arith

-- `next` is what the head of `s` holds.
top_of :
    (s : Lifo) (next : Option ℕ)
    → s.next ≡ next
    → (xs : List ℕ) → Chain s.links next xs
    → ((popped s next).0 ≡ top xs)
      × IsStack (popped s next).1 (rest xs)
      × (next ≡ top xs)
      × (is_null next ≡ is_null (top xs))
top_of s none e [] c = (refl, record { chain = e }, refl, refl)
top_of s none e (x ∷ xs) c = (let h = c.0 in absurd (ground arith))
top_of s (some a) e [] c = absurd (ground arith)
top_of s (some a) e (x ∷ xs) c =
    let left = subst (λ (y : ℕ). Chain s.links (s.links y) xs) (sym (same_elem c.0)) c.1 in
    (c.0, record { chain = left }, c.0, refl)

module _ (s : Lifo) (xs : List ℕ) (v : IsStack s xs) where
  -- On a lifo whose links lead through the elements `xs`: pushing an element that is not among them
  -- makes it the first, and popping then returns it and leaves the elements `xs`.
  pub lifo_push-pop :
      (elem : ℕ)
      → Absent elem xs
      → IsStack (lifo_push s elem) (elem ∷ xs)
        × ((lifo_pop (lifo_push s elem)).0 ≡ some elem)
        × IsStack (lifo_pop (lifo_push s elem)).1 xs
  unfolding lifo_push lifo_pop
  lifo_push-pop elem h =
      let own = update_self s.links elem s.next in
      let chain =
        subst (λ (o : Option ℕ). Chain (update s.links elem s.next) o xs) (sym own)
          (Chain-update s.links elem s.next s.next xs h v.chain) in
      (record { chain = (refl, chain) }, refl, record { chain = chain })

  -- On a lifo whose links lead through the elements `xs`: `lifo_pop` and `lifo_peek` return the first
  -- of them, or NULL if there is none; `lifo_pop` leaves the others; and `lifo_is_empty` tells
  -- whether there is none.
  pub lifo_pop-top :
      ((lifo_pop s).0 ≡ top xs)
      × IsStack (lifo_pop s).1 (rest xs)
      × (lifo_peek s ≡ top xs)
      × (lifo_is_empty s ≡ is_null (top xs))
  unfolding lifo_pop lifo_peek lifo_is_empty
  lifo_pop-top = top_of s s.next refl xs v.chain
