-- ===== src/Mempool/Store.antt =====
-- A word that is written to an object changes nothing that lies apart from it.
use mathlib.Core.Path.{subst}
use small.Base.{ℕ, ◌+◌, ◌≤◌, ◌≡◌, sym, ◌⊎◌, inl, inr, true, Option, List, [], ◌∷◌, ◌++◌, arith}
use small.Lifo.Stack.{Chain}
use small.Mempool.{Mslab, mslab_sizeof, word_size, store_word, store_header}
use small.Mempool.Pool.{contains}

-- `size` bytes at `a` and `size'` bytes at `b` do not overlap.
abbrev pub IsApart : (a size b size' : ℕ) → Type 0
IsApart a size b size' = (a + size ≤ b) ⊎ (b + size' ≤ a)

module _ (torn links : ℕ → Option ℕ) (object : ℕ) (value : Option ℕ) where
  pub stored_own : store_word torn links object value object ≡ value
  stored_own = ground arith

  stored_apart :
      (x : ℕ)
      → IsApart x word_size object word_size
      → store_word torn links object value x ≡ links x
  stored_apart x (inl before) = ground arith
  stored_apart x (inr past) = ground arith

  -- A chain of words that lie apart is kept.
  pub Chain-store :
      (next : Option ℕ) (xs : List ℕ)
      → ((x : ℕ) → contains xs x ≡ true → IsApart x word_size object word_size)
      → Chain links next xs
      → Chain (store_word torn links object value) next xs
  Chain-store next [] apart c = c
  Chain-store next (x ∷ xs) apart c = (
    c.0,
    subst (λ (o : Option ℕ). Chain (store_word torn links object value) o xs)
        (sym (stored_apart x (apart x (ground arith))))
        (Chain-store (links x) xs (λ y is. apart y (ground arith)) c.1),
  )

pub header_apart :
    (torn mslabs : ℕ → Mslab) (object slab : ℕ)
    → IsApart slab mslab_sizeof object word_size
    → store_header torn mslabs object slab ≡ mslabs slab
header_apart torn mslabs object slab (inl before) = ground arith
header_apart torn mslabs object slab (inr past) = ground arith

pub contains-append : (x : ℕ) (xs ys : List ℕ) → contains xs x ≡ true → contains (xs ++ ys) x ≡ true
contains-append x [] ys is = absurd (ground (arith, is))
contains-append x (z ∷ zs) ys is = let rest = contains-append x zs ys in ground arith
