-- ===== src/Base/Slices.antt =====
-- Parts of lists, for memory that is read and written in ranges.
use small.Base.{
  ℕ, zero, suc, ◌+◌, ◌-◌, ◌≤◌, ◌≡◌, refl, sym, ap, List, [], ◌∷◌, ◌++◌, arith, length,
  length-append, take, drop, length-take, length-drop,
}

module _ {ℓ} {A : Type ℓ} where
  -- The `n` elements from index `i` on.
  abbrev pub slice : ℕ → ℕ → List A → List A
  slice i n xs = take n (drop i xs)

  -- Writes `d` over the elements from index `i` on.
  abbrev pub overwrite : ℕ → List A → List A → List A
  overwrite i d xs = take i xs ++ (d ++ drop (i + length d) xs)

  pub length-slice : (i n : ℕ) (xs : List A) → i + n ≤ length xs → length (slice i n xs) ≡ n
  length-slice i n xs h = omega (arith, length-take n (drop i xs), length-drop i xs)

  pub take-append : (xs ys : List A) (n : ℕ) → length xs ≡ n → take n (xs ++ ys) ≡ xs
  take-append [] ys zero e = refl
  take-append [] ys (suc n) e = absurd (omega arith)
  take-append (x ∷ xs) ys zero e = absurd (omega arith)
  take-append (x ∷ xs) ys (suc n) e = ap (λ t. x ∷ t) (take-append xs ys n (omega arith))

  pub take-overwrite :
      (j : ℕ) (d xs : List A)
      → j + length d ≤ length xs
      → take (j + length d) (overwrite j d xs) ≡ take j xs ++ d
  take-overwrite zero d xs h =
      let e : 0 + length d ≡ length d = omega arith in
      rw e (take-append d (drop (length d) xs) (length d) refl)
  take-overwrite (suc j) d [] h = absurd (omega arith)
  take-overwrite (suc j) d (x ∷ xs) h =
      let e : suc j + length d ≡ suc (j + length d) = omega arith in
      rw e (ap (λ t. x ∷ t) (take-overwrite j d xs (omega arith)))

  pub length-overwrite :
      (j : ℕ) (d xs : List A) → j + length d ≤ length xs → length (overwrite j d xs) ≡ length xs
  length-overwrite j d xs h = omega (
    arith,
    length-append {ℓ} (take j xs) (d ++ drop (j + length d) xs),
    length-append {ℓ} d (drop (j + length d) xs),
    length-take j xs,
    length-drop (j + length d) xs,
  )

  -- A write at the end of a slice extends it.
  pub slice-overwrite :
      (i j : ℕ) (d xs : List A)
      → i ≤ j
      → j + length d ≤ length xs
      → slice i (j + length d - i) (overwrite j d xs) ≡ slice i (j - i) xs ++ d
  slice-overwrite zero j d xs h fits =
      let e : j + length d - 0 ≡ j + length d = omega arith in
      let e' : j - 0 ≡ j = omega arith in rw (e, e') (take-overwrite j d xs fits)
  slice-overwrite (suc i) zero d xs h fits = absurd (omega arith)
  slice-overwrite (suc i) (suc j) d [] h fits = absurd (omega arith)
  slice-overwrite (suc i) (suc j) d (x ∷ xs) h fits =
      let e : suc j + length d ≡ suc (j + length d) = omega arith in
      let e' : suc (j + length d) - suc i ≡ j + length d - i = omega arith in
      let e'' : suc j - suc i ≡ j - i = omega arith in
      rw (e, e', e'') (slice-overwrite i j d xs (omega arith) (omega arith))

  take-nil : (n : ℕ) → take {A = A} n [] ≡ []
  take-nil zero = refl
  take-nil (suc n) = refl

  drop-nil : (n : ℕ) → drop {A = A} n [] ≡ []
  drop-nil zero = refl
  drop-nil (suc n) = refl

  -- The first elements of a slice.
  pub take-take : (m n : ℕ) (xs : List A) → m ≤ n → take m (take n xs) ≡ take m xs
  take-take zero n xs h = refl
  take-take (suc m) zero xs h = absurd (omega arith)
  take-take (suc m) (suc n) [] h = refl
  take-take (suc m) (suc n) (x ∷ xs) h = ap (λ t. x ∷ t) (take-take m n xs (omega arith))

  pub drop-take : (m n : ℕ) (xs : List A) → drop m (take (m + n) xs) ≡ take n (drop m xs)
  drop-take zero n xs = let e : 0 + n ≡ n = omega arith in rw e
  drop-take (suc m) n [] = let e : suc m + n ≡ suc (m + n) = omega arith in rw e (sym (take-nil n))
  drop-take (suc m) n (x ∷ xs) =
      let e : suc m + n ≡ suc (m + n) = omega arith in rw e (drop-take m n xs)

  pub drop-drop : (m n : ℕ) (xs : List A) → drop m (drop n xs) ≡ drop (n + m) xs
  drop-drop m zero xs = let e : 0 + m ≡ m = omega arith in rw e
  drop-drop zero (suc n) [] = sym (drop-nil (suc n + 0))
  drop-drop (suc m) (suc n) [] = sym (drop-nil (suc n + suc m))
  drop-drop m (suc n) (x ∷ xs) =
      let e : suc n + m ≡ suc (n + m) = omega arith in rw e (drop-drop m n xs)

  pub take-append_le : (n : ℕ) (xs ys : List A) → n ≤ length xs → take n (xs ++ ys) ≡ take n xs
  take-append_le zero xs ys h = refl
  take-append_le (suc n) [] ys h = absurd (omega arith)
  take-append_le (suc n) (x ∷ xs) ys h = ap (λ t. x ∷ t) (take-append_le n xs ys (omega arith))

  pub take-append_add :
      (k n : ℕ) (xs ys : List A) → length xs ≡ k → take (k + n) (xs ++ ys) ≡ xs ++ take n ys
  take-append_add zero n [] ys e = let same : 0 + n ≡ n = omega arith in rw same
  take-append_add (suc k) n [] ys e = absurd (omega arith)
  take-append_add zero n (x ∷ xs) ys e = absurd (omega arith)
  take-append_add (suc k) n (x ∷ xs) ys e =
      let same : suc k + n ≡ suc (k + n) = omega arith in
      rw same (ap (λ t. x ∷ t) (take-append_add k n xs ys (omega arith)))

  pub take_add : (m n : ℕ) (xs : List A) → take (m + n) xs ≡ take m xs ++ take n (drop m xs)
  take_add zero n xs = let e : 0 + n ≡ n = omega arith in rw e
  take_add (suc m) n [] = let e : suc m + n ≡ suc (m + n) = omega arith in rw e (sym (take-nil n))
  take_add (suc m) n (x ∷ xs) =
      let e : suc m + n ≡ suc (m + n) = omega arith in rw e (ap (λ t. x ∷ t) (take_add m n xs))
