-- ===== src/Matras/Kept.antt =====
-- What an allocation keeps of the blocks that are there.
use mathlib.Core.Path.{subst}
use small.Base.{ℕ, ◌<◌, ◌≡◌, refl, sym, ap, ◌∙◌, ◌≢◌, inl, inr, arith, ◌==◌, Bool-cases}
use small.Base.Update.{update, update_self, update_other}
use small.Matras.{Extents, Matras, write, part1, part2}
use small.Matras.Stock.{Place, spare, top, mid, leaf}
use small.Matras.Lookup.{IsAt, IsAt-fresh, IsAt-placed}

-- What a view finds and what its blocks hold stay, for the numbers below `count`.
pub record Kept {E : Extents} (m : Matras E) (count : ℕ) (cells cells' : ℕ → ℕ → ℕ)
    (place place' : ℕ → Place) : Type 0 where
  pub kept_path :
      (root i : ℕ)
      → i < count
      → IsAt m cells place root i
      → (cells' root (part1 m i) ≡ cells root (part1 m i))
        × (cells' (cells root (part1 m i)) (part2 m i) ≡ cells (cells root (part1 m i)) (part2 m i))
  pub kept_place :
      (root i : ℕ) → i < count → IsAt m cells place root i → IsAt m cells' place' root i
  pub kept_leaf : (e n1 n2 : ℕ) → place e ≡ leaf n1 n2 → place' e ≡ leaf n1 n2
  pub kept_block : (e n1 n2 slot : ℕ) → place e ≡ leaf n1 n2 → cells' e slot ≡ cells e slot

pub write_other :
    (cells : ℕ → ℕ → ℕ) (x slot y e s : ℕ)
    → (x ≡ e → slot ≢ s)
    → write cells x slot y e s ≡ cells e s
write_other cells x slot y e s h = elim (Bool-cases (x == e)) [
  | inl same ↦
      (let at : x ≡ e = ground arith in
        subst (λ (t : ℕ). write cells x slot y t s ≡ cells t s) at
          (ap (λ (f : ℕ → ℕ). f s) (update_self cells x (update (cells x) slot y))
            ∙ update_other (cells x) slot s y (h at)))
  | inr other ↦
      ap (λ (f : ℕ → ℕ). f s)
        (update_other cells x e (update (cells x) slot y) (λ at. absurd (ground arith)))
]

pub write_self : (cells : ℕ → ℕ → ℕ) (x slot y : ℕ) → write cells x slot y x slot ≡ y
write_self cells x slot y =
    ap (λ (f : ℕ → ℕ). f slot) (update_self cells x (update (cells x) slot y))
    ∙ update_self (cells x) slot y

-- A write to an extent that no block of the view goes through at this slot.
pub write-Kept :
    {E : Extents} (m : Matras E) (count : ℕ) (cells : ℕ → ℕ → ℕ) (place : ℕ → Place) (x slot y : ℕ)
    (p : Place)
    → place y ≡ spare
    → ((root i : ℕ) → i < count → IsAt m cells place root i → x ≡ root → slot ≢ part1 m i)
    → ((root i : ℕ)
        → i < count
        → IsAt m cells place root i
        → x ≡ cells root (part1 m i)
        → slot ≢ part2 m i)
    → ((n1 n2 : ℕ) → place x ≢ leaf n1 n2)
    → Kept m count cells (write cells x slot y) place (update place y p)
write-Kept m count cells place x slot y p fresh h1 h2 h3 = record {
  kept_path = path;
  kept_place = λ root i less at.
      let q = path root i less at in
      IsAt-fresh m (write cells x slot y) place root i y p fresh (
        at.0,
        ap place q.0 ∙ at.1,
        ap place (ap (λ (t : ℕ). write cells x slot y t (part2 m i)) q.0 ∙ q.1) ∙ at.2,
      );
  kept_leaf = λ e n1 n2 is_leaf.
      update_other place y e p (λ q. absurd (ground (arith, sym fresh ∙ ap place q ∙ is_leaf)))
      ∙ is_leaf;
  kept_block = λ e n1 n2 s is_leaf.
      write_other cells x slot y e s (λ q. absurd (h3 n1 n2 (ap place q ∙ is_leaf)));
}
  where
    path :
        (root i : ℕ)
        → i < count
        → IsAt m cells place root i
        → (write cells x slot y root (part1 m i) ≡ cells root (part1 m i))
          × (write cells x slot y (cells root (part1 m i)) (part2 m i)
              ≡ cells (cells root (part1 m i)) (part2 m i))
    path root i less at = (
      write_other cells x slot y root (part1 m i) (h1 root i less at),
      write_other cells x slot y (cells root (part1 m i)) (part2 m i) (h2 root i less at),
    )

pub Kept-refl :
    {E : Extents} (m : Matras E) (count : ℕ) (cells : ℕ → ℕ → ℕ) (place : ℕ → Place)
    → Kept m count cells cells place place
Kept-refl m count cells place = record {
  kept_path = λ root i less at. (refl, refl);
  kept_place = λ root i less at. at;
  kept_leaf = λ e n1 n2 h. h;
  kept_block = λ e n1 n2 slot h. refl;
}

pub Kept-trans :
    {E : Extents} (m : Matras E) (count : ℕ) (c1 c2 c3 : ℕ → ℕ → ℕ) (p1 p2 p3 : ℕ → Place)
    → Kept m count c1 c2 p1 p2
    → Kept m count c2 c3 p2 p3
    → Kept m count c1 c3 p1 p3
Kept-trans m count c1 c2 c3 p1 p2 p3 k l = record {
  kept_path = λ root i less at.
      let q = k.kept_path root i less at in
      let r = l.kept_path root i less (k.kept_place root i less at) in
      (
        r.0 ∙ q.0,
        ap (λ (t : ℕ). c3 t (part2 m i)) (sym q.0)
            ∙ r.1
            ∙ ap (λ (t : ℕ). c2 t (part2 m i)) q.0
            ∙ q.1,
      );
  kept_place = λ root i less at. l.kept_place root i less (k.kept_place root i less at);
  kept_leaf = λ e n1 n2 h. l.kept_leaf e n1 n2 (k.kept_leaf e n1 n2 h);
  kept_block = λ e n1 n2 slot h.
      l.kept_block e n1 n2 slot (k.kept_leaf e n1 n2 h) ∙ k.kept_block e n1 n2 slot h;
}

-- An extent gets its place only when it is used.
pub fresh-Kept :
    {E : Extents} (m : Matras E) (count : ℕ) (cells : ℕ → ℕ → ℕ) (place : ℕ → Place) (e : ℕ)
    (p : Place)
    → place e ≡ spare
    → Kept m count cells cells place (update place e p)
fresh-Kept m count cells place e p fresh = record {
  kept_path = λ root i less at. (refl, refl);
  kept_place = λ root i less at. IsAt-fresh m cells place root i e p fresh at;
  kept_leaf = λ x n1 n2 is_leaf.
      update_other place e x p (λ q. absurd (ground (arith, sym fresh ∙ ap place q ∙ is_leaf)))
      ∙ is_leaf;
  kept_block = λ x n1 n2 slot h. refl;
}

-- An extent without blocks is freed.
pub freed-Kept :
    {E : Extents} (m : Matras E) (count : ℕ) (cells : ℕ → ℕ → ℕ) (place : ℕ → Place) (e : ℕ)
    → ((i : ℕ) → i < count → (place e ≢ top) × (place e ≢ mid (part1 m i)))
    → ((n1 n2 : ℕ) → place e ≢ leaf n1 n2)
    → Kept m count cells cells place (update place e spare)
freed-Kept m count cells place e unused no_leaf = record {
  kept_path = λ root i less at. (refl, refl);
  kept_place = λ root i less at.
      IsAt-placed m cells place root i e spare (unused i less).0 (unused i less).1
        (no_leaf (part1 m i) (part2 m i)) at;
  kept_leaf = λ x n1 n2 is_leaf.
      update_other place e x spare (λ q. no_leaf n1 n2 (ap place q ∙ is_leaf)) ∙ is_leaf;
  kept_block = λ x n1 n2 slot h. refl;
}
