-- ===== src/Matras/Leaves.antt =====
-- The third level of a touch.
use mathlib.Core.Path.{subst}
use small.Base.{
  refl, ℕ, ◌<◌, ◌≡◌, sym, ap, ◌∙◌, ◌≢◌, inl, inr, ◌&&◌, Option, arith, ◌==◌, Bool-cases,
}
use small.Base.Update.{update}
use small.Matras.{Extents, Allocator, Matras, part1, part2, part3, set_slot}
use small.Matras.Views.{own_level, matras_copy_read_view_extent, copy_extent, touched3}
use small.Matras.Stock.{Place, mid, leaf, Keeper, IsStocked}
use small.Matras.Lookup.{IsAt}
use small.Matras.Building.{matras_alloc_extent-Extended, Extended, unextended, extended}
use small.Matras.Copying.{
  path, copied, copied_new, copied_other, copied-ViewKept, copied-HeadKept, copied_leaf-HeadKept,
}
use small.Matras.Sharing.{touching, IsBehind, Stage, Touched, touch_refused, touch_got}

module _ {E : Extents} (K : Keeper E) (m : Matras E) (place : ℕ → Place) (prev id : ℕ)
    (below : id < m.head.block_count) (at_prev : IsAt m m.cells place prev id) where
  abbrev n1 : ℕ
  n1 = part1 m id

  abbrev n2 : ℕ
  n2 = part2 m id

  pub prev-IsBehind : IsBehind m place prev id prev
  prev-IsBehind = record { root_shared = λ q. q; mid_shared = λ at q. q; leaf_shared = λ at q. q }

  -- The extent that the user refused.
  pub restocked :
      (a a' : Allocator E) (cells : ℕ → ℕ → ℕ) (root : ℕ) (place' : ℕ → Place)
      → IsStocked K a' place'
      → Stage K m place prev id a cells root place'
      → Stage K m place prev id a' cells root place'
  restocked a a' cells root place' w c = record { stocked = w; heads = c.heads; views = c.views }

  in_row :
      (i : ℕ)
      → {root : ℕ} → part1 m i ≡ n1
      → part2 m i ≡ n2
      → IsAt m m.cells place root i
      → IsAt m m.cells place root id
  in_row i {root} same1 same2 at = (
    at.0,
    ap (λ (t : ℕ). place (m.cells root t)) (sym same1) ∙ at.1 ∙ ap mid same1,
    ap (λ (t : ℕ). place (m.cells (m.cells root t) n2)) (sym same1)
        ∙ ap (λ (t : ℕ). place (m.cells (m.cells root (part1 m i)) t)) (sym same2)
        ∙ at.2
        ∙ ap (λ (t : ℕ). leaf t (part2 m i)) same1
        ∙ ap (λ (t : ℕ). leaf n1 t) same2,
  )

  mid-injective : (a b : ℕ) → mid a ≡ mid b → a ≡ b
  mid-injective a b q = ground (arith, q)

  -- The third level, copied.
  level3_copied :
      (a : Allocator E) (cells : ℕ → ℕ → ℕ) (root n k r : ℕ) (place' : ℕ → Place)
      → Stage K m place prev id a cells root place'
      → ((w : ℕ)
          → IsBehind m place prev id w
          → IsAt m m.cells place w id
          → cells root n1 ≢ m.cells w n1)
      → {out : Option ℕ × Matras E} → Extended K (touching m a cells root n k r) place' out
      → Touched K m place prev id (
          touched3
            (part3 m id)
            (set_slot (cells root n1) n2 (copy_extent (path m cells root id) out)))
  level3_copied a cells root n k r place' c apart (unextended {a = a'} fails w) =
      touch_refused place' fails (restocked a a' cells root place' w c)
  level3_copied a cells root n k r place' c apart (extended {a = a'} {e = e} fresh w) =
      let x = cells root n1 in
      let child = path m cells root id in
      let cells' = copied cells x n2 child e in
      let p = leaf n1 n2 in
      let at = (c.heads id below).at in
      let no_leaf : (k1 k2 : ℕ) → place' x ≢ leaf k1 k2 =
        λ k1 k2 q. absurd (ground (arith, sym at.1 ∙ q)) in
      let e1 : cells' root n1 ≡ x =
        copied_other cells x n2 child e root n1
          (λ q. absurd (ground (arith, sym fresh ∙ ap place' q ∙ at.0)))
          (λ q. absurd (ground (arith, sym at.1 ∙ ap place' q ∙ at.0))) in
      touch_got (update place' e p)
        (record {
          stocked = w p;
          heads = λ i less. elim (Bool-cases ((part1 m i == n1) && (part2 m i == n2))) [
            | inl row ↦
                copied_leaf-HeadKept m cells place' root id e fresh i (c.heads i less)
                  (ground arith) (ground arith)
            | inr other ↦
                (let v = c.heads i less in
                  let at_i = v.at in
                  copied-HeadKept m cells place' x n2 child e p fresh root i v
                    (λ q. absurd (ground (arith, sym at.1 ∙ ap place' q ∙ at_i.0)))
                    (λ q same.
                      let same1 = mid-injective n1 (part1 m i) (sym at.1 ∙ ap place' q ∙ at_i.1) in
                      absurd (ground arith))
                    no_leaf)
          ];
          views = λ u i behind at_u.
              let v = c.views u i behind at_u in
              let at_i = v.at in
              copied-ViewKept m cells place' x n2 child e p fresh u i v
                (λ q. absurd (ground (arith, sym at.1 ∙ ap place' q ∙ at_i.0)))
                (λ q same.
                  let same1 = mid-injective n1 (part1 m i) (sym at.1 ∙ ap place' q ∙ at_i.1) in
                  apart u behind (in_row i (sym same1) (sym same) at_u)
                    (q ∙ v.same_mid ∙ ap (m.cells u) (sym same1)))
                no_leaf;
        })
        (ap (λ (t : ℕ). cells' t n2) e1 ∙ copied_new cells x n2 child e)
        (λ u behind at_u q.
          let v = c.views u id behind at_u in
          let at_i = v.at in
          absurd (ground (arith, sym fresh ∙ ap place' (q ∙ sym v.same_path) ∙ at_i.2)))

  pub level3-Touched :
      (a : Allocator E) (cells : ℕ → ℕ → ℕ) (root n k r extent2 shared : ℕ) (place' : ℕ → Place)
      → Stage K m place prev id a cells root place'
      → ((w : ℕ)
          → IsBehind m place prev id w
          → IsAt m m.cells place w id
          → cells root n1 ≢ m.cells w n1)
      → path m cells root id ≡ path m m.cells m.head.root id
      → shared ≡ path m m.cells prev id
      → cells root n1 ≡ extent2
      → Touched K m place prev id
          (touched3 (part3 m id) (own_level (touching m a cells root n k r) extent2 n2 shared))
  unfolding matras_copy_read_view_extent
  level3-Touched a cells root n k r extent2 shared place' c apart same is_shared is_x =
      subst
        (λ (x : ℕ).
          Touched K m place prev id
            (touched3 (part3 m id) (own_level (touching m a cells root n k r) x n2 shared)))
        is_x
        (elim (Bool-cases (path m cells root id == shared)) [
          | inl both ↦ rw both (
              level3_copied a cells root n k r place' c apart
                (matras_alloc_extent-Extended K (touching m a cells root n k r) place' c.stocked))
          | inr own ↦ rw own (
              touch_got place' c refl (λ w behind at_w q.
                let b = behind.leaf_shared at_w (sym q ∙ same) in
                let at : path m cells root id ≡ shared = same ∙ sym b ∙ sym is_shared in
                absurd (ground arith)))
        ])
