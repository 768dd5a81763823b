-- ===== src/Matras/Touch.antt =====
-- Copy on write, step by step through the levels: `matras_touch_no_check`.
use mathlib.Core.Path.{subst}
use small.Base.{
  if◌then◌else◌, refl, ℕ, ◌<◌, ◌≡◌, sym, ap, ◌∙◌, ◌≢◌, inl, inr, Option, some, arith, ◌==◌,
  Bool-cases,
}
use small.Base.Update.{update_other, update_self, update}
use small.Matras.{set_root, View, add32, Extents, Allocator, Matras, part1, part2, part3, set_slot}
use small.Matras.Views.{
  own_root, touched1, touched2, own_level, matras_copy_read_view_extent, copy_extent,
}
use small.Matras.Stock.{spare, top, Place, mid, leaf, Keeper, IsStocked}
use small.Matras.Lookup.{IsAt-fresh, IsAt}
use small.Matras.Building.{matras_alloc_extent-Extended, Extended, unextended, extended}
use small.Matras.Copying.{
  copied_same, copied_mid-HeadKept, path, copied, copied_new, ViewKept, copied-ViewKept,
  copied-HeadKept,
}
use small.Matras.Sharing.{touching, IsBehind, Stage, Touched, touch_refused}
use small.Matras.Leaves.{prev-IsBehind, restocked, level3-Touched}

module _ {E : Extents} (K : Keeper E) (m : Matras E) (place : ℕ → Place) (prev id : ℕ)
    (below : id < m.head.block_count) (at_prev : IsAt m m.cells place prev id) where
  abbrev n1 : ℕ
  n1 = part1 m id

  abbrev n2 : ℕ
  n2 = part2 m id

  -- The second level, copied.
  level2_copied :
      (a : Allocator E) (cells : ℕ → ℕ → ℕ) (root n k r shared : ℕ) (place' : ℕ → Place)
      → Stage K m place prev id a cells root place'
      → ((w i : ℕ) → IsBehind m place prev id w → IsAt m m.cells place w i → root ≢ w)
      → path m cells root id ≡ path m m.cells m.head.root id
      → {out : Option ℕ × Matras E} → Extended K (touching m a cells root n k r) place' out
      → shared ≡ m.cells prev n1
      → Touched K m place prev id
          (touched2 n2 (part3 m id) shared (set_slot root n1 (copy_extent (cells root n1) out)))
  unfolding matras_copy_read_view_extent
  level2_copied a cells root n k r shared place' c apart same (unextended {a = a'} fails w)
        is_shared =
      touch_refused place' fails
        (restocked K m place prev id below at_prev a a' cells root place' w c)
  level2_copied a cells root n k r shared place' c apart same (extended {a = a'} {e = e} fresh w)
        is_shared =
      let child = cells root n1 in
      let cells' = copied cells root n1 child e in
      let p = mid n1 in
      let place'' = update place' e p in
      let at = (c.heads id below).at in
      let root_other : root ≢ e =
        λ q. absurd (ground (arith, sym fresh ∙ ap place' (sym q) ∙ at.0)) in
      let no_leaf : (k1 k2 : ℕ) → place' root ≢ leaf k1 k2 =
        λ k1 k2 q. absurd (ground (arith, sym at.0 ∙ q)) in
      let views : (u i : ℕ)
          → IsBehind m place prev id u
          → IsAt m m.cells place u i
          → ViewKept m cells' place'' u i =
        λ u i behind at_u.
          let v = c.views u i behind at_u in
          let at_i = v.at in
          copied-ViewKept m cells place' root n1 child e p fresh u i v
            (λ q. absurd (apart u i behind at_u q))
            (λ q. absurd (ground (arith, sym at.0 ∙ ap place' q ∙ at_i.1))) no_leaf in
      let e1 : cells' root n1 ≡ e = copied_new cells root n1 child e in
      let prev_kept = views prev id (prev-IsBehind K m place prev id below at_prev) at_prev in
      level3-Touched K m place prev id below at_prev a' cells' root (add32 n 1) (add32 k 1)
        (add32 r 1) e (cells' shared n2) place''
        (record {
          stocked = w p;
          heads = λ i less. elim (Bool-cases (part1 m i == n1)) [
            | inl row ↦
                copied_mid-HeadKept m cells place' root id e fresh i (c.heads i less) (ground arith)
            | inr other ↦
                (let v = c.heads i less in
                  let at_i = v.at in
                  copied-HeadKept m cells place' root n1 child e p fresh root i v
                    (λ q same'. absurd (ground arith))
                    (λ q. absurd (ground (arith, sym at.0 ∙ ap place' q ∙ at_i.1))) no_leaf)
          ];
          views = views;
        })
        (λ u behind at_u q.
          let v = c.views u id behind at_u in
          let at_i = v.at in
          absurd (ground (arith, sym fresh ∙ ap place' (sym e1 ∙ q ∙ sym v.same_mid) ∙ at_i.1)))
        (ap (λ (t : ℕ). cells' t n2) e1 ∙ copied_same cells root n1 child e root_other n2 ∙ same)
        (ap (λ (t : ℕ). cells' t n2) (is_shared ∙ sym prev_kept.same_mid) ∙ prev_kept.same_path) e1

  level2-Touched :
      (a : Allocator E) (cells : ℕ → ℕ → ℕ) (root n k r shared : ℕ) (place' : ℕ → Place)
      → Stage K m place prev id a cells root place'
      → ((w i : ℕ) → IsBehind m place prev id w → IsAt m m.cells place w i → root ≢ w)
      → cells root n1 ≡ m.cells m.head.root n1
      → path m cells root id ≡ path m m.cells m.head.root id
      → shared ≡ m.cells prev n1
      → Touched K m place prev id (
          touched2 n2
            (part3 m id)
            shared
            (own_level (touching m a cells root n k r) root n1 shared))
  unfolding matras_copy_read_view_extent
  level2-Touched a cells root n k r shared place' c apart same1 same is_shared =
      elim (Bool-cases (cells root n1 == shared)) [
        | inl both ↦ rw both (
            level2_copied a cells root n k r shared place' c apart same
              (matras_alloc_extent-Extended K (touching m a cells root n k r) place' c.stocked)
              is_shared)
        | inr own ↦
            (let prev_kept =
                c.views prev id (prev-IsBehind K m place prev id below at_prev) at_prev in
              rw own (
                level3-Touched K m place prev id below at_prev a cells root n k r (cells root n1)
                  (cells shared n2) place' c
                  (λ w behind at_w q.
                    let b = behind.mid_shared at_w (sym q ∙ same1) in
                    let at : cells root n1 ≡ shared = same1 ∙ sym b ∙ sym is_shared in
                    absurd (ground arith))
                  same
                  (ap (λ (t : ℕ). cells t n2) (is_shared ∙ sym prev_kept.same_mid)
                    ∙ prev_kept.same_path)
                  refl))
      ]

  -- Before anything is copied.
  start :
      (a : Allocator E)
      → IsStocked K a place
      → ((i : ℕ) → i < m.head.block_count → IsAt m m.cells place m.head.root i)
      → Stage K m place prev id a m.cells m.head.root place
  start a stocked blocks = record {
    stocked = stocked;
    heads = λ i less. record { at = blocks i less; same_block = λ s. refl };
    views = λ u i behind at. record {
      at = at;
      same_mid = refl;
      same_path = refl;
      same_block = λ s. refl;
    };
  }

  -- The root, copied.
  level1_copied :
      IsStocked K m.allocator place
      → ((i : ℕ) → i < m.head.block_count → IsAt m m.cells place m.head.root i)
      → {out : Option ℕ × Matras E} → Extended K m place out
      → Touched K m place prev id
          (touched1 n1 n2 (part3 m id) prev (set_root (copy_extent m.head.root out)))
  unfolding matras_copy_read_view_extent
  level1_copied stocked blocks (unextended {a = a} fails w) =
      touch_refused place fails (start a w blocks)
  level1_copied stocked blocks (extended {a = a} {e = e} fresh w) =
      let head = m.head.root in
      let cells' = update m.cells e (m.cells head) in
      let place' = update place e top in
      let new_root : (t : ℕ) → cells' e t ≡ m.cells head t =
        λ t. ap (λ (f : ℕ → ℕ). f t) (update_self m.cells e (m.cells head)) in
      let old : (y t : ℕ) → place y ≢ spare → cells' y t ≡ m.cells y t = λ y t h.
        ap (λ (f : ℕ → ℕ). f t)
          (update_other m.cells e y (m.cells head) (λ q. h (sym (ap place q) ∙ fresh))) in
      let new_path : (i : ℕ)
          → IsAt m m.cells place head i
          → path m cells' e i ≡ path m m.cells head i =
        λ i at.
          ap (λ (t : ℕ). cells' t (part2 m i)) (new_root (part1 m i))
          ∙ old (m.cells head (part1 m i)) (part2 m i)
              (λ q. absurd (ground (arith, sym at.1 ∙ q))) in
      let c : Stage K m place prev id a cells' e place' = record {
        stocked = w top;
        heads = λ i less.
            let at = blocks i less in
            let at' = IsAt-fresh m m.cells place head i e top fresh at in
            record {
              at = (
                update_self place e top,
                ap place' (new_root (part1 m i)) ∙ at'.1,
                ap place' (new_path i at) ∙ at'.2,
              );
              same_block = λ s.
                  ap (λ (t : ℕ). cells' t s) (new_path i at)
                  ∙ old (path m m.cells head i) s (λ q. absurd (ground (arith, sym at.2 ∙ q)));
            };
        views = λ u i behind at.
            let at' = IsAt-fresh m m.cells place u i e top fresh at in
            let e1 = old u (part1 m i) (λ q. absurd (ground (arith, sym at.0 ∙ q))) in
            let e2 : path m cells' u i ≡ path m m.cells u i =
              ap (λ (t : ℕ). cells' t (part2 m i)) e1
              ∙ old (m.cells u (part1 m i)) (part2 m i)
                  (λ q. absurd (ground (arith, sym at.1 ∙ q))) in
            record {
              at = (at'.0, ap place' e1 ∙ at'.1, ap place' e2 ∙ at'.2);
              same_mid = e1;
              same_path = e2;
              same_block =
                  λ s. old (path m m.cells u i) s (λ q. absurd (ground (arith, sym at.2 ∙ q)));
            };
      } in
      level2-Touched a cells' e (add32 m.extent_count 1) (add32 m.stats_extent_count 1)
        (add32 m.stats_read_view_extent_count 1) (cells' prev n1) place' c
        (λ u i behind at q. absurd (ground (arith, sym fresh ∙ ap place q ∙ at.0))) (new_root n1)
        (new_path id (blocks id below))
        (old prev n1 (λ q. absurd (ground (arith, sym at_prev.0 ∙ q))))

  pub level1-Touched :
      IsStocked K m.allocator place
      → ((i : ℕ) → i < m.head.block_count → IsAt m m.cells place m.head.root i)
      → (v : View) → v.root ≡ prev
      → Touched K m place prev id (touched1 n1 n2 (part3 m id) v.root (own_root m v))
  unfolding matras_copy_read_view_extent
  level1-Touched stocked blocks v is_prev =
      subst
        (λ (x : ℕ). Touched K m place prev id (
          touched1 n1 n2 (part3 m id) x (
            if m.head.root == x
            then set_root (matras_copy_read_view_extent m m.head.root)
            else (some m.head.root, m))))
        (sym is_prev)
        (elim (Bool-cases (m.head.root == prev)) [
          | inl both ↦
              rw both
                (level1_copied stocked blocks (matras_alloc_extent-Extended K m place stocked))
          | inr own ↦ rw own (
              level2-Touched m.allocator m.cells m.head.root m.extent_count m.stats_extent_count
                m.stats_read_view_extent_count (m.cells prev n1) place
                (start m.allocator stocked blocks)
                (λ u i behind at q. let b = behind.root_shared (sym q) in absurd (ground arith))
                refl refl refl)
        ])
