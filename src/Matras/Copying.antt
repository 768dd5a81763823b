-- ===== src/Matras/Copying.antt =====
-- Extents of the head that are copied, so that it shares them with no view.
use small.Base.{ℕ, ◌≡◌, sym, ap, ◌∙◌, ◌≢◌, arith}
use small.Base.Update.{update, update_self, update_other}
use small.Matras.{Extents, Matras, write, part1, part2}
use small.Matras.Stock.{Place, spare, top, mid, leaf}
use small.Matras.Lookup.{IsAt, IsAt-fresh}
use small.Matras.Kept.{write_self, write_other}

-- The memory after the extent `child`, which a slot of `parent` refers to, is copied to `fresh`.
abbrev pub copied : (cells : ℕ → ℕ → ℕ) → (parent slot child fresh : ℕ) → ℕ → ℕ → ℕ
copied cells parent slot child fresh = write (update cells fresh (cells child)) parent slot fresh

module _ (cells : ℕ → ℕ → ℕ) (parent slot child fresh : ℕ) where
  pub copied_new : copied cells parent slot child fresh parent slot ≡ fresh
  copied_new = write_self (update cells fresh (cells child)) parent slot fresh

  pub copied_same :
      parent ≢ fresh → (t : ℕ) → copied cells parent slot child fresh fresh t ≡ cells child t
  copied_same h t =
      write_other (update cells fresh (cells child)) parent slot fresh fresh t (λ q. absurd (h q))
      ∙ ap (λ (f : ℕ → ℕ). f t) (update_self cells fresh (cells child))

  pub copied_other :
      (y t : ℕ)
      → fresh ≢ y
      → (parent ≡ y → slot ≢ t)
      → copied cells parent slot child fresh y t ≡ cells y t
  copied_other y t other h =
      write_other (update cells fresh (cells child)) parent slot fresh y t h
      ∙ ap (λ (f : ℕ → ℕ). f t) (update_other cells fresh y (cells child) other)

module _ {E : Extents} (m : Matras E) where
  -- The extent of the third level that holds a block.
  abbrev pub path : (cells : ℕ → ℕ → ℕ) → (root i : ℕ) → ℕ
  path cells root i = cells (cells root (part1 m i)) (part2 m i)

-- What a view, with its root, finds: as it was at the start, and at its place.
pub record ViewKept {E : Extents} (m : Matras E) (cells : ℕ → ℕ → ℕ) (place : ℕ → Place)
    (root i : ℕ) : Type 0 where
  pub at : IsAt m cells place root i
  pub same_mid : cells root (part1 m i) ≡ m.cells root (part1 m i)
  pub same_path : path m cells root i ≡ path m m.cells root i
  pub same_block :
      (slot : ℕ) → cells (path m m.cells root i) slot ≡ m.cells (path m m.cells root i) slot

-- What the head finds: a block at its place, with its content.
pub record HeadKept {E : Extents} (m : Matras E) (cells : ℕ → ℕ → ℕ) (place : ℕ → Place)
    (root i : ℕ) : Type 0 where
  pub at : IsAt m cells place root i
  pub same_block :
      (slot : ℕ) → cells (path m cells root i) slot ≡ m.cells (path m m.cells m.head.root i) slot

differs : (place : ℕ → Place) (x y : ℕ) → place x ≢ place y → x ≢ y
differs place x y h = λ q. h (ap place q)

module _ {E : Extents} (m : Matras E) (cells : ℕ → ℕ → ℕ) (place : ℕ → Place)
    (parent slot child fresh : ℕ) (p : Place) (is_fresh : place fresh ≡ spare) where
  abbrev cells' : ℕ → ℕ → ℕ
  cells' = copied cells parent slot child fresh

  fresh_other : (y : ℕ) (q : Place) → place y ≡ q → q ≢ spare → fresh ≢ y
  fresh_other y q e h = λ same. h (sym e ∙ ap place (sym same) ∙ is_fresh)

  -- A view that does not go through the slot.
  pub copied-ViewKept :
      (root i : ℕ)
      → ViewKept m cells place root i
      → (parent ≡ root → slot ≢ part1 m i)
      → (parent ≡ cells root (part1 m i) → slot ≢ part2 m i)
      → ((k1 k2 : ℕ) → place parent ≢ leaf k1 k2)
      → ViewKept m cells' (update place fresh p) root i
  copied-ViewKept root i v h1 h2 h3 =
      let n1 = part1 m i in
      let n2 = part2 m i in
      let e1 : cells' root n1 ≡ cells root n1 =
        copied_other cells parent slot child fresh root n1
          (fresh_other root top v.at.0 (λ q. absurd (ground (arith, q)))) h1 in
      let e2 : cells' (cells root n1) n2 ≡ path m cells root i =
        copied_other cells parent slot child fresh (cells root n1) n2
          (fresh_other (cells root n1) (mid n1) v.at.1 (λ q. absurd (ground (arith, q)))) h2 in
      let e3 : path m cells' root i ≡ path m cells root i = ap (λ (t : ℕ). cells' t n2) e1 ∙ e2 in
      let is_leaf : place (path m m.cells root i) ≡ leaf n1 n2 =
        ap place (sym v.same_path) ∙ v.at.2 in
      record {
        at =
            IsAt-fresh m cells' place root i fresh p is_fresh
              (v.at.0, ap place e1 ∙ v.at.1, ap place e3 ∙ v.at.2);
        same_mid = e1 ∙ v.same_mid;
        same_path = e3 ∙ v.same_path;
        same_block = λ s.
            copied_other cells parent slot child fresh (path m m.cells root i) s
              (fresh_other (path m m.cells root i) (leaf n1 n2) is_leaf
                (λ q. absurd (ground (arith, q))))
              (λ q. absurd (h3 n1 n2 (ap place q ∙ is_leaf)))
            ∙ v.same_block s;
      }

  -- A block of the head that is not reached through the slot.
  pub copied-HeadKept :
      (root i : ℕ)
      → HeadKept m cells place root i
      → (parent ≡ root → slot ≢ part1 m i)
      → (parent ≡ cells root (part1 m i) → slot ≢ part2 m i)
      → ((k1 k2 : ℕ) → place parent ≢ leaf k1 k2)
      → HeadKept m cells' (update place fresh p) root i
  copied-HeadKept root i v h1 h2 h3 =
      let n1 = part1 m i in
      let n2 = part2 m i in
      let e1 : cells' root n1 ≡ cells root n1 =
        copied_other cells parent slot child fresh root n1
          (fresh_other root top v.at.0 (λ q. absurd (ground (arith, q)))) h1 in
      let e3 : path m cells' root i ≡ path m cells root i =
        ap (λ (t : ℕ). cells' t n2) e1
        ∙ copied_other cells parent slot child fresh (cells root n1) n2
            (fresh_other (cells root n1) (mid n1) v.at.1 (λ q. absurd (ground (arith, q)))) h2 in
      record {
        at =
            IsAt-fresh m cells' place root i fresh p is_fresh
              (v.at.0, ap place e1 ∙ v.at.1, ap place e3 ∙ v.at.2);
        same_block = λ s.
            ap (λ (t : ℕ). cells' t s) e3
            ∙ copied_other cells parent slot child fresh (path m cells root i) s
                (fresh_other (path m cells root i) (leaf n1 n2) v.at.2
                  (λ q. absurd (ground (arith, q))))
                (λ q. absurd (h3 n1 n2 (ap place q ∙ v.at.2)))
            ∙ v.same_block s;
      }

module _ {E : Extents} (m : Matras E) (cells : ℕ → ℕ → ℕ) (place : ℕ → Place) (root id fresh : ℕ)
    (is_fresh : place fresh ≡ spare) where
  -- A block of the head whose extent of the second level is copied.
  pub copied_mid-HeadKept :
      (i : ℕ)
      → HeadKept m cells place root i
      → part1 m i ≡ part1 m id
      → HeadKept m
          (copied cells root (part1 m id) (cells root (part1 m id)) fresh)
          (update place fresh (mid (part1 m id)))
          root
          i
  copied_mid-HeadKept i v same =
      let n1 = part1 m id in
      let n2 = part2 m i in
      let c = cells root n1 in
      let new_cells = copied cells root n1 c fresh in
      let p = mid n1 in
      let root_other : fresh ≢ root =
        λ q. absurd (ground (arith, sym is_fresh ∙ ap place q ∙ v.at.0)) in
      let leaf_other : fresh ≢ path m cells root i =
        λ q. absurd (ground (arith, sym is_fresh ∙ ap place q ∙ v.at.2)) in
      let e1 : new_cells root (part1 m i) ≡ fresh =
        ap (λ (t : ℕ). new_cells root t) same ∙ copied_new cells root n1 c fresh in
      let e2 : path m new_cells root i ≡ path m cells root i =
        ap (λ (t : ℕ). new_cells t n2) e1
        ∙ copied_same cells root n1 c fresh (λ q. root_other (sym q)) n2
        ∙ ap (λ (t : ℕ). cells (cells root t) n2) (sym same) in
      record {
        at = (
          update_other place fresh root p root_other ∙ v.at.0,
          ap (update place fresh p) e1 ∙ update_self place fresh p ∙ ap mid (sym same),
          ap (update place fresh p) e2
              ∙ update_other place fresh (path m cells root i) p leaf_other
              ∙ v.at.2,
        );
        same_block = λ s.
            ap (λ (t : ℕ). new_cells t s) e2
            ∙ copied_other cells root n1 c fresh (path m cells root i) s leaf_other
                (λ q. absurd (ground (arith, sym v.at.0 ∙ ap place q ∙ v.at.2)))
            ∙ v.same_block s;
      }

  -- A block of the head whose extent of the third level is copied.
  pub copied_leaf-HeadKept :
      (i : ℕ)
      → HeadKept m cells place root i
      → part1 m i ≡ part1 m id
      → part2 m i ≡ part2 m id
      → HeadKept m
          (copied cells (cells root (part1 m id)) (part2 m id) (path m cells root id) fresh)
          (update place fresh (leaf (part1 m id) (part2 m id)))
          root
          i
  copied_leaf-HeadKept i v same1 same2 =
      let n1 = part1 m id in
      let n2 = part2 m id in
      let x = cells root n1 in
      let c = path m cells root id in
      let new_cells = copied cells x n2 c fresh in
      let p = leaf n1 n2 in
      let to_x : cells root (part1 m i) ≡ x = ap (λ (t : ℕ). cells root t) same1 in
      let is_mid : place x ≡ mid (part1 m i) = ap place (sym to_x) ∙ v.at.1 in
      let root_other : fresh ≢ root =
        λ q. absurd (ground (arith, sym is_fresh ∙ ap place q ∙ v.at.0)) in
      let mid_other : fresh ≢ x =
        λ q. absurd (ground (arith, sym is_fresh ∙ ap place q ∙ is_mid)) in
      let e1 : new_cells root (part1 m i) ≡ x =
        copied_other cells x n2 c fresh root (part1 m i) root_other
          (λ q. absurd (ground (arith, sym is_mid ∙ ap place q ∙ v.at.0)))
        ∙ to_x in
      let e2 : path m new_cells root i ≡ fresh =
        ap (λ (t : ℕ). new_cells t (part2 m i)) e1
        ∙ ap (λ (t : ℕ). new_cells x t) same2
        ∙ copied_new cells x n2 c fresh in
      let from_c : c ≡ path m cells root i =
        ap (λ (t : ℕ). cells (cells root t) n2) (sym same1)
        ∙ ap (λ (t : ℕ). cells (cells root (part1 m i)) t) (sym same2) in
      record {
        at = (
          update_other place fresh root p root_other ∙ v.at.0,
          ap (update place fresh p) e1 ∙ update_other place fresh x p mid_other ∙ is_mid,
          ap (update place fresh p) e2
              ∙ update_self place fresh p
              ∙ ap (λ (t : ℕ). leaf t n2) (sym same1)
              ∙ ap (λ (t : ℕ). leaf (part1 m i) t) (sym same2),
        );
        same_block = λ s.
            ap (λ (t : ℕ). new_cells t s) e2
            ∙ copied_same cells x n2 c fresh (λ q. mid_other (sym q)) s
            ∙ ap (λ (t : ℕ). cells t s) from_c
            ∙ v.same_block s;
      }
