-- ===== src/Mempool/Slab.antt =====
-- The free objects of one slab: those in its list, and those that were never taken.
use mathlib.Core.Path.{subst}
use native.Mathlib.Nat.{mod-eq_of_lt}
use small.Base.{
  get_or, ℕ, zero, suc, ◌+◌, ◌-◌, ◌*◌, ◌^◌, ◌<◌, ◌≡◌, refl, sym, ap, ◌∙◌, ◌≢◌, inl, inr, Bool,
  false, Option, List, [], ◌∷◌, ◌++◌, arith, ◌==◌, if◌then◌else◌, Bool-cases, length,
}
use small.Base.Update.{update, update_self, update_other}
use small.Base.Words.{add32, sub32}
use small.Lifo.Stack.{Chain, rest}
use small.SlabCache.{Arena}
use small.Mempool.{Mslab, Mempool, set_mslab, take_object, count_taken, cool, mslab_alloc}
use small.Mempool.Tree.{SlabTree}

-- Objects in a row.
abbrev pub untouched : (first objsize n : ℕ) → List ℕ
untouched first objsize zero = []
untouched first objsize (suc n) = first ∷ untouched (first + objsize) objsize n

-- The free objects of a slab, in the order in which they are given out. `limit` is the size of the slab.
pub record IsFree (links : ℕ → Option ℕ) (h : Mslab) (slab objsize limit : ℕ) (objects : List ℕ)
    : Type 0 where
  pub chain : List ℕ
  pub left : ℕ
  pub linked : Chain links h.free_list chain
  pub counted : h.nfree ≡ length objects
  pub within : h.free_offset + left * objsize ≡ limit
  pub all : objects ≡ chain ++ untouched (slab + h.free_offset) objsize left

-- The headers after a slab got another: its free objects are `objects`, and whether it is hot.
pub record Reheaded {A : Arena} {T : SlabTree} (p : Mempool A T) (slab limit : ℕ)
    (mslabs : ℕ → Mslab) (objects : List ℕ) (hot : Bool) : Type 0 where
  pub own : IsFree p.links (mslabs slab) slab p.objsize limit objects
  pub is_hot : (mslabs slab).in_hot_slabs ≡ hot
  pub others : (y : ℕ) → slab ≢ y → mslabs y ≡ p.mslabs y

-- The outcomes of `mslab_alloc`: the slab has another object, or it is taken out of the tree.
pub data Drawn {A : Arena} {T : SlabTree} (p : Mempool A T) (slab limit object : ℕ)
    (objects : List ℕ) : ℕ × Mempool A T → Type 0 where
  drawn :
      {mslabs : ℕ → Mslab}
      → objects ≢ []
      → Reheaded p slab limit mslabs objects (p.mslabs slab).in_hot_slabs
      → Drawn p slab limit object objects (object, record p { mslabs = mslabs })
  drawn_last :
      {mslabs : ℕ → Mslab} {p' : Mempool A T}
      → objects ≡ []
      → Reheaded p slab limit mslabs objects false
      → p' ≡ record (cool p slab) { mslabs = mslabs }
      → Drawn p slab limit object objects (object, p')

pub length-untouched : (first objsize n : ℕ) → length (untouched first objsize n) ≡ n
length-untouched first objsize zero = refl
length-untouched first objsize (suc n) = ap suc (length-untouched (first + objsize) objsize n)

-- The header of a slab after an object was taken, before it is counted.
pub record Taken (links : ℕ → Option ℕ) (h h' : Mslab) (slab objsize limit : ℕ) (objects : List ℕ)
    : Type 0 where
  pub chain : List ℕ
  pub left : ℕ
  pub linked : Chain links h'.free_list chain
  pub within : h'.free_offset + left * objsize ≡ limit
  pub all : objects ≡ chain ++ untouched (slab + h'.free_offset) objsize left
  pub nfree_kept : h'.nfree ≡ h.nfree
  pub hot_kept : h'.in_hot_slabs ≡ h.in_hot_slabs

data Took {A : Arena} {T : SlabTree} (p : Mempool A T) (slab limit object : ℕ) (objects : List ℕ)
    : ℕ × Mempool A T → Type 0 where
  took :
      {h : Mslab}
      → Taken p.links (p.mslabs slab) h slab p.objsize limit objects
      → Took p slab limit object objects (object, set_mslab p slab h)

no_objects : (objects : List ℕ) → length objects ≡ 0 → objects ≡ []
no_objects [] h = refl
no_objects (x ∷ xs) h = absurd (omega arith)

module _ {A : Arena} {T : SlabTree} (p : Mempool A T) (slab limit : ℕ)
    (small : limit < 2 ^ 32) where
  take_object-Took :
      (next : Option ℕ) (object : ℕ) (objects : List ℕ) (chain : List ℕ) (left : ℕ)
      → (p.mslabs slab).free_list ≡ next
      → Chain p.links next chain
      → (p.mslabs slab).free_offset + left * p.objsize ≡ limit
      → object ∷ objects ≡ chain ++ untouched (slab + (p.mslabs slab).free_offset) p.objsize left
      → Took p slab limit object objects (take_object p slab next)
  take_object-Took next object objects (c ∷ cs) left e linked within all =
      let first : object ≡ c = ap (λ (l : List ℕ). get_or l 0 0) all in
      let h : Mslab = record (p.mslabs slab) { free_list = p.links c } in
      subst (λ (n : Option ℕ). Took p slab limit object objects (take_object p slab n))
        (sym linked.0)
        (subst (λ (x : ℕ). Took p slab limit x objects (c, set_mslab p slab h)) (sym first)
          (took (record {
            chain = cs;
            left = left;
            linked = linked.1;
            within = within;
            all = ap rest all;
            nfree_kept = refl;
            hot_kept = refl;
          })))
  take_object-Took next object objects [] zero e linked within all =
      absurd (omega (arith, ap length all))
  take_object-Took next object objects [] (suc left) e linked within all =
      let offset = (p.mslabs slab).free_offset in
      let first : object ≡ slab + offset = ap (λ (l : List ℕ). get_or l 0 0) all in
      let sum : add32 offset p.objsize ≡ offset + p.objsize = mod-eq_of_lt (omega arith) in
      let h : Mslab = record (p.mslabs slab) { free_offset = add32 offset p.objsize } in
      let place : slab + offset + p.objsize ≡ slab + add32 offset p.objsize = omega (arith, sum) in
      subst (λ (n : Option ℕ). Took p slab limit object objects (take_object p slab n)) (sym linked)
        (subst (λ (x : ℕ). Took p slab limit x objects (slab + offset, set_mslab p slab h))
          (sym first)
          (took (record {
            chain = [];
            left = left;
            linked = e ∙ linked;
            within = omega (arith, sum, within);
            all = ap rest all ∙ ap (λ (x : ℕ). untouched x p.objsize left) place;
            nfree_kept = refl;
            hot_kept = refl;
          })))

  abbrev counted_header : Mslab → Mslab
  counted_header h = record h { nfree = sub32 h.nfree 1 }

  Taken-IsFree :
      (h : Mslab) (objects : List ℕ)
      → (p.mslabs slab).nfree ≡ suc (length objects)
      → (p.mslabs slab).nfree < 2 ^ 32
      → Taken p.links (p.mslabs slab) h slab p.objsize limit objects
      → (hot : Bool)
      → IsFree p.links
          (record (counted_header h) { in_hot_slabs = hot })
          slab
          p.objsize
          limit
          objects
  Taken-IsFree h objects count word t hot =
      let kept = t.nfree_kept in
      record {
        chain = t.chain;
        left = t.left;
        linked = t.linked;
        counted = omega arith;
        within = t.within;
        all = t.all;
      }

  twice :
      (h h' : Mslab) (objects : List ℕ) (hot : Bool)
      → IsFree p.links h' slab p.objsize limit objects
      → h'.in_hot_slabs ≡ hot
      → Reheaded p slab limit (update (update p.mslabs slab h) slab h') objects hot
  twice h h' objects hot free is_hot =
      let at = update_self (update p.mslabs slab h) slab h' in
      record {
        own = subst (λ (x : Mslab). IsFree p.links x slab p.objsize limit objects) (sym at) free;
        is_hot = ap (λ (x : Mslab). x.in_hot_slabs) at ∙ is_hot;
        others = λ y other.
            update_other (update p.mslabs slab h) slab y h' other
            ∙ update_other p.mslabs slab y h other;
      }

  cooled :
      (h h2 : Mslab) (objects : List ℕ)
      → ((hot : Bool)
          → IsFree p.links (record h2 { in_hot_slabs = hot }) slab p.objsize limit objects)
      → let p' : Mempool A T = set_mslab (set_mslab p slab h) slab h2 in
        Reheaded p slab limit
          (update p'.mslabs slab (record (p'.mslabs slab) { in_hot_slabs = false }))
          objects
          false
  cooled h h2 objects free =
      let twice_updated = update (update p.mslabs slab h) slab h2 in
      let h3 : Mslab = record (twice_updated slab) { in_hot_slabs = false } in
      let at = update_self twice_updated slab h3 in
      let inner = update_self (update p.mslabs slab h) slab h2 in
      record {
        own =
            subst (λ (x : Mslab). IsFree p.links x slab p.objsize limit objects) (sym at)
              (subst
                (λ (x : Mslab).
                  IsFree p.links (record x { in_hot_slabs = false }) slab p.objsize limit objects)
                (sym inner) (free false));
        is_hot = ap (λ (x : Mslab). x.in_hot_slabs) at;
        others = λ y other.
            update_other twice_updated slab y h3 other
            ∙ update_other (update p.mslabs slab h) slab y h2 other
            ∙ update_other p.mslabs slab y h other;
      }

  -- The count, and the tree when it is 0.
  count_taken-Drawn :
      (object : ℕ) (objects : List ℕ)
      → (p.mslabs slab).nfree ≡ suc (length objects)
      → (p.mslabs slab).nfree < 2 ^ 32
      → {r : ℕ × Mempool A T} → Took p slab limit object objects r
      → Drawn p slab limit object objects (count_taken slab r)
  count_taken-Drawn object objects count word (took {h = h} t) =
      let draw : Mslab → ℕ × Mempool A T = λ hh.
        (let p' : Mempool A T = set_mslab (set_mslab p slab h) slab (counted_header hh) in
          (object, if sub32 hh.nfree 1 == 0 then cool p' slab else p')) in
      let kept = t.nfree_kept in
      let free = Taken-IsFree h objects count word t in
      let left : sub32 h.nfree 1 ≡ length objects = omega arith in
      subst (λ (hh : Mslab). Drawn p slab limit object objects (draw hh))
        (sym (update_self p.mslabs slab h))
        (elim (Bool-cases (sub32 h.nfree 1 == 0)) [
          | inl last ↦ rw last (
              drawn_last (no_objects objects (ground arith))
                (cooled h (counted_header h) objects free) refl)
          | inr more ↦ rw more (
              drawn (λ q. absurd (ground (arith, ap length q)))
                (twice h (counted_header h) objects (p.mslabs slab).in_hot_slabs
                  (free h.in_hot_slabs) t.hot_kept))
        ])

  -- The first free object of a slab is given out.
  pub mslab_alloc-Drawn :
      (object : ℕ) (objects : List ℕ)
      → IsFree p.links (p.mslabs slab) slab p.objsize limit (object ∷ objects)
      → length objects < 2 ^ 32 - 1
      → Drawn p slab limit object objects (mslab_alloc p slab)
  unfolding mslab_alloc
  mslab_alloc-Drawn object objects v word =
      let count = v.counted in
      count_taken-Drawn object objects count (omega arith) (
        take_object-Took (p.mslabs slab).free_list object objects v.chain v.left refl v.linked
          v.within v.all)
