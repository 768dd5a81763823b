-- ===== src/SlabCache/Large.antt =====
-- Slabs that are larger than those of the arena.
use small.Base.{
  ℕ, ◌+◌, ◌^◌, ◌<◌, ◌≡◌, refl, ap, ◌∙◌, Bool, true, false, Option, none, some, List, ◌∷◌, arith,
  ◌==◌,
}
use small.Base.Words.{add64, sub64}
use small.SlabSource.{slab_sizeof}
use small.SlabCache.{slab_magic, Arena, Slab, SlabList, SlabCache, slab_create, erase}
use small.SlabCache.Get.{add_large, get_granted, slab_get_large}
use small.SlabCache.Put.{slab_put_large}
use small.SlabCache.Split.{slab_create_lem}

-- The counters of a list are words.
pub record IsCounted (l : SlabList) : Type 0 where
  pub used_small : l.used < 2 ^ 64
  pub total_small : l.total < 2 ^ 64

-- The outcomes of `slab_get_large`. In the order of the code: the quota refuses; `malloc` fails, and
-- the quota gets back what was used; or the slab has the size that was asked for and its header, and
-- giving it back restores the statistics and the quota.
pub data LargeGiven {A : Arena} (c : SlabCache A) (size : ℕ) : Option ℕ × SlabCache A → Type 0 where
  no_quota :
      {s : A.State}
      → A.quota_use c.arena (size + slab_sizeof) ≡ (false, s)
      → LargeGiven c size (none, record c { arena = s })
  no_memory :
      {s s' : A.State}
      → A.quota_use c.arena (size + slab_sizeof) ≡ (true, s)
      → A.malloc s (size + slab_sizeof) ≡ (none, s')
      → LargeGiven c size (none, record c { arena = A.quota_release s' (size + slab_sizeof) })
  large :
      {s s' : A.State} {slab : ℕ} {c' : SlabCache A}
      → A.quota_use c.arena (size + slab_sizeof) ≡ (true, s)
      → A.malloc s (size + slab_sizeof) ≡ (some slab, s')
      → c'.headers slab ≡ record {
        size = size + slab_sizeof;
        magic = slab_magic;
        order = c.order_max + 1;
        in_use = 0;
      }
      → (slab_put_large c' slab).allocated ≡ c.allocated
      → (slab_put_large c' slab).arena ≡ A.free (A.quota_release s' (size + slab_sizeof)) slab
      → LargeGiven c size (some slab, c')

pub erase-cons : (a : ℕ) (xs : List ℕ) → erase a (a ∷ xs) ≡ xs
erase-cons a xs = let e : (a == a) ≡ true = ground arith in rw e refl

pub add_sub : (a b : ℕ) → a < 2 ^ 64 → b < 2 ^ 64 → sub64 (add64 a b) b ≡ a
add_sub a b h h' = omega arith

pub SlabList-eq :
    {l l' : SlabList} → l.slabs ≡ l'.slabs → l.used ≡ l'.used → l.total ≡ l'.total → l ≡ l'
SlabList-eq e e' e'' i = record { slabs = e i; used = e' i; total = e'' i }

module _ {A : Arena} (c : SlabCache A) (size : ℕ) where
  add_large-LargeGiven :
      (s : A.State)
      → IsCounted c.allocated
      → size + slab_sizeof < 2 ^ 64
      → A.quota_use c.arena (size + slab_sizeof) ≡ (true, s)
      → (r : Option ℕ × A.State) → A.malloc s (size + slab_sizeof) ≡ r
      → LargeGiven c size (add_large c (size + slab_sizeof) r)
  unfolding slab_put_large slab_create
  add_large-LargeGiven s n fits granted (none, s') e = no_memory granted e
  add_large-LargeGiven s n fits granted (some slab, s') e =
      let header = slab_create_lem c slab (c.order_max + 1) (size + slab_sizeof) in
      let used_small = n.used_small in
      let total_small = n.total_small in
      let is_size = ap (λ (h : Slab). h.size) header in
      large granted e header
        (SlabList-eq (erase-cons slab c.allocated.slabs)
          (ap (λ (t : ℕ). sub64 (add64 c.allocated.used (size + slab_sizeof)) t) is_size
            ∙ add_sub c.allocated.used (size + slab_sizeof) used_small fits)
          (ap (λ (t : ℕ). sub64 (add64 c.allocated.total (size + slab_sizeof)) t) is_size
            ∙ add_sub c.allocated.total (size + slab_sizeof) total_small fits))
        (ap (λ (t : ℕ). A.free (A.quota_release s' t) slab) is_size)

  get_granted-LargeGiven :
      IsCounted c.allocated
      → size + slab_sizeof < 2 ^ 64
      → (r : Bool × A.State) → A.quota_use c.arena (size + slab_sizeof) ≡ r
      → LargeGiven c size (get_granted c (size + slab_sizeof) r)
  get_granted-LargeGiven n fits (false, s) e = no_quota e
  get_granted-LargeGiven n fits (true, s) e =
      add_large-LargeGiven s n fits e (A.malloc s (size + slab_sizeof)) refl

  -- If the counters of the cache are words, and the size and its header stay below 2^64:
  -- `slab_get_large` returns NULL where the quota refuses; it returns NULL and gives what it used
  -- back to the quota where `malloc` fails; else it returns the slab from `malloc`, with a header of
  -- that size, and giving this back with `slab_put_large` restores the list of allocated slabs and
  -- its statistics, releases the size to the quota and frees the memory.
  pub slab_get_large-LargeGiven :
      IsCounted c.allocated
      → size + slab_sizeof < 2 ^ 64
      → LargeGiven c size (slab_get_large c size)
  unfolding slab_get_large
  slab_get_large-LargeGiven n fits =
      let sum : add64 size slab_sizeof ≡ size + slab_sizeof = omega arith in
      rw sum (get_granted-LargeGiven n fits (A.quota_use c.arena (size + slab_sizeof)) refl)
