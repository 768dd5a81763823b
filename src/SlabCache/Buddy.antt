-- ===== src/SlabCache/Buddy.antt =====
-- The addresses of buddies.
use mathlib.Core.Path.{subst}
use small.Base.{
  ℕ, ◌+◌, ◌*◌, ◌/◌, ◌%◌, ◌^◌, ◌<◌, min, max, bit_xor, ◌≡◌, refl, sym, ap, ◌∙◌, inl, inr, true,
  false, none, some, arith, ◌==◌, Bool-cases,
}
use native.Mathlib.Nat.{mul-mod_left, div-add-mod'}
use small.Base.Bits.{bit_xor-scale, bit_xor-one}
use small.SlabCache.{Arena, SlabCache, slab_order_size, slab_buddy}
use small.SlabCache.Order.{IsSized, order_size}

-- `a` and `b` are the two halves of a slab of twice the size.
pub record AreBuddies (a b size : ℕ) : Type 0 where
  pub aligned : min a b % (2 * size) ≡ 0
  pub adjacent : max a b ≡ min a b + size

-- A number and the one with its lowest bit negated.
bit_xor-one_pair :
    (q : ℕ) → (min q (bit_xor q 1) ≡ q / 2 * 2) × (max q (bit_xor q 1) ≡ q / 2 * 2 + 1)
bit_xor-one_pair q = (ground (arith, bit_xor-one q), ground (arith, bit_xor-one q))

flip_twice : (q : ℕ) → bit_xor (bit_xor q 1) 1 ≡ q
flip_twice q = omega (arith, bit_xor-one q, bit_xor-one (bit_xor q 1))

even_odd : (h p : ℕ) → AreBuddies (h * 2 * p) ((h * 2 + 1) * p) p
even_odd h p =
    let lower : min (h * 2 * p) ((h * 2 + 1) * p) ≡ h * (2 * p) = omega arith in
    record { aligned = rw lower (mul-mod_left h (2 * p)); adjacent = omega arith }

AreBuddies-sym : {a b size : ℕ} → AreBuddies a b size → AreBuddies b a size
AreBuddies-sym {a} {b} r =
    let same : min b a ≡ min a b = omega arith in
    let adjacent = r.adjacent in record { aligned = rw same r.aligned; adjacent = omega arith }

AreBuddies-eq :
    {a b s a' b' s' : ℕ} → a ≡ a' → b ≡ b' → s ≡ s' → AreBuddies a' b' s' → AreBuddies a b s
AreBuddies-eq e e' e'' h = rw (e, e', e'') h

pub flip-AreBuddies : (q p : ℕ) → AreBuddies (q * p) (bit_xor q 1 * p) p
flip-AreBuddies q p = elim (Bool-cases (q % 2 == 0)) [
  | inl even ↦
      let e : q ≡ q / 2 * 2 = ground arith in
      let e' : bit_xor q 1 ≡ q / 2 * 2 + 1 = ground (arith, bit_xor-one q) in
      subst (λ (t : ℕ). AreBuddies (t * p) (bit_xor q 1 * p) p) (sym e) (rw e' (even_odd (q / 2) p))
  | inr odd ↦
      let e : q ≡ q / 2 * 2 + 1 = ground arith in
      let e' : bit_xor q 1 ≡ q / 2 * 2 = ground (arith, bit_xor-one q) in
      subst (λ (t : ℕ). AreBuddies (t * p) (bit_xor q 1 * p) p) (sym e)
        (rw e' (AreBuddies-sym (even_odd (q / 2) p)))
]

-- The bit of an aligned address that is as large as the alignment.
xor_size : (q k : ℕ) → bit_xor (q * 2 ^ k) (2 ^ k) ≡ bit_xor q 1 * 2 ^ k
xor_size q k =
    let one : 1 * 2 ^ k ≡ 2 ^ k = omega arith in
    ap (λ (t : ℕ). bit_xor (q * 2 ^ k) t) (sym one) ∙ bit_xor-scale k q 1

-- What `slab_buddy` returns for a slab: none for the highest order, else the other half.
pub record HasBuddy {A : Arena} (c : SlabCache A) (slab : ℕ) : Type 0 where
  pub top : (c.headers slab).order ≡ c.order_max → slab_buddy c slab ≡ none
  pub half :
      (c.headers slab).order < c.order_max
      → (buddy : ℕ) × (slab_buddy c slab ≡ some buddy)
        × AreBuddies slab buddy (slab_order_size c (c.headers slab).order)
        × ((c.headers buddy).order ≡ (c.headers slab).order → slab_buddy c buddy ≡ some slab)

module _ {A : Arena} (c : SlabCache A) (v : IsSized c) (slab : ℕ) where
  -- In a cache with sizes that are powers of two, the address of a slab of an order below the
  -- highest is a multiple of its size. Then `slab_buddy` returns the other half of a slab of twice
  -- the size, which is aligned to twice the size; and the buddy of the buddy, if it has the same
  -- order, is the slab. A slab of the highest order has no buddy.
  pub slab_buddy-HasBuddy : slab % slab_order_size c (c.headers slab).order ≡ 0 → HasBuddy c slab
  unfolding slab_buddy
  slab_buddy-HasBuddy aligned = record {
    top = λ e.
        (let same : ((c.headers slab).order == c.order_max) ≡ true = ground arith in rw same refl);
    half = λ less.
        (let order : ℕ = (c.headers slab).order in
          let k : ℕ = order + c.order0_size_lb in
          let size = order_size c v order (omega arith) in
          let q : ℕ = slab / 2 ^ k in
          let whole : slab ≡ q * 2 ^ k =
            (let rest : slab % 2 ^ k ≡ 0 = rw (← size) aligned in
              omega (arith, div-add-mod' slab (2 ^ k))) in
          let differs : (order == c.order_max) ≡ false = ground arith in
          let b : ℕ = bit_xor slab (slab_order_size c order) in
          let value : b ≡ bit_xor q 1 * 2 ^ k =
            ap (λ (t : ℕ). bit_xor slab t) size
            ∙ ap (λ (t : ℕ). bit_xor t (2 ^ k)) whole
            ∙ xor_size q k in
          let back : bit_xor b (slab_order_size c order) ≡ slab =
            ap (λ (t : ℕ). bit_xor b t) size
            ∙ ap (λ (t : ℕ). bit_xor t (2 ^ k)) value
            ∙ xor_size (bit_xor q 1) k
            ∙ ap (λ (t : ℕ). t * 2 ^ k) (flip_twice q)
            ∙ sym whole in
          (
            b,
            rw differs refl,
            AreBuddies-eq whole value size (flip-AreBuddies q (2 ^ k)),
            λ same. rw (same, differs) (ap some back),
          ));
  }
