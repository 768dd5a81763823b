-- ===== src/SlabCache/Split.antt =====
-- Splitting a slab down to an order.
use mathlib.Core.Path.{subst}
use small.Base.{
  some, ℕ, zero, suc, ◌+◌, ◌-◌, ◌*◌, ◌/◌, ◌%◌, ◌^◌, ◌≤◌, ◌<◌, min, max, ◌≡◌, refl, sym, ap, ◌∙◌,
  inl, inr, true, false, arith, ◌==◌, Option-cases,
}
use native.Mathlib.Nat.{mul-mod_left, div-add-mod'}
use small.Base.Update.{update_self, update_other}
use small.Base.Words.{shl64}
use small.Base.Bits.{two_pow_suc, pow_pos}
use small.SlabCache.{Arena, Slab, SlabCache, slab_magic, slab_order_size, slab_buddy, slab_create}
use small.SlabCache.Get.{add_buddy, slab_split, split_until}
use small.SlabCache.Order.{IsSized, order_size}
use small.SlabCache.Buddy.{AreBuddies, HasBuddy, slab_buddy-HasBuddy}

-- A slab that the header describes as a free one of this order, at an address that fits.
pub record IsFree {A : Arena} (c : SlabCache A) (slab order : ℕ) : Type 0 where
  pub order_is : (c.headers slab).order ≡ order
  pub size_is : (c.headers slab).size ≡ slab_order_size c order
  pub aligned : slab % slab_order_size c order ≡ 0
  pub inside : order ≤ c.order_max

-- The sizes of a cache do not change.
pub record SameSizes {A : Arena} (c c' : SlabCache A) : Type 0 where
  pub same_max : c'.order_max ≡ c.order_max
  pub same_lb : c'.order0_size_lb ≡ c.order0_size_lb
  pub same_order0 : c'.order0_size ≡ c.order0_size

pub some-inj : {x y : ℕ} → some x ≡ some y → x ≡ y
some-inj {x} {y} e = ground arith

twice_aligned : (a s : ℕ) → a % (2 * s) ≡ 0 → a % s ≡ 0
twice_aligned a s h =
    let whole : a ≡ a / (2 * s) * 2 * s = omega (arith, div-add-mod' a (2 * s)) in
    ap (λ (t : ℕ). t % s) whole ∙ mul-mod_left (a / (2 * s) * 2) s

module _ {A : Arena} where
  pub SameSizes-IsSized : {c c' : SlabCache A} → SameSizes c c' → IsSized c → IsSized c'
  SameSizes-IsSized s v =
      let max_eq = s.same_max in
      let lb_eq = s.same_lb in
      let order0_eq = s.same_order0 in
      let bound = v.bound in
      record {
        order0 = order0_eq ∙ v.order0 ∙ ap (λ (t : ℕ). 2 ^ t) (sym lb_eq);
        whole = v.whole ∙ ap (λ (t : ℕ). 2 ^ t) (omega arith);
        bound = omega arith;
      }

  pub SameSizes-trans :
      {c c' c'' : SlabCache A} → SameSizes c c' → SameSizes c' c'' → SameSizes c c''
  SameSizes-trans s s' = record {
    same_max = s'.same_max ∙ s.same_max;
    same_lb = s'.same_lb ∙ s.same_lb;
    same_order0 = s'.same_order0 ∙ s.same_order0;
  }

  -- After `slab_create`, the header is the new one.
  pub slab_create_lem :
      (c : SlabCache A) (slab order size : ℕ)
      → (slab_create c slab order size).headers slab
        ≡ record { size = size; magic = slab_magic; order = order; in_use = 0 }
  unfolding slab_create
  slab_create_lem c slab order size = update_self c.headers slab _

  pub size_same :
      {c c' : SlabCache A}
      → SameSizes c c'
      → (order : ℕ) → slab_order_size c' order ≡ slab_order_size c order
  unfolding slab_order_size
  size_same s order = ap (λ (lb : ℕ). shl64 1 (order + lb)) s.same_lb

  double_size :
      (c : SlabCache A)
      → IsSized c
      → (order : ℕ) → order + 1 ≤ c.order_max
      → slab_order_size c (order + 1) ≡ 2 * slab_order_size c order
  double_size c v order h =
      let small_size = order_size c v order (omega arith) in
      let large_size = order_size c v (order + 1) h in
      let e : order + 1 + c.order0_size_lb ≡ suc (order + c.order0_size_lb) = omega arith in
      large_size
      ∙ ap (λ (t : ℕ). 2 ^ t) e
      ∙ two_pow_suc (order + c.order0_size_lb)
      ∙ ap (λ (t : ℕ). 2 * t) (sym small_size)

  -- Half the size keeps an address aligned.
  half_aligned :
      (c : SlabCache A)
      → IsSized c
      → (slab order : ℕ) → order + 1 ≤ c.order_max
      → slab % slab_order_size c (order + 1) ≡ 0
      → slab % slab_order_size c order ≡ 0
  half_aligned c v slab order h aligned =
      twice_aligned slab (slab_order_size c order) (rw (← double_size c v order h) aligned)

  -- Making the buddy does not touch the slab.
  add_buddy-keeps :
      (c : SlabCache A) (slab order size : ℕ)
      → HasBuddy c slab
      → (c.headers slab).order ≡ order
      → order < c.order_max
      → 0 < slab_order_size c order
      → ((add_buddy c order size (slab_buddy c slab)).headers slab ≡ c.headers slab)
        × SameSizes c (add_buddy c order size (slab_buddy c slab))
  unfolding slab_create
  add_buddy-keeps c slab order size has e less pos = elim (Option-cases (slab_buddy c slab)) [
    | inl gone ↦ rw gone (refl, record { same_max = refl; same_lb = refl; same_order0 = refl })
    | inr (b, got) ↦
        let (x, is_x, halves, back) = has.half (rw e less) in
        let same : x ≡ b = some-inj (sym is_x ∙ got) in
        let adjacent : max slab x ≡ min slab x + slab_order_size c (c.headers slab).order =
          halves.adjacent in
        let size_pos : 0 < slab_order_size c (c.headers slab).order = rw e pos in
        rw got (
          update_other c.headers b slab _ (λ eq. absurd (omega arith)),
          record { same_max = refl; same_lb = refl; same_order0 = refl },
        )
  ]

  -- The lower half of a slab that is being split has a buddy.
  pub created-HasBuddy :
      (c : SlabCache A)
      → IsSized c
      → (slab order : ℕ) → IsFree c slab (order + 1)
      → HasBuddy (slab_create c slab order (slab_order_size c order)) slab
  unfolding slab_create slab_order_size
  created-HasBuddy c v slab order f =
      let inside = f.inside in
      let c1 : SlabCache A = slab_create c slab order (slab_order_size c order) in
      let created : SameSizes c c1 = record {
        same_max = refl;
        same_lb = refl;
        same_order0 = refl;
      } in
      let header = slab_create_lem c slab order (slab_order_size c order) in
      slab_buddy-HasBuddy c1 (SameSizes-IsSized created v) slab (
        ap (λ (h : Slab). slab % slab_order_size c1 h.order) header
        ∙ half_aligned c v slab order (omega arith) f.aligned)

  pub created_pair :
      (c : SlabCache A)
      → IsSized c
      → (slab order : ℕ) → IsFree c slab (order + 1)
      → (buddy : ℕ) × (slab_buddy (slab_create c slab order (slab_order_size c order)) slab
          ≡ some buddy)
        × AreBuddies slab buddy (slab_order_size c order)
        × (slab % (2 * slab_order_size c order) ≡ 0)
  unfolding slab_create slab_order_size
  created_pair c v slab order f =
      let inside = f.inside in
      let c1 : SlabCache A = slab_create c slab order (slab_order_size c order) in
      let header = slab_create_lem c slab order (slab_order_size c order) in
      let at : (c1.headers slab).order ≡ order = ap (λ (h : Slab). h.order) header in
      let (b, is_b, halves, back) = (created-HasBuddy c v slab order f).half (omega arith) in
      (
        b,
        is_b,
        subst (λ (o : ℕ). AreBuddies slab b (slab_order_size c o)) at halves,
        ap (λ (t : ℕ). slab % t) (sym (double_size c v order f.inside)) ∙ f.aligned,
      )

  slab_split-IsFree :
      (c : SlabCache A) (slab order : ℕ)
      → IsSized c
      → IsFree c slab (order + 1)
      → IsFree (slab_split c slab) slab order × SameSizes c (slab_split c slab)
  unfolding slab_split slab_create slab_order_size
  slab_split-IsFree c slab order v f =
      let above = f.order_is in
      let inside = f.inside in
      let size : ℕ = slab_order_size c order in
      let c1 : SlabCache A = slab_create c slab order size in
      let created : SameSizes c c1 = record {
        same_max = refl;
        same_lb = refl;
        same_order0 = refl;
      } in
      let lower : (c.headers slab).order - 1 ≡ order = omega arith in
      let header = slab_create_lem c slab order size in
      let half = half_aligned c v slab order (omega arith) f.aligned in
      let has = created-HasBuddy c v slab order f in
      let is_size = order_size c v order (omega arith) in
      let pos = pow_pos (order + c.order0_size_lb) in
      let kept =
        add_buddy-keeps c1 slab order size has (ap (λ (h : Slab). h.order) header) (omega arith)
          (omega arith) in
      let same = kept.1 in
      let size_eq = size_same kept.1 order in
      let max_eq = same.same_max in
      rw lower (
        record {
          order_is = ap (λ (h : Slab). h.order) (kept.0 ∙ header);
          size_is = ap (λ (h : Slab). h.size) (kept.0 ∙ header) ∙ sym size_eq;
          aligned = ap (λ (t : ℕ). slab % t) size_eq ∙ half;
          inside = omega arith;
        },
        SameSizes-trans created kept.1,
      )

  -- From a free slab of a higher order, the loop ends with one of the order that is wanted.
  pub split_until-IsFree :
      (fuel order slab above : ℕ) (c : SlabCache A)
      → IsSized c
      → IsFree c slab (order + 1 + above)
      → above < fuel
      → IsFree (split_until fuel order slab c) slab order
        × SameSizes c (split_until fuel order slab c)
  unfolding split_until
  split_until-IsFree zero order slab above c v f h = absurd (omega arith)
  split_until-IsFree (suc fuel) order slab zero c v f h =
      let e : order + 1 + 0 ≡ order + 1 = omega arith in
      let done = slab_split-IsFree c slab order v (subst (λ (o : ℕ). IsFree c slab o) e f) in
      let now = (done.0).order_is in
      let stop : (((slab_split c slab).headers slab).order == order) ≡ true = ground arith in
      rw stop done
  split_until-IsFree (suc fuel) order slab (suc above) c v f h =
      let e : order + 1 + suc above ≡ order + 1 + above + 1 = omega arith in
      let done =
        slab_split-IsFree c slab (order + 1 + above) v (subst (λ (o : ℕ). IsFree c slab o) e f) in
      let now = (done.0).order_is in
      let go_on : (((slab_split c slab).headers slab).order == order) ≡ false = ground arith in
      let rest =
        split_until-IsFree fuel order slab above (slab_split c slab) (SameSizes-IsSized done.1 v)
          done.0 (omega arith) in
      rw go_on (rest.0, SameSizes-trans done.1 rest.1)
