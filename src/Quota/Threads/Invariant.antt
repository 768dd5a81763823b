-- ===== src/Quota/Threads/Invariant.antt =====
-- No interleaving of the loops of a quota breaks it.
use small.Base.{
  ℕ, zero, suc, ◌+◌, ◌-◌, ◌^◌, ◌≤◌, ◌<◌, ◌≡◌, refl, some, List, [], ◌∷◌, get_elem?, set, arith,
}
use mathlib.Core.Path.{subst}
use mathlib.Core.Option.{some-injective}
use small.Quota.{quota}
use small.Quota.Pack.{total_of, used_of, pack}
use small.Quota.Single.{IsValid, use_attempt_lem, set_attempt_lem, release_attempt_lem}
use small.Quota.Threads.{
  Call, set_to, take, give, Pc, idle, pending, Thread, System, attempt, settle, Allowed, move, Step,
  start, retry, refuse, store, Reach, here, next,
}

-- The units that all threads hold together.
abbrev pub total_held : List Thread → ℕ
total_held [] = 0
total_held (th ∷ ths) = th.held + total_held ths

-- A call under way is still allowed.
abbrev pub PcAllowed : ℕ → Pc → ℕ → Type 0
PcAllowed cap idle held = Unit
PcAllowed cap (pending c seen) held = Allowed cap c held

abbrev pub AllAllowed : ℕ → List Thread → Type 0
AllAllowed cap [] = Unit
AllAllowed cap (th ∷ ths) = PcAllowed cap th.pc th.held × AllAllowed cap ths

pub record IsSafe (cap : ℕ) (s : System) : Type 0 where
  pub word : s.value < 2 ^ 64
  pub within : used_of s.value ≤ total_of s.value
  pub capped : total_of s.value ≤ cap
  pub balance : used_of s.value ≡ total_held s.threads
  pub allowed : AllAllowed cap s.threads

total_held-set :
    (ths : List Thread) (i : ℕ) (th th' : Thread)
    → get_elem? ths i ≡ some th
    → total_held (set ths i th') + th.held ≡ total_held ths + th'.held
total_held-set [] i th th' e = ground arith
total_held-set (t ∷ ths) zero th th' e = ground arith
total_held-set (t ∷ ths) (suc i) th th' e = omega (arith, total_held-set ths i th th' e)

held-le :
    (ths : List Thread) (i : ℕ) (th : Thread) → get_elem? ths i ≡ some th → th.held ≤ total_held ths
held-le [] i th e = ground arith
held-le (t ∷ ths) zero th e = ground arith
held-le (t ∷ ths) (suc i) th e = omega (arith, held-le ths i th e)

AllAllowed-set :
    (cap : ℕ) (ths : List Thread) (i : ℕ) (th' : Thread)
    → AllAllowed cap ths
    → PcAllowed cap th'.pc th'.held
    → AllAllowed cap (set ths i th')
AllAllowed-set cap [] i th' a p = tt
AllAllowed-set cap (t ∷ ths) zero th' a p = (p, a.1)
AllAllowed-set cap (t ∷ ths) (suc i) th' a p = (a.0, AllAllowed-set cap ths i th' a.1 p)

AllAllowed-get :
    (cap : ℕ) (ths : List Thread) (i : ℕ) (th : Thread)
    → AllAllowed cap ths
    → get_elem? ths i ≡ some th
    → PcAllowed cap th.pc th.held
AllAllowed-get cap [] i th a e = cc
AllAllowed-get cap (t ∷ ths) zero th a e =
    subst (λ (x : Thread). PcAllowed cap x.pc x.held) (some-injective t th e) a.0
AllAllowed-get cap (t ∷ ths) (suc i) th a e = AllAllowed-get cap ths i th a.1 e

module _ (cap : ℕ) (cap_fits : cap < 2 ^ 32) (s : System) (safe : IsSafe cap s) where
  quota-IsValid : IsValid (quota s.value)
  quota-IsValid = record { word = safe.word; within = safe.within }

  -- A thread's call under way is allowed.
  pending-Allowed :
      (i : ℕ) (c : Call) (seen : ℕ) (th : Thread)
      → get_elem? s.threads i ≡ some th
      → th.pc ≡ pending c seen
      → Allowed cap c th.held
  pending-Allowed i c seen th e p =
      subst (λ (x : Pc). PcAllowed cap x th.held) p
        (AllAllowed-get cap s.threads i th safe.allowed e)

  -- A step that changes neither the word nor what threads hold.
  keep_word :
      (i : ℕ) (th : Thread) (pc : Pc)
      → get_elem? s.threads i ≡ some th
      → PcAllowed cap pc th.held
      → IsSafe cap (move s i (record th { pc = pc }))
  keep_word i th pc e a = record {
    word = safe.word;
    within = safe.within;
    capped = safe.capped;
    balance =
        let b = safe.balance in
        omega (arith, total_held-set s.threads i th (record th { pc = pc }) e);
    allowed = AllAllowed-set cap s.threads i (record th { pc = pc }) safe.allowed a;
  }

  -- A step that stores the word of `t` and `u`, and leaves thread `i` with `held`.
  new_word :
      (i : ℕ) (th : Thread) (v t u held : ℕ)
      → get_elem? s.threads i ≡ some th
      → v ≡ pack t u
      → u ≤ t
      → t ≤ cap
      → u + th.held ≡ used_of s.value + held
      → IsSafe cap (record (move s i (record { pc = idle; held = held })) { value = v })
  new_word i th v t u held e stored within capped moved = record {
    word = omega arith;
    within = omega arith;
    capped = omega arith;
    balance =
        let b = safe.balance in
        omega (arith, total_held-set s.threads i th (record { pc = idle; held = held }) e);
    allowed = AllAllowed-set cap s.threads i (record { pc = idle; held = held }) safe.allowed tt;
  }

  store-IsSafe :
      (i : ℕ) (c : Call) (v : ℕ) (th : Thread)
      → get_elem? s.threads i ≡ some th
      → Allowed cap c th.held
      → attempt c s.value ≡ some v
      → IsSafe cap (record (move s i (record { pc = idle; held = settle c th.held })) { value = v })
  unfolding attempt settle
  store-IsSafe i (set_to n) v th e a stored =
      let parts : (v ≡ pack n (used_of s.value)) × (used_of s.value ≤ n) =
        ground (arith, set_attempt_lem quota-IsValid n) in
      new_word i th v n (used_of s.value) th.held e parts.0 parts.1 a refl
  store-IsSafe i (take n) v th e a stored =
      let within = safe.within in
      let capped = safe.capped in
      let parts : (v ≡ pack (total_of s.value) (used_of s.value + n))
          × (used_of s.value + n ≤ total_of s.value) =
        ground (arith, use_attempt_lem quota-IsValid n) in
      new_word i th v (total_of s.value) (used_of s.value + n) (th.held + n) e parts.0 parts.1
        capped (omega arith)
  store-IsSafe i (give n) v th e a stored =
      let within = safe.within in
      let covered : n ≤ used_of s.value =
        let b = safe.balance in omega (arith, held-le s.threads i th e) in
      let word : v ≡ pack (total_of s.value) (used_of s.value - n) =
        ground (arith, release_attempt_lem quota-IsValid n) in
      new_word i th v (total_of s.value) (used_of s.value - n) (th.held - n) e word (omega arith)
        safe.capped (omega arith)

  Step-IsSafe : {s' : System} → Step cap s s' → IsSafe cap s'
  Step-IsSafe (start i c th e p a) = keep_word i th (pending c s.value) e a
  Step-IsSafe (retry i c seen th e p) =
      keep_word i th (pending c s.value) e (pending-Allowed i c seen th e p)
  Step-IsSafe (refuse i c seen th e p r) = keep_word i th idle e tt
  Step-IsSafe (store i c seen v th e p same stored) =
      store-IsSafe i c v th e (pending-Allowed i c seen th e p) (rw same at stored)

-- Whatever the interleaving of the threads' loops, and however often a compare-and-exchange fails,
-- a safe system stays safe: no more is in use than the limit allows, and the amount in use is
-- exactly what the threads' finished calls hold.
pub Reach-IsSafe :
    (cap : ℕ) {s s' : System} → cap < 2 ^ 32 → IsSafe cap s → Reach cap s s' → IsSafe cap s'
Reach-IsSafe cap fits safe here = safe
Reach-IsSafe cap fits safe (next r st) = Step-IsSafe cap fits _ (Reach-IsSafe cap fits safe r) st
