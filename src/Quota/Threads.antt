-- ===== src/Quota/Threads.antt =====
-- The atomic loops of include/small/quota.h, run by several threads at once. A thread reads the word
-- of the quota, computes the next one, and stores it if the word is still what it read; else it
-- reads again. The compare-and-exchange is weak, so it may fail for no reason.
pub mod Invariant
use small.Base.{
  ℕ, zero, suc, ◌+◌, ◌-◌, ◌^◌, ◌≤◌, ◌<◌, ◌≡◌, Option, none, some, List, [], ◌∷◌, get_elem?, set,
}
use small.Quota.{set_attempt, use_attempt, release_attempt}

-- A call under way, with the number of units that it computed before its loop.
pub data Call : Type 0 where
  set_to : ℕ → Call
  take : ℕ → Call
  give : ℕ → Call

-- A thread is idle, or about to store with the word that it read last.
pub data Pc : Type 0 where
  idle : Pc
  pending : Call → (seen : ℕ) → Pc

-- `held` counts the units that the thread's calls have taken and not given back.
pub record Thread : Type 0 where
  pub pc : Pc
  pub held : ℕ

pub record System : Type 0 where
  pub value : ℕ
  pub threads : List Thread

-- What one round of the loop would store, `none` where the call returns -1.
unfoldable pub attempt : Call → ℕ → Option ℕ
attempt (set_to n) seen = set_attempt n seen
attempt (take n) seen = use_attempt n seen
attempt (give n) seen = some (release_attempt n seen)

unfoldable pub settle : Call → ℕ → ℕ
settle (set_to n) held = held
settle (take n) held = held + n
settle (give n) held = held - n

-- What the callers keep to: a thread gives back only what it holds, limits stay below `cap`, and
-- no request reaches 32 bits together with `cap`.
abbrev pub Allowed : (cap : ℕ) → Call → (held : ℕ) → Type 0
Allowed cap (set_to n) held = n ≤ cap
Allowed cap (take n) held = cap + n < 2 ^ 32
Allowed cap (give n) held = n ≤ held

abbrev pub move : System → ℕ → Thread → System
move s i th = record s { threads = set s.threads i th }

-- One thread, `i`, makes a move, while the others stand still.
pub data Step (cap : ℕ) (s : System) : System → Type 0 where
  start :
      (i : ℕ) (c : Call) (th : Thread)
      → get_elem? s.threads i ≡ some th
      → th.pc ≡ idle
      → Allowed cap c th.held
      → Step cap s (move s i (record th { pc = pending c s.value }))
  retry :
      (i : ℕ) (c : Call) (seen : ℕ) (th : Thread)
      → get_elem? s.threads i ≡ some th
      → th.pc ≡ pending c seen
      → Step cap s (move s i (record th { pc = pending c s.value }))
  refuse :
      (i : ℕ) (c : Call) (seen : ℕ) (th : Thread)
      → get_elem? s.threads i ≡ some th
      → th.pc ≡ pending c seen
      → attempt c seen ≡ none
      → Step cap s (move s i (record th { pc = idle }))
  store :
      (i : ℕ) (c : Call) (seen v : ℕ) (th : Thread)
      → get_elem? s.threads i ≡ some th
      → th.pc ≡ pending c seen
      → seen ≡ s.value
      → attempt c seen ≡ some v
      → Step cap s (record (move s i (record { pc = idle; held = settle c th.held })) { value = v })

pub data Reach (cap : ℕ) (s : System) : System → Type 0 where
  here : Reach cap s s
  next : {t u : System} → Reach cap s t → Step cap t u → Reach cap s u
