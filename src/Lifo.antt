-- ===== src/Lifo.antt =====
-- include/small/lifo.h: a stack of elements that are linked through their first word. The state is
-- the `next` of the head and that of every element, by address.
pub mod Stack
mod Tests
use small.Base.{
  ℕ, zero, suc, ◌+◌, ◌-◌, ◌*◌, ◌/◌, ◌%◌, ◌^◌, ◌≤◌, ◌<◌, min, max, bit_and, bit_or, bit_xor, ◌≡◌,
  refl, sym, ap, ◌∙◌, ◌≢◌, ◌↔◌, ◌⊎◌, inl, inr, Bool, true, false, ◌&&◌, ◌||◌, not, Option, none,
  some, List, [], ◌∷◌, ◌++◌, map, arith, ltb, leb, ◌==◌, if◌then◌else◌, Bool-cases, Option-cases,
  length, get_elem?, set, length-append,
}
use small.Base.Update.{update}

pub record Lifo : Type 0 where
  pub next : Option ℕ
  pub links : ℕ → Option ℕ

unfoldable pub lifo_init : (ℕ → Option ℕ) → Lifo
lifo_init links = record { next = none; links = links }

unfoldable pub lifo_push : Lifo → ℕ → Lifo
lifo_push s elem = record { next = some elem; links = update s.links elem s.next }

abbrev pub popped : Lifo → Option ℕ → Option ℕ × Lifo
popped s none = (none, s)
popped s (some elem) = (some elem, record s { next = s.links elem })

unfoldable pub lifo_pop : Lifo → Option ℕ × Lifo
lifo_pop s = popped s s.next

unfoldable pub lifo_peek : Lifo → Option ℕ
lifo_peek s = s.next

abbrev pub is_null : Option ℕ → Bool
is_null none = true
is_null (some a) = false

unfoldable pub lifo_is_empty : Lifo → Bool
lifo_is_empty s = is_null s.next
