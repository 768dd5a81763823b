-- ===== src/Lifo/Tests.antt =====
-- A stack of the elements 16 and 32.
use small.Base.{◌≡◌, refl, none, some, [], ◌∷◌, arith, ◌==◌, if◌then◌else◌}
use small.Lifo.{Lifo, lifo_push, lifo_pop, lifo_peek, lifo_is_empty, is_null}
use small.Lifo.Stack.{IsStack, top, rest, lifo_push-pop, lifo_pop-top}

abbrev two_elems : Lifo
two_elems = record { next = some 32; links = λ a. if a == 32 then some 16 else none }

two_elems-IsStack : IsStack two_elems (32 ∷ 16 ∷ [])
two_elems-IsStack = record { chain = (refl, (refl, refl)) }

lifo_push-pop_example :
    IsStack (lifo_push two_elems 48) (48 ∷ 32 ∷ 16 ∷ [])
    × ((lifo_pop (lifo_push two_elems 48)).0 ≡ some 48)
    × IsStack (lifo_pop (lifo_push two_elems 48)).1 (32 ∷ 16 ∷ [])
lifo_push-pop_example =
    lifo_push-pop two_elems (32 ∷ 16 ∷ []) two_elems-IsStack 48 (ground arith, (ground arith, tt))

lifo_pop-top_test :
    ((lifo_pop two_elems).0 ≡ top (32 ∷ 16 ∷ []))
    × IsStack (lifo_pop two_elems).1 (rest (32 ∷ 16 ∷ []))
    × (lifo_peek two_elems ≡ top (32 ∷ 16 ∷ []))
    × (lifo_is_empty two_elems ≡ is_null (top (32 ∷ 16 ∷ [])))
lifo_pop-top_test = lifo_pop-top two_elems (32 ∷ 16 ∷ []) two_elems-IsStack
