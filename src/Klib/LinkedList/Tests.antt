-- ===== src/Klib/LinkedList/Tests.antt =====
-- Runs of the list operations on small rings, and the theorems at concrete ones.
use benmosh_os.Prelude.{refl, [], ◌∷◌}
use benmosh_os.Klib.LinkedList.{Links, list_init, list_add_tail, list_add, list_del}
use benmosh_os.Klib.LinkedList.Ring.{IsRing, list_init-IsRing}
use benmosh_os.Klib.LinkedList.Insert.{list_add_tail-IsRing, list_add-IsRing}
use benmosh_os.Klib.LinkedList.Delete.{Deletes, list_del-Deletes}

abbrev nothing : Links
nothing = record { next = λ a. 0; prev = λ a. 0 }

abbrev three : Links
three = list_add 3 10 (list_add_tail 2 10 (list_add_tail 1 10 (list_init 10 nothing)))

abbrev one : Links
one = list_add_tail 1 10 (list_init 10 nothing)

one-IsRing : IsRing one 10 (1 ∷ [])
one-IsRing = list_add_tail-IsRing (list_init 10 nothing) 1 10 [] (list_init-IsRing 10 nothing) refl

two-IsRing : IsRing (list_add_tail 2 10 one) 10 (1 ∷ 2 ∷ [])
two-IsRing = list_add_tail-IsRing one 2 10 (1 ∷ []) one-IsRing refl

three-IsRing : IsRing three 10 (3 ∷ 1 ∷ 2 ∷ [])
three-IsRing = list_add-IsRing (list_add_tail 2 10 one) 3 10 (1 ∷ 2 ∷ []) two-IsRing refl

list_add_tail-IsRing_example : IsRing (list_add_tail 2 10 one) 10 (1 ∷ 2 ∷ [])
list_add_tail-IsRing_example = list_add_tail-IsRing one 2 10 (1 ∷ []) one-IsRing refl

list_del-Deletes_example : Deletes 1 10 (3 ∷ 2 ∷ []) (list_del 1 three)
list_del-Deletes_example = list_del-Deletes three 1 10 (3 ∷ []) (2 ∷ []) three-IsRing
