-- ===== src/Links/Tests.antt =====
-- A list with the head 1 and two nodes.
use beeos.Prelude.{◌==◌, if◌then◌else◌, ℕ, ◌≡◌, [], ◌∷◌, arith, true}
use beeos.Links.{Links, list_init, list_insert_before, list_insert_after, list_delete, list_empty}
use beeos.Links.Rings.{IsRing, init-IsRing}
use beeos.Links.Inserts.{insert_before-IsRing, insert_after-IsRing}
use beeos.Links.Deletes.{delete-IsRing}

abbrev blank : Links
blank = record { prev = λ q. 0; next = λ q. 0 }

abbrev empty_list : Links
empty_list = list_init 1 blank

abbrev one_node : Links
one_node = list_insert_before 1 2 empty_list

abbrev two_nodes : Links
two_nodes = list_insert_after 1 3 one_node

one_node-IsRing : IsRing one_node 1 (2 ∷ [])
one_node-IsRing = insert_before-IsRing empty_list 1 2 [] (init-IsRing blank 1) (omega arith, tt)

two_nodes-IsRing : IsRing two_nodes 1 (3 ∷ 2 ∷ [])
two_nodes-IsRing =
    insert_after-IsRing one_node 1 3 (2 ∷ []) one_node-IsRing (omega arith, (omega arith, tt))

delete-IsRing_example :
    IsRing (list_delete 3 two_nodes) 1 (2 ∷ [])
    × IsRing (list_delete 3 two_nodes) 3 []
    × (list_empty 3 (list_delete 3 two_nodes) ≡ true)
delete-IsRing_example = delete-IsRing two_nodes 1 [] 3 (2 ∷ []) two_nodes-IsRing

-- Two lists of one node each.
abbrev pairs : ℕ → ℕ
pairs q =
    if q == 1 then 2 else (if q == 2 then 1 else (if q == 5 then 6 else (if q == 6 then 5 else q)))

abbrev two_lists : Links
two_lists = record { prev = pairs; next = pairs }
