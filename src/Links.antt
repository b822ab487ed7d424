-- ===== src/Links.antt =====
-- kernel/src/list.h: circular doubly linked lists. The memory is the two fields of the node at every
-- address, and each assignment of the source is one `set_next` or `set_prev`, in its order.
pub mod Rings
pub mod Inserts
pub mod Deletes
pub mod Merges
pub mod Middle
mod Tests
use beeos.Prelude.{ℕ, Bool, ◌==◌, if◌then◌else◌}

-- `struct list_link`, of all nodes.
pub record Links : Type 0 where
  pub prev : ℕ → ℕ
  pub next : ℕ → ℕ

abbrev pub set_prev : ℕ → ℕ → Links → Links
set_prev p v h = record h { prev = λ q. if q == p then v else h.prev q }

abbrev pub set_next : ℕ → ℕ → Links → Links
set_next p v h = record h { next = λ q. if q == p then v else h.next q }

unfoldable pub list_init : ℕ → Links → Links
list_init list h = set_prev list list (set_next list list h)

unfoldable pub list_insert_after : ℕ → ℕ → Links → Links
list_insert_after list node h =
    let h1 = set_next node (h.next list) h in
    let h2 = set_prev node list h1 in
    let h3 = set_prev (h2.next list) node h2 in set_next list node h3

unfoldable pub list_insert_before : ℕ → ℕ → Links → Links
list_insert_before list node h =
    let h1 = set_next node list h in
    let h2 = set_prev node (h1.prev list) h1 in
    let h3 = set_next (h2.prev list) node h2 in set_prev list node h3

unfoldable pub list_delete : ℕ → Links → Links
list_delete link h =
    let h1 = set_prev (h.next link) (h.prev link) h in
    let h2 = set_next (h1.prev link) (h1.next link) h1 in
    let h3 = set_next link link h2 in set_prev link link h3

pub list_merge : ℕ → ℕ → Links → Links
list_merge list1 list2 h =
    let h1 = set_next (h.prev list1) list2 h in
    let h2 = set_next (h1.prev list2) list1 h1 in
    let tmp = h2.prev list1 in let h3 = set_prev list1 (h2.prev list2) h2 in set_prev list2 tmp h3

unfoldable pub list_empty : ℕ → Links → Bool
list_empty link h = h.next link == link
