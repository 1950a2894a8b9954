-- ===== src/Klib/LinkedList.antt =====
-- klib/list.h: circular doubly linked lists, threaded through nodes that their owners hold. A node is
-- its address, and memory is one array for each of the two fields.
pub mod Ring
pub mod Insert
pub mod Delete
mod Tests
use benmosh_os.Prelude.{ℕ, Bool, Option, none, some, ◌||◌, not, ◌==◌, if◌then◌else◌, update}

pub record Links : Type 0 where
  pub next : ℕ → ℕ
  pub prev : ℕ → ℕ

abbrev pub set_next : ℕ → ℕ → Links → Links
set_next p q l = record l { next = update l.next p q }

abbrev pub set_prev : ℕ → ℕ → Links → Links
set_prev p q l = record l { prev = update l.prev p q }

pub list_init : ℕ → Links → Links
list_init head l = set_prev head head (set_next head head l)

-- `__list_add`
pub add_between : ℕ → ℕ → ℕ → Links → Links
add_between new_node prev next l =
    set_next prev new_node
      (set_prev new_node prev (set_next new_node next (set_prev next new_node l)))

pub list_add_tail : ℕ → ℕ → Links → Links
unfolding add_between
list_add_tail new_node head l = add_between new_node (l.prev head) head l

pub list_add : ℕ → ℕ → Links → Links
unfolding add_between
list_add new_node head l = add_between new_node head (l.next head) l

-- The writes of `list_del`, each through the memory that the last one left.
pub unlink : ℕ → Links → Links
unlink entry l =
    let l1 = set_next (l.prev entry) (l.next entry) l in
    let l2 = set_prev (l1.next entry) (l1.prev entry) l1 in set_prev entry 0 (set_next entry 0 l2)

-- `none` is the kernel panic on tampered pointers.
pub list_del : ℕ → Links → Option Links
unfolding unlink
list_del entry l =
    if not (l.prev (l.next entry) == entry) || not (l.next (l.prev entry) == entry)
    then none
    else some (unlink entry l)

pub list_empty : ℕ → Links → Bool
list_empty head l = l.next head == head
