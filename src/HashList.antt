-- ===== src/HashList.antt =====
-- src_light/hashlist.hh: the circular doubly linked lists of the hash maps, on an explicit store. An
-- address is a number; a node is its address.
pub mod Ring
pub mod Insert
pub mod Remove
use mem_perf_pro.Base.{ℕ, Bool, not, Option, none, some, ◌==◌, if◌then◌else◌, update}

pub record Links : Type 0 where
  pub prev : ℕ → ℕ
  pub next : ℕ → ℕ

-- `node->next = next` and `node->prev = prev`
abbrev pub set_next : Links → ℕ → ℕ → Links
set_next h node to = record h { next = update h.next node to }

abbrev pub set_prev : Links → ℕ → ℕ → Links
set_prev h node to = record h { prev = update h.prev node to }

-- `node->next = node->prev = node`
unfoldable pub node_init : Links → ℕ → Links
node_init h node = set_next (set_prev h node node) node node

unfoldable pub list_init : Links → ℕ → Links
unfolding node_init
list_init h node = node_init h node

unfoldable pub is_list_empty : Links → ℕ → Bool
is_list_empty h head = h.next head == head

unfoldable pub tail_list : Links → ℕ → Option ℕ
unfolding is_list_empty
tail_list h head = if not (is_list_empty h head) then some (h.prev head) else none

unfoldable pub insert_between : Links → ℕ → ℕ → ℕ → Links
insert_between h node prev next =
    set_prev (set_next (set_prev (set_next h node next) node prev) prev node) next node

unfoldable pub list_insert_node : Links → ℕ → ℕ → Links
unfolding insert_between
list_insert_node h node prev = insert_between h node prev (h.next prev)

unfoldable pub list_insert_tail : Links → ℕ → ℕ → Links
unfolding insert_between
list_insert_tail h node head = insert_between h node (h.prev head) head

unfoldable pub list_update_entry : Links → ℕ → Links
unfolding insert_between
list_update_entry h node = insert_between h node (h.prev node) (h.next node)

unfoldable pub list_insert_head : Links → ℕ → ℕ → Links
unfolding insert_between
list_insert_head h node head = insert_between h node head (h.next head)

unfoldable pub list_link : Links → ℕ → ℕ → Links
list_link h p n = set_prev (set_next h p n) n p

unfoldable pub list_insert_list : Links → ℕ → ℕ → Links
unfolding list_link
list_insert_list h list where_ =
    let h' = list_link h where_ list in list_link h' (h'.prev list) (h'.next where_)

unfoldable pub list_remove_node_only : Links → ℕ → Links
unfolding list_link
list_remove_node_only h node = list_link h (h.prev node) (h.next node)

unfoldable pub list_remove_node : Links → ℕ → Links
unfolding list_link node_init
list_remove_node h node = node_init (list_link h (h.prev node) (h.next node)) node

unfoldable pub is_list_tail : Links → ℕ → ℕ → Bool
is_list_tail h list node = h.prev list == node

-- The first node, which leaves the list.
unfoldable pub list_retrieve_item : Links → ℕ → Links × Option ℕ
unfolding is_list_empty list_remove_node
list_retrieve_item h list =
    if not (is_list_empty h list)
    then (list_remove_node h (h.next list), some (h.next list))
    else (h, none)

unfoldable pub list_retrieve_all_items : Links → ℕ → ℕ → Links
unfolding list_init
list_retrieve_all_items h dest src =
    let first = h.next src in
    let last = h.prev src in
    list_init
      (set_prev (set_next (set_next (set_prev h first dest) last dest) dest first) dest last) src
