-- ===== src/LinkedList.antt =====
-- 415640/ll.c: singly linked lists with a tail pointer, on the machine's list nodes. A loop that
-- follows `next` pointers, and the waiting for a list's lock, are given a number of rounds.
pub mod Links
pub mod Append
use cs453_2025_project.Prelude.{
  ℕ, zero, suc, ◌+◌, ◌-◌, ◌^◌, ◌%◌, Bool, true, false, Option, none, some, ◌==◌, ◌||◌,
  if◌then◌else◌,
}
use cs453_2025_project.Machine.{
  Ptr, null, Node, node, Header, empty_header, Prog, ret, fault, out_of_fuel, do_action,
  atomic_store, read_node, write_node, read_list, write_list, malloc, free, ◌>>=◌, ◌>>◌,
}
use cs453_2025_project.VersionLock.{lock_acquire, lock_release}

-- `&list->lock`
abbrev pub lock_field : Ptr → Ptr
lock_field list = list + 24

abbrev pub size_mod : ℕ
size_mod = 2 ^ 64

abbrev pub sizeof_node : ℕ
sizeof_node = 16

-- One field of `*list` written.
abbrev pub set_head : Ptr → Ptr → Prog (Unit {0})
set_head list p = do
  h ← do_action (read_list list)
  do_action (write_list list (record h { head = p }))

abbrev pub set_tail : Ptr → Ptr → Prog (Unit {0})
set_tail list p = do
  h ← do_action (read_list list)
  do_action (write_list list (record h { tail = p }))

abbrev pub set_size : Ptr → ℕ → Prog (Unit {0})
set_size list n = do
  h ← do_action (read_list list)
  do_action (write_list list (record h { size = n }))

-- `p->next = q`
abbrev pub set_next : Ptr → Ptr → Prog (Unit {0})
set_next p q = do n ← do_action (read_node p); do_action (write_node p (record n { next = q }))

unfoldable pub ll_init : Ptr → Prog Bool
ll_init list = if list == null then ret false else do
  do_action (write_list list empty_header)
  do_action (atomic_store (lock_field list) 0)
  ret true

-- `while (current != NULL)`: the node's item goes to `on_item`, the node is freed.
unfoldable pub free_nodes : (Ptr → Prog (Unit {0})) → ℕ → Ptr → Prog (Unit {0})
free_nodes on_item zero current = if current == null then ret tt else out_of_fuel
free_nodes on_item (suc rounds) current = if current == null then ret tt else do
  n ← do_action (read_node current)
  on_item n.item
  do_action (free current)
  free_nodes on_item rounds n.next

abbrev pub keep_item : Ptr → Prog (Unit {0})
keep_item x = ret tt

unfoldable pub ll_destroy : ℕ → Ptr → Prog (Unit {0})
unfolding free_nodes
ll_destroy rounds list = if list == null then ret tt else do
  h ← do_action (read_list list)
  free_nodes keep_item rounds h.head
  set_head list null
  set_tail list null
  set_size list 0

-- `if (current->data != NULL) destructor(current->data)`
abbrev pub destroy_item : (Ptr → Prog (Unit {0})) → Ptr → Prog (Unit {0})
destroy_item destructor x = if x == null then ret tt else destructor x

unfoldable pub ll_destroy_nested : ℕ → Ptr → Option (Ptr → Prog (Unit {0})) → Prog (Unit {0})
unfolding ll_destroy
ll_destroy_nested rounds list none = if list == null then ret tt else ll_destroy rounds list
ll_destroy_nested rounds list (some destructor) = if list == null then ret tt else do
  h ← do_action (read_list list)
  free_nodes (destroy_item destructor) rounds h.head
  set_head list null
  set_tail list null
  set_size list 0

-- The two ways in which a node becomes the last one.
unfoldable pub link_after : Header → Ptr → Ptr → Prog (Unit {0})
link_after h list p =
    if h.head == null
    then (set_head list p >> set_tail list p)
    else (set_next h.tail p >> set_tail list p)

-- The node `p` put at the end of `*list`.
unfoldable pub link_last : Ptr → Ptr → Prog (Unit {0})
unfolding link_after
link_last list p = do
  h ← do_action (read_list list)
  link_after h list p
  h' ← do_action (read_list list)
  set_size list ((h'.size + 1) % size_mod)

unfoldable pub ll_append : Ptr → Ptr → Prog Bool
unfolding link_last
ll_append list x = if list == null then ret false else do
  new_node ← do_action (malloc sizeof_node)
  elim new_node [
    | none ↦ ret false
    | some p ↦ do do_action (write_node p (node x null)); link_last list p; ret true
  ]

unfoldable pub ll_append_safe : ℕ → Ptr → Ptr → Prog Bool
unfolding link_last lock_acquire lock_release
ll_append_safe rounds list x = if list == null then ret false else do
  lock_acquire rounds (lock_field list)
  new_node ← do_action (malloc sizeof_node)
  elim new_node [
    | none ↦ do lock_release (lock_field list); ret false
    | some p ↦ do
      do_action (write_node p (node x null))
      link_last list p
      lock_release (lock_field list)
      ret true
  ]

-- The part of `ll_concat_safe` between the lock and the release, for a list2 that is not empty.
unfoldable pub splice : Ptr → Ptr → Prog (Unit {0})
splice list1 list2 = do
  h1 ← do_action (read_list list1)
  h2 ← do_action (read_list list2)
  if h1.head == null
      then (set_head list1 h2.head >> set_tail list1 h2.tail >> set_size list1 h2.size)
      else (set_next h1.tail h2.head
          >> set_tail list1 h2.tail
          >> set_size list1 ((h1.size + h2.size) % size_mod))
  set_head list2 null
  set_tail list2 null
  set_size list2 0

unfoldable pub ll_concat_safe : ℕ → Ptr → Ptr → Prog Bool
unfolding lock_acquire lock_release splice
ll_concat_safe rounds list1 list2 =
    if list1 == null || list2 == null then ret false else if list1 == list2 then ret false else do
      lock_acquire rounds (lock_field list1)
      h2 ← do_action (read_list list2)
      if h2.head == null
          then (do lock_release (lock_field list1); ret true)
          else do splice list1 list2; lock_release (lock_field list1); ret true

-- `current` taken out between `prev` and `next`.
unfoldable pub unlink : Ptr → Ptr → Ptr → Ptr → Prog (Unit {0})
unlink list prev current next =
    if prev == null
    then (do
      set_head list next
      h ← do_action (read_list list)
      if h.head == null then set_tail list null else ret tt)
    else (do
      set_next prev next
      h ← do_action (read_list list)
      if current == h.tail then set_tail list prev else ret tt)

-- The loop of `ll_remove` and of `ll_remove_cmp`, which differ in the test.
unfoldable pub remove_loop : (Ptr → Bool) → ℕ → Ptr → Ptr → Ptr → Prog Bool
unfolding unlink
remove_loop same zero list current prev = if current == null then ret false else out_of_fuel
remove_loop same (suc rounds) list current prev = if current == null then ret false else do
  n ← do_action (read_node current)
  if same n.item
      then (do
        unlink list prev current n.next
        do_action (free current)
        h ← do_action (read_list list)
        set_size list ((h.size + size_mod - 1) % size_mod)
        ret true)
      else remove_loop same rounds list n.next current

unfoldable pub ll_remove : ℕ → Ptr → Ptr → Prog Bool
unfolding remove_loop
ll_remove rounds list x = if list == null then ret false else do
  h ← do_action (read_list list)
  if h.head == null then ret false else remove_loop (λ y. y == x) rounds list h.head null

-- `compare` is a callback whose result is 0 on equal items.
unfoldable pub ll_remove_cmp : ℕ → Ptr → Ptr → Option (Ptr → Ptr → ℕ) → Prog Bool
unfolding remove_loop
ll_remove_cmp rounds list x none = ret false
ll_remove_cmp rounds list x (some compare_items) = if list == null then ret false else do
  h ← do_action (read_list list)
  if h.head == null
      then ret false
      else remove_loop (λ y. compare_items y x == 0) rounds list h.head null

unfoldable pub ll_size : Ptr → Prog ℕ
ll_size list = if list == null then ret 0 else do h ← do_action (read_list list); ret h.size

unfoldable pub ll_is_empty : Ptr → Prog Bool
ll_is_empty list =
    if list == null then ret true else do h ← do_action (read_list list); ret (h.size == 0)
