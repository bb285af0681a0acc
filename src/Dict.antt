-- ===== src/Dict.antt =====
-- 415640/dict.c: a chained hash table from addresses to `void*` values. A node of a chain is its key
-- and its value; the field `len` is never set. The table's own memory is not followed: `calloc` and
-- `malloc` are taken to succeed, as the code does, and `dic_delete` leaves nothing behind.
-- `value` points into the node that was found or made last; it is the key of that node.
pub mod Chain
pub mod Table
pub mod Placed
pub mod Resize
pub mod Add
pub mod Put
pub mod Each
use cs453_2025_project.Prelude.{
  ℕ, zero, suc, ◌+◌, ◌*◌, ◌/◌, ◌%◌, ◌^◌, Bool, true, false, Option, none, some, List, [], ◌∷◌, ◌==◌,
  ltb, if◌then◌else◌, bit_xor, replicate, get_or, set,
}
use cs453_2025_project.Machine.{Ptr, null, Prog, ret, fault, ◌>>=◌, int_mod}

-- A product in `uintptr_t`.
abbrev pub word_mod : ℕ
word_mod = 2 ^ 64

abbrev pub xor_shift : ℕ → ℕ → ℕ
xor_shift val k = bit_xor val (val / 2 ^ k)

unfoldable pub hash_pointer : Ptr → ℕ
hash_pointer ptr =
    let v0 = ptr / 2 ^ 3 in
    let v1 = xor_shift v0 16 * 0x85ebca6b % word_mod in
    let v2 = xor_shift v1 13 * 0xc2b2ae35 % word_mod in xor_shift v2 16 % int_mod

abbrev pub Entry : Type 0
Entry = Ptr × Ptr

abbrev pub Chain : Type 0
Chain = List Entry

pub record Dictionary : Type 0 where
  pub table : List Chain
  pub width : ℕ
  pub count : ℕ
  pub value : Option Ptr

unfoldable pub slot : Ptr → ℕ → ℕ
slot key width = hash_pointer key % width

unfoldable pub dic_new : ℕ → Dictionary
dic_new initial_size =
    let size = if initial_size == 0 then 1024 else initial_size in
    record { table = replicate size []; width = size; count = 0; value = none }

-- The loop over a chain of `dic_add` and `dic_find`: the value of the first node with this key.
unfoldable pub find_in : Ptr → Chain → Option Ptr
find_in key [] = none
find_in key ((k, v) ∷ c) = if k == key then some v else find_in key c

abbrev pub chain_of : Dictionary → Ptr → Chain
chain_of d key = get_or d.table (slot key d.width) []

-- A node put at the head of the chain of its key.
unfoldable pub push_node : Dictionary → Entry → Dictionary
push_node d e = record d {
  table = set d.table (slot e.0 d.width) (e ∷ chain_of d e.0);
  value = some e.0;
}

-- Both branches of the code make the node the head of its chain.
unfoldable pub dic_reinsert_when_resizing : Dictionary → Entry → Dictionary
unfolding push_node
dic_reinsert_when_resizing d e = push_node d e

-- `while (k)` over one old chain
unfoldable pub reinsert_chain : Dictionary → Chain → Dictionary
unfolding dic_reinsert_when_resizing
reinsert_chain d [] = d
reinsert_chain d (e ∷ c) = reinsert_chain (dic_reinsert_when_resizing d e) c

unfoldable pub reinsert_all : Dictionary → List Chain → Dictionary
unfolding reinsert_chain
reinsert_all d [] = d
reinsert_all d (c ∷ cs) = reinsert_all (reinsert_chain d c) cs

unfoldable pub dic_resize : Dictionary → ℕ → Dictionary
unfolding reinsert_all
dic_resize d newsize =
    reinsert_all (record d { table = replicate newsize []; width = newsize }) d.table

-- `(double)count / (double)length > 0.5`: the quotient of two `int`s differs from one half by more
-- than the rounding of a double.
abbrev pub overloaded : Dictionary → Bool
overloaded d = ltb d.width (2 * d.count)

abbrev pub growth_factor : ℕ
growth_factor = 20

-- What an `int` does not reach; a length or a count that does is undefined in C.
abbrev pub int_end : ℕ
int_end = 2 ^ 31

-- A new node with NULL as its value.
abbrev pub add_node : Dictionary → Ptr → Option (Dictionary × ℕ)
add_node d key =
    if ltb (d.count + 1) int_end
    then some (push_node (record d { count = d.count + 1 }) (key, null), 0)
    else none

-- `dic_add` with a bound on the times that it calls itself; `none` is one call too many, or a length
-- or count that is no `int`.
unfoldable pub add_rounds : ℕ → Dictionary → Ptr → Option (Dictionary × ℕ)
unfolding dic_resize push_node find_in
add_rounds zero d key = none
add_rounds (suc rounds) d key =
    let newsize = d.width * growth_factor in
    let again = add_rounds rounds (dic_resize d newsize) key in
    elim (chain_of d key) [
      | [] ↦ if overloaded d then (if ltb newsize int_end then again else none) else add_node d key
      | _ ∷ _ ↦ elim (find_in key (chain_of d key)) [
        | some v ↦ some (record d { value = some key }, 1)
        | none ↦ add_node d key
      ]
    ]

abbrev pub or_fault : Option (Dictionary × ℕ) → Prog (Dictionary × ℕ)
or_fault none = fault
or_fault (some r) = ret r

-- It calls itself at most once more than there are keys, as `dic_add-Added` shows.
unfoldable pub dic_add : Dictionary → Ptr → Prog (Dictionary × ℕ)
unfolding add_rounds
dic_add d key = or_fault (add_rounds (suc d.count) d key)

unfoldable pub dic_find : Dictionary → Ptr → Dictionary × Bool
unfolding find_in
dic_find d key = elim (find_in key (chain_of d key)) [
  | some v ↦ (record d { value = some key }, true)
  | none ↦ (d, false)
]

-- `*dic->value`
unfoldable pub read_value : Dictionary → Option Ptr
unfolding find_in
read_value d = elim d.value [ none ↦ none | some key ↦ find_in key (chain_of d key) ]

unfoldable pub assign : Ptr → Ptr → Chain → Chain
assign key v [] = []
assign key v ((k, u) ∷ c) = if k == key then (k, v) ∷ c else (k, u) ∷ assign key v c

-- `*dic->value = v`; `none` if the pointer was never set.
unfoldable pub write_value : Dictionary → Ptr → Option Dictionary
unfolding assign
write_value d v = elim d.value [
  | none ↦ none
  | some key ↦
      some (record d { table = set d.table (slot key d.width) (assign key v (chain_of d key)) })
]

-- `enumFunc`: whether to go on, and what the callback did to `user`.
abbrev pub EnumFunc : Type 0 → Type 0
EnumFunc S = Ptr → Ptr → S → Prog (Bool × S)

module _ {S : Type 0} (f : EnumFunc S) where
  -- The inner loop; whether the callback never asked to stop.
  unfoldable pub for_chain : Chain → S → Prog (Bool × S)
  for_chain [] user = ret (true, user)
  for_chain ((k, v) ∷ c) user = do
    (go, user') ← f k v user
    if go then for_chain c user' else ret (false, user')

  unfoldable pub for_table : List Chain → S → Prog S
  unfolding for_chain
  for_table [] user = ret user
  for_table (c ∷ cs) user = do
    (go, user') ← for_chain c user
    if go then for_table cs user' else ret user'

  unfoldable pub dic_for_each : Dictionary → S → Prog S
  unfolding for_table
  dic_for_each d user = for_table d.table user
