-- ===== src/Transaction.antt =====
-- 415640/utils.c with include/tx_t.h, include/shared_t.h and include/params.h: the region, a
-- transaction, the callbacks that `tm_end` hands to `dic_forEach`, and the end of a transaction.
-- A callback takes what it only reads from `region_and_index` as arguments; its state is the field
-- that it changes: `key`, or whether `transaction` is still there.
use cs453_2025_project.Prelude.{
  ℕ, ◌+◌, ◌*◌, ◌%◌, Bool, true, false, none, some, ◌==◌, if◌then◌else◌,
}
use cs453_2025_project.Machine.{
  Ptr, null, Prog, ret, fault, do_action, read_word, write_word, free, ◌>>=◌, ◌>>◌,
}
use cs453_2025_project.VersionLock.{
  lock_try_acquire, lock_release, lock_check, lock_check_version, lock_update_and_release,
}
use cs453_2025_project.Dict.{
  Dictionary, EnumFunc, hash_pointer, dic_add, dic_find, read_value, write_value, dic_for_each,
}
use cs453_2025_project.LinkedList.{ll_destroy, ll_destroy_nested}

-- `shared_rgn`, the fields that never change; the atomic `global_version` stands at its address.
pub record Region : Type 0 where
  pub global_version : Ptr
  pub start : Ptr
  pub size : ℕ
  pub align : ℕ
  pub locks : Ptr
  pub segments : Ptr

-- `transaction_t`, with its address
pub record Transaction : Type 0 where
  pub address : Ptr
  pub read_version : ℕ
  pub write_version : ℕ
  pub read_only : Bool
  pub read_set : Dictionary
  pub write_set : Dictionary
  pub alloc_set : Ptr

abbrev pub lock_array_size : ℕ
lock_array_size = 2097152

abbrev pub sizeof_lock : ℕ
sizeof_lock = 4

-- The same `hash_pointer` as that of the dictionary stands in utils.c once more.
unfoldable pub lock_get_from_pointer : Region → Ptr → Ptr
lock_get_from_pointer r ptr = r.locks + hash_pointer ptr % lock_array_size * sizeof_lock

-- `memcpy (dst, src, align)`: one word.
unfoldable pub memcpy : Ptr → Ptr → Prog (Unit {0})
memcpy dst src =
    if src == null then fault else do v ← do_action (read_word src); do_action (write_word dst v)

abbrev pub free_block : Ptr → Prog (Unit {0})
free_block p = do_action (free p)

unfoldable pub nested_free_value_dict : EnumFunc (Unit {0})
nested_free_value_dict key value user =
    if value == null then ret (true, tt) else do free_block value; ret (true, tt)

-- What follows a write through `dic->value`; a pointer that was never set is a fault.
abbrev pub set_value : Dictionary → Ptr → Prog Dictionary
set_value d v = elim (write_value d v) [ none ↦ fault | some d' ↦ ret d' ]

abbrev pub get_value : Dictionary → Prog Ptr
get_value d = elim (read_value d) [ none ↦ fault | some v ↦ ret v ]

unfoldable pub add_from_dict : EnumFunc Dictionary
add_from_dict key value dict = do
  (added, res_add) ← dic_add dict key
  if res_add == 1 then ret (true, added) else do dict' ← set_value added value; ret (true, dict')

unfoldable pub rm_from_dict : EnumFunc Dictionary
rm_from_dict key value dict =
    let (looked, there) = dic_find dict key in
    if there
    then (do
      (added, res_add) ← dic_add looked key
      v ← get_value added
      free_block v
      free_block key
      dict' ← set_value added null
      ret (true, dict'))
    else ret (true, looked)

unfoldable pub unique_lock_create : Region → EnumFunc Dictionary
unique_lock_create r key value unique_lock_set = do
  (added, res) ← dic_add unique_lock_set (lock_get_from_pointer r key)
  ret (true, added)

unfoldable pub lock_unique_lock_set : EnumFunc Ptr
lock_unique_lock_set lock value ri_key = do
  res_lock ← lock_try_acquire lock
  if res_lock then ret (true, ri_key) else ret (false, lock)

unfoldable pub unlock_unique_lock_set_until : EnumFunc Ptr
unlock_unique_lock_set_until lock value ri_key =
    if ri_key == lock then ret (false, ri_key) else do lock_release lock; ret (true, ri_key)

-- The state is the write set, in which `dic_find` moves `value`, and whether `ri->transaction` is
-- still there.
unfoldable pub validate_reading_set : Region → ℕ → EnumFunc (Dictionary × Bool)
validate_reading_set r read_version key value (ws, valid) = do
  let lock = lock_get_from_pointer r key
  let (ws', written) = dic_find ws key
  res ← if written then lock_check_version lock read_version else lock_check lock read_version
  if res then ret (true, (ws', valid)) else ret (false, (ws', false))

unfoldable pub write_writing_set : EnumFunc (Unit {0})
write_writing_set key value user = do memcpy key value; ret (true, tt)

unfoldable pub update_unique_lock_set : ℕ → EnumFunc (Unit {0})
update_unique_lock_set write_version lock value user = do
  lock_update_and_release lock write_version
  ret (true, tt)

-- The nodes and the table that `dic_delete` frees are not followed.
unfoldable pub dic_nested_destroy : Dictionary → Prog (Unit {0})
dic_nested_destroy d = dic_for_each nested_free_value_dict d tt

unfoldable pub tx_destroy : ℕ → Transaction → Bool → Prog (Unit {0})
tx_destroy rounds tx committed = do
  dic_nested_destroy tx.write_set
  if committed
      then ll_destroy rounds tx.alloc_set
      else ll_destroy_nested rounds tx.alloc_set (some free_block)
  free_block tx.address
