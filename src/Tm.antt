-- ===== src/Tm.antt =====
-- 415640/tm.c: the operations of the transactional memory. `rounds` bounds the waiting for the lock
-- of the list of segments and the loops over linked lists.
pub mod RollBack
use cs453_2025_project.Prelude.{
  ℕ, zero, suc, ◌+◌, ◌-◌, ◌*◌, ◌/◌, ◌%◌, ◌^◌, Bool, true, false, not, ◌&&◌, ◌||◌, Option, none,
  some, ◌==◌, ltb, if◌then◌else◌, bit_and,
}
use cs453_2025_project.Machine.{
  Ptr, null, or_null, Prog, ret, fault, do_action, atomic_load, atomic_store, fetch_add,
  clear_atoms, clear_words, write_word, malloc, memalign, int_mod, ◌>>=◌, ◌>>◌,
}
use cs453_2025_project.VersionLock.{lock_check}
use cs453_2025_project.Dict.{Dictionary, dic_new, dic_add, dic_find, dic_for_each}
use cs453_2025_project.LinkedList.{ll_init, ll_append, ll_concat_safe, ll_destroy_nested}
use cs453_2025_project.Transaction.{
  Region, Transaction, lock_array_size, sizeof_lock, lock_get_from_pointer, memcpy, free_block,
  set_value, get_value, unique_lock_create, lock_unique_lock_set, unlock_unique_lock_set_until,
  validate_reading_set, write_writing_set, update_unique_lock_set, tx_destroy,
}

abbrev pub sizeof_ll : ℕ
sizeof_ll = 32

abbrev pub sizeof_region : ℕ
sizeof_region = 48

abbrev pub sizeof_tx : ℕ
sizeof_tx = 40

abbrev pub sizeof_ri : ℕ
sizeof_ri = 24

-- `(align > 0) && !(align & (align - 1))`
unfoldable pub align_ok : ℕ → Bool
align_ok align = ltb 0 align && bit_and align (align - 1) == 0

-- `size % align != 0 || (size >> 48) > 0`
unfoldable pub size_bad : ℕ → ℕ → Bool
size_bad size align = not (size % align == 0) || ltb 0 (size / 2 ^ 48)

-- From the allocation of the lock array on.
unfoldable pub create_locks : ℕ → ℕ → Ptr → Ptr → Ptr → Prog (Option Region)
create_locks size align segments first_segment region = do
  lock_block ← do_action (malloc (sizeof_lock * lock_array_size))
  elim lock_block [
    | none ↦ do free_block region; free_block first_segment; free_block segments; ret none
    | some locks ↦ do
      do_action (clear_atoms locks (sizeof_lock * lock_array_size))
      _ ← ll_append segments first_segment
      do_action (atomic_store region 0)
      ret (
          some (record {
            global_version = region;
            start = first_segment;
            size = size;
            align = align;
            locks = locks;
            segments = segments;
          }))
  ]

-- From the allocation of the first segment on.
unfoldable pub create_segment : ℕ → ℕ → Ptr → Prog (Option Region)
unfolding create_locks
create_segment size align segments = do
  segment_block ← do_action (memalign align size)
  elim segment_block [
    | none ↦ do free_block segments; ret none
    | some first_segment ↦ do
      do_action (clear_words first_segment size)
      region_block ← do_action (malloc sizeof_region)
      elim region_block [
        | none ↦ do free_block first_segment; free_block segments; ret none
        | some region ↦ create_locks size align segments first_segment region
      ]
  ]

-- `none` is `invalid_shared`. On NULL `ll_init` answers false.
unfoldable pub tm_create : ℕ → ℕ → Prog (Option Region)
unfolding align_ok size_bad create_segment
tm_create size align =
    if not (align_ok align) then ret none else if size_bad size align then ret none else do
      list_block ← do_action (malloc sizeof_ll)
      let segments = or_null list_block
      ready ← ll_init segments
      if ready then create_segment size align segments else ret none

unfoldable pub tm_destroy : ℕ → Region → Prog (Unit {0})
tm_destroy rounds r = do
  ll_destroy_nested rounds r.segments (some free_block)
  free_block r.locks
  free_block r.global_version

unfoldable pub tm_start : Region → Ptr
tm_start r = r.start

unfoldable pub tm_size : Region → ℕ
tm_size r = r.size

unfoldable pub tm_align : Region → ℕ
tm_align r = r.align

-- The transaction at the address that malloc gave. The list of allocations is NULL if there was no
-- memory for it.
unfoldable pub begin_at : Region → Bool → Ptr → Prog (Option Transaction)
begin_at r is_ro tx = do
  version ← do_action (atomic_load r.global_version)
  list_block ← do_action (malloc sizeof_ll)
  let alloc_set = or_null list_block
  _ ← ll_init alloc_set
  ret (
      some (record {
        address = tx;
        read_version = version;
        write_version = 0;
        read_only = is_ro;
        read_set = dic_new 0;
        write_set = dic_new 0;
        alloc_set = alloc_set;
      }))

-- `none` is `invalid_tx`.
unfoldable pub tm_begin : Region → Bool → Prog (Option Transaction)
tm_begin r is_ro = do
  tx_block ← do_action (malloc sizeof_tx)
  elim tx_block [ none ↦ ret none | some tx ↦ begin_at r is_ro tx ]

-- The last part of `tm_end`: the writes, the release of the locks with the new version, and the new
-- segments handed over.
unfoldable pub publish : ℕ → Region → Transaction → Dictionary → Ptr → ℕ → Prog Bool
publish rounds r tx unique_locks ri write_version = do
  dic_for_each write_writing_set tx.write_set tt
  dic_for_each (update_unique_lock_set write_version) unique_locks tt
  _ ← ll_concat_safe rounds r.segments tx.alloc_set
  free_block ri
  tx_destroy rounds tx true
  ret true

-- Every lock given back up to `until` (NULL: all of them), and the transaction ended.
unfoldable pub roll_back : ℕ → Transaction → Dictionary → Ptr → Ptr → Prog Bool
roll_back rounds tx unique_locks ri until = do
  _ ← dic_for_each unlock_unique_lock_set_until unique_locks until
  free_block ri
  tx_destroy rounds tx false
  ret false

-- From the increment of the global version on, with all locks held.
unfoldable pub validate_and_publish : ℕ → Region → Transaction → Dictionary → Ptr → Prog Bool
unfolding publish roll_back
validate_and_publish rounds r tx unique_locks ri = do
  previous ← do_action (fetch_add r.global_version 2)
  let write_version = (previous + 2) % int_mod
  if write_version == (tx.read_version + 2) % int_mod
      then publish rounds r tx unique_locks ri write_version
      else (do
        (ws, valid) ←
            dic_for_each (validate_reading_set r tx.read_version) tx.read_set (tx.write_set, true)
        let checked = record tx { write_set = ws }
        if valid
            then publish rounds r checked unique_locks ri write_version
            else roll_back rounds checked unique_locks ri null)

-- The locks of the write set, each once, are taken in the order of their dictionary.
unfoldable pub commit : ℕ → Region → Transaction → Ptr → Prog Bool
unfolding validate_and_publish roll_back
commit rounds r tx ri = do
  unique_locks ← dic_for_each (unique_lock_create r) tx.write_set (dic_new 0)
  failed ← dic_for_each lock_unique_lock_set unique_locks null
  if failed == null
      then validate_and_publish rounds r tx unique_locks ri
      else roll_back rounds tx unique_locks ri failed

unfoldable pub tm_end : ℕ → Region → Transaction → Prog Bool
unfolding commit
tm_end rounds r tx = if tx.read_only then (do tx_destroy rounds tx true; ret true) else do
  ri_block ← do_action (malloc sizeof_ri)
  elim ri_block [
    | none ↦ do tx_destroy rounds tx false; ret false
    | some ri ↦ commit rounds r tx ri
  ]

-- The word that is read: the buffer of the write set, if the transaction wrote it.
unfoldable pub read_source : Transaction → Ptr → Prog (Transaction × Ptr)
read_source tx source = if tx.read_only then ret (tx, source) else do
  (read_set, res) ← dic_add tx.read_set source
  let (write_set, written) = dic_find tx.write_set source
  let tx' = record tx { read_set = read_set; write_set = write_set }
  if written then (do buffer ← get_value write_set; ret (tx', buffer)) else ret (tx', source)

-- The transaction ends; the call answers false.
unfoldable pub abort_read : ℕ → Transaction → Prog (Option Transaction)
abort_read rounds tx = do tx_destroy rounds tx false; ret none

-- From the second check of the lock on, with the word that `read_source` chose.
unfoldable pub read_copy : ℕ → Ptr → Ptr → Transaction × Ptr → Prog (Option Transaction)
unfolding abort_read
read_copy rounds lock target (tx, from) = do
  after ← lock_check lock tx.read_version
  if not after then abort_read rounds tx else do memcpy target from; ret (some tx)

-- One round of the loop of `tm_read`; `none` if the transaction was aborted.
unfoldable pub read_one : ℕ → Region → Transaction → Ptr → Ptr → Prog (Option Transaction)
unfolding read_source read_copy abort_read
read_one rounds r tx source target = do
  let lock = lock_get_from_pointer r source
  before ← lock_check lock tx.read_version
  if not before
      then abort_read rounds tx
      else do chosen ← read_source tx source; read_copy rounds lock target chosen

-- The rounds of `tm_read` from `i` on.
unfoldable pub read_words : ℕ → Region → ℕ → ℕ → Transaction → Ptr → Ptr → Prog (Option Transaction)
unfolding read_one
read_words rounds r zero i tx source target = ret (some tx)
read_words rounds r (suc n) i tx source target = do
  step ← read_one rounds r tx (source + i * r.align) (target + i * r.align)
  elim step [ none ↦ ret none | some tx' ↦ read_words rounds r n (i + 1) tx' source target ]

unfoldable pub tm_read : ℕ → Region → Transaction → Ptr → ℕ → Ptr → Prog (Option Transaction)
unfolding read_words
tm_read rounds r tx source size target =
    if r.align == 0 then fault else read_words rounds r (size / r.align) 0 tx source target

-- One round of the loop of `tm_write`; without memory the copy goes to NULL.
unfoldable pub write_one : Region → Transaction → Ptr → Ptr → Prog Transaction
write_one r tx source target = do
  cpy_of_write ← do_action (malloc r.align)
  elim cpy_of_write [
    | none ↦ fault
    | some p ↦ do
      memcpy p source
      (added, res) ← dic_add tx.write_set target
      write_set ← set_value added p
      ret (record tx { write_set = write_set })
  ]

unfoldable pub write_words : Region → ℕ → ℕ → Transaction → Ptr → Ptr → Prog Transaction
unfolding write_one
write_words r zero i tx source target = ret tx
write_words r (suc n) i tx source target = do
  tx' ← write_one r tx (source + i) (target + i)
  write_words r n (i + r.align) tx' source target

-- `size % word_size` is 0 where the loop starts, so it makes `size / word_size` rounds.
unfoldable pub tm_write : ℕ → Region → Transaction → Ptr → ℕ → Ptr → Prog (Option Transaction)
unfolding write_words
tm_write rounds r tx source size target =
    if r.align == 0
    then fault
    else if size % r.align == 0
    then (do tx' ← write_words r (size / r.align) 0 tx source target; ret (some tx'))
    else (do tx_destroy rounds tx false; ret none)

-- `alloc_t`
pub data AllocT : Type 0 where
  success_alloc abort_alloc nomem_alloc : AllocT

-- No transaction is `none`; `posix_memalign` writes the address to `*target`.
unfoldable pub tm_alloc : Region → Option Transaction → ℕ → Ptr → Prog AllocT
unfolding size_bad
tm_alloc r none size target = ret nomem_alloc
tm_alloc r (some tx) size target =
    if target == null
    then ret nomem_alloc
    else if size_bad size r.align
    then ret nomem_alloc
    else do
      block ← do_action (memalign r.align size)
      elim block [
        | none ↦ ret nomem_alloc
        | some p ↦ do
          do_action (write_word target p)
          if p == null then ret nomem_alloc else do
            do_action (clear_words p size)
            _ ← ll_append tx.alloc_set p
            ret success_alloc
      ]

unfoldable pub tm_free : Region → Transaction → Ptr → Bool
tm_free r tx target = true
