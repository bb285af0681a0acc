-- ===== src/Reference.antt =====
-- reference/tm.c with reference/shared-lock.c: a transactional memory under one readers-writer lock.
-- A `struct segment_node` at `sn` is two words, `prev` at `sn` and `next` at `sn + 8`; the one field of
-- `struct region` that changes, `allocs`, is a word at its place in the struct. `pthread_rwlock_t` is a
-- parameter.
pub mod Destroy
use cs453_2025_project.Prelude.{
  ℕ, zero, suc, ◌+◌, ◌-◌, ◌*◌, ◌/◌, ◌%◌, ◌^◌, Bool, true, false, Option, none, some, ◌==◌, ltb,
  if◌then◌else◌,
}
use cs453_2025_project.Machine.{
  Ptr, null, Prog, ret, fault, out_of_fuel, do_action, clear_words, read_word, write_word, malloc,
  memalign, free, ◌>>=◌, ◌>>◌,
}
use cs453_2025_project.Tm.{AllocT, success_alloc, nomem_alloc}

-- The calls of pthread.h on a lock at an address, with their codes.
pub record Rwlock : Type 0 where
  pub init : Ptr → Prog ℕ
  pub destroy : Ptr → Prog ℕ
  pub wrlock : Ptr → Prog ℕ
  pub rdlock : Ptr → Prog ℕ
  pub unlock : Ptr → Prog ℕ

-- `struct region`, with its address; the lock stands first.
pub record Region : Type 0 where
  pub address : Ptr
  pub start : Ptr
  pub size : ℕ
  pub align : ℕ

abbrev pub sizeof_rwlock : ℕ
sizeof_rwlock = 56

abbrev pub sizeof_region : ℕ
sizeof_region = sizeof_rwlock + 32

abbrev pub sizeof_segment_node : ℕ
sizeof_segment_node = 16

abbrev pub allocs : Ptr → Ptr
allocs region = region + sizeof_rwlock + 8

abbrev pub prev : Ptr → Ptr
prev sn = sn

abbrev pub next : Ptr → Ptr
next sn = sn + 8

abbrev pub invalid_tx : ℕ
invalid_tx = 2 ^ 64 - 1

abbrev pub read_only_tx : ℕ
read_only_tx = 2 ^ 64 - 1 - 10

abbrev pub read_write_tx : ℕ
read_write_tx = 2 ^ 64 - 1 - 11

abbrev pub free_block : Ptr → Prog (Unit {0})
free_block p = do_action (free p)

-- `while (region->allocs)`, for a number of rounds
unfoldable pub free_allocs : ℕ → Ptr → Prog (Unit {0})
free_allocs zero region = out_of_fuel
free_allocs (suc rounds) region = do
  let again = free_allocs rounds region
  first ← do_action (read_word (allocs region))
  if first == null then ret tt else do
    tail ← do_action (read_word (next first))
    free_block first
    do_action (write_word (allocs region) tail)
    again

module _ (rwlock : Rwlock) where
  unfoldable pub shared_lock_init : Ptr → Prog Bool
  shared_lock_init lock = do code ← rwlock.init lock; ret (code == 0)

  unfoldable pub shared_lock_cleanup : Ptr → Prog (Unit {0})
  shared_lock_cleanup lock = do _ ← rwlock.destroy lock; ret tt

  unfoldable pub shared_lock_acquire : Ptr → Prog Bool
  shared_lock_acquire lock = do code ← rwlock.wrlock lock; ret (code == 0)

  unfoldable pub shared_lock_release : Ptr → Prog (Unit {0})
  shared_lock_release lock = do _ ← rwlock.unlock lock; ret tt

  unfoldable pub shared_lock_acquire_shared : Ptr → Prog Bool
  shared_lock_acquire_shared lock = do code ← rwlock.rdlock lock; ret (code == 0)

  unfoldable pub shared_lock_release_shared : Ptr → Prog (Unit {0})
  shared_lock_release_shared lock = do _ ← rwlock.unlock lock; ret tt

  -- From the initialisation of the lock on.
  unfoldable pub create_lock : ℕ → ℕ → Ptr → Ptr → Prog (Option Region)
  unfolding shared_lock_init
  create_lock size align region start = do
    ready ← shared_lock_init region
    if ready
        then (do
          do_action (clear_words start size)
          do_action (write_word (allocs region) null)
          ret (some (record { address = region; start = start; size = size; align = align })))
        else (do free_block start; free_block region; ret none)

  -- `none` is `invalid_shared`.
  unfoldable pub tm_create : ℕ → ℕ → Prog (Option Region)
  unfolding create_lock
  tm_create size align = do
    region_block ← do_action (malloc sizeof_region)
    elim region_block [
      | none ↦ ret none
      | some region ↦ do
        start_block ← do_action (memalign align size)
        elim start_block [
          | none ↦ do free_block region; ret none
          | some start ↦ create_lock size align region start
        ]
    ]

  unfoldable pub tm_destroy : ℕ → Region → Prog (Unit {0})
  unfolding free_allocs shared_lock_cleanup
  tm_destroy rounds r = do
    free_allocs rounds r.address
    free_block r.start
    shared_lock_cleanup r.address
    free_block r.address

  unfoldable pub tm_begin : Region → Bool → Prog ℕ
  unfolding shared_lock_acquire_shared shared_lock_acquire
  tm_begin r is_ro =
      if is_ro
      then (do
        got ← shared_lock_acquire_shared r.address
        ret (if got then read_only_tx else invalid_tx))
      else (do got ← shared_lock_acquire r.address; ret (if got then read_write_tx else invalid_tx))

  unfoldable pub tm_end : Region → ℕ → Prog Bool
  unfolding shared_lock_release_shared shared_lock_release
  tm_end r tx =
      if tx == read_only_tx
      then (do shared_lock_release_shared r.address; ret true)
      else (do shared_lock_release r.address; ret true)

unfoldable pub tm_start : Region → Ptr
tm_start r = r.start

unfoldable pub tm_size : Region → ℕ
tm_size r = r.size

unfoldable pub tm_align : Region → ℕ
tm_align r = r.align

-- `if (p) p->prev = v`
abbrev pub link_back : Ptr → Ptr → Prog (Unit {0})
link_back p v = if p == null then ret tt else do_action (write_word (prev p) v)

-- `posix_memalign` answers 0 and an address, or another code.
unfoldable pub tm_alloc : Region → ℕ → Ptr → Prog AllocT
tm_alloc r size target = do
  let align = if ltb r.align 8 then 8 else r.align
  block ← do_action (memalign align (sizeof_segment_node + size))
  elim block [
    | none ↦ ret nomem_alloc
    | some sn ↦ do
      do_action (write_word (prev sn) null)
      first ← do_action (read_word (allocs r.address))
      do_action (write_word (next sn) first)
      link_back first sn
      do_action (write_word (allocs r.address) sn)
      do_action (clear_words (sn + sizeof_segment_node) size)
      do_action (write_word target (sn + sizeof_segment_node))
      ret success_alloc
  ]

unfoldable pub tm_free : Region → Ptr → Prog Bool
tm_free r segment = do
  let sn = (segment + 2 ^ 64 - sizeof_segment_node) % 2 ^ 64
  before ← do_action (read_word (prev sn))
  after ← do_action (read_word (next sn))
  do_action (write_word (if before == null then allocs r.address else next before) after)
  link_back after before
  free_block sn
  ret true

-- `memcpy` of words of the region, one after the other.
unfoldable pub copy_words : ℕ → ℕ → Ptr → Ptr → Prog (Unit {0})
copy_words zero align source target = ret tt
copy_words (suc n) align source target = do
  v ← do_action (read_word source)
  do_action (write_word target v)
  copy_words n align (source + align) (target + align)

-- A size is a multiple of the alignment, as tm.h asks.
unfoldable pub tm_read : Region → Ptr → ℕ → Ptr → Prog Bool
tm_read r source size target = do copy_words (size / r.align) r.align source target; ret true

unfoldable pub tm_write : Region → Ptr → ℕ → Ptr → Prog Bool
tm_write r source size target = do copy_words (size / r.align) r.align source target; ret true
