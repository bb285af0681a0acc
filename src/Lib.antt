-- ===== src/Lib.antt =====
-- A software transactional memory in C (415640/), in the style of TL2: a word of the shared region
-- belongs to one of 2097152 versioned locks, a transaction reads optimistically and buffers its
-- writes, and `tm_end` takes the locks of the words to write, advances the global version by two,
-- validates what was read, and publishes.
--
-- The parts, and the code that each models:
--   Machine        what is under the code: sequentially consistent atomic integers of 32 bits, words of
--                  memory, list nodes, and the allocator, which is a parameter. A program (`Prog`) is
--                  a tree of single accesses with a result, a fault (a dereference of NULL, a division
--                  by zero, a dictionary beyond an `int`) or the end of its rounds. Machine/Run runs it alone; Machine/Threads
--                  interleaves any number of programs, an access at a time, in any order, with
--                  spurious failures of the weak compare-and-exchange.
--   VersionLock    415640/version_types.c: `lock_try_acquire` and the other operations of a lock. Bit 0
--                  is the lock, the rest the version.
--   Dict           415640/dict.c and include/dict.h: the hash table of addresses that holds read sets,
--                  write sets and the locks of a commit. `dic->value` is a cursor, the key whose value
--                  it points at. Dict/Chain, Dict/Table and Dict/Placed say where keys are; Dict/Resize,
--                  Dict/Add, Dict/Put and Dict/Each are about the operations.
--   LinkedList     415640/ll.c and include/ll.h: the lists of segments and of new segments, as nodes on
--                  the heap, under a lock where the code takes one (`ll_append_safe`, `ll_concat_safe`).
--   Transaction    415640/utils.c, include/shared_t.h, include/tx_t.h, include/params.h: the region, a
--                  transaction, the callbacks of `dic_forEach`, `tx_destroy`.
--   Tm             415640/tm.c and include/tm.h: `tm_create`, `tm_destroy`, `tm_start`, `tm_size`,
--                  `tm_align`, `tm_begin`, `tm_end`, `tm_read`, `tm_write`, `tm_alloc`, `tm_free`.
--                  Tm/RollBack runs the loops over the locks of a commit.
--   Discipline     what a thread may do to locks, version and shared words while others run. The
--                  code is followed through Rules, Lists, Locks, Unique, Loops, Commit and Session;
--                  Invariant and Safety draw the consequences for all interleavings, and
--                  Discipline/Transactions states them for threads that run `tm_begin`, any reads and
--                  writes, and `tm_end`.
--   Reference      reference/tm.c and reference/shared-lock.c: the memory under one readers-writer lock,
--                  which is a parameter, with its doubly linked list of segments as words of memory.
--                  Reference/Destroy is about `tm_destroy`.
--   Template       template/tm.c: the skeleton that a solution starts from.
--   SyncExamples   sync-examples/: counter1.c to counter4.c, election1.c to election4.c, procon1.c,
--                  procon2.c, procon4.c and lock.c. Threads makes a thread a tree of single accesses to the shared
--                  variables and calls of pthread.h, and a system of threads a step relation; a loop is a
--                  label at its head, so a thread may wait for ever and no fuel is needed. Lock is
--                  lock.c, and what POSIX says of the calls. Outline carries an invariant and what each
--                  thread knows through every interleaving; Status says what can hold a thread up,
--                  and Quiet is about programs that never sleep.
--                  Counting, Election and Procon are what the programs of a kind share, and a program of
--                  the source is the module of its name, with its proofs below it.
--   Grading        grading/transactional.hpp and grading/workload.hpp. Library is the library that a
--                  grader loads, a parameter, with what include/tm.h promises of it to one thread
--                  (`IsSerial`) as a hypothesis. Transaction is a closure as a tree of calls, the
--                  constructor and the destructor around it, and the loop of `transactional`;
--                  Ensures says what a closure does to the memory that it sees, and Steady is
--                  about a library that aborts nothing. Bank is `AccountSegment` and the
--                  transactions of `WorkloadBank`; below it, Layout and Invariant say when a bank is in
--                  order, Long and Control are about `long_tx`, Account, Transfer and Chosen
--                  about `short_tx`, Changed, Segments, Alters and Allocate about `alloc_tx`, and Init about
--                  `init`. Workload is `init`, `run` and the transactions with their loops, Short is about
--                  `short_tx`. In Bank a transaction is its closure (`long_closure`, `alloc_closure`,
--                  `short_closure`).
--   Tests          a small region and allocator, interleavings of two transactions, a concrete lock,
--                  schedules of the examples, and the theorems at concrete inputs.
--
-- Correspondence. A C function is the definition of its name; a part of one has a name of its own
-- (`commit`, `publish`, `roll_back`, `validate_and_publish` are parts of `tm_end`; `begin_at` of
-- `tm_begin`; `read_one` and `write_one` a round of a loop). A callback's `user` is the state that the
-- model's callback takes and returns; the constant part of it is an argument. `NULL` is 0. Sizes are
-- below 2 ^ 64 and locks are the patterns of 32-bit integers, with the wrap-around written out.
--
-- Bounds. `rounds` bounds the wait for the lock of a list and the walks along lists; a program that
-- needs more ends as `out_of_fuel`. The interleavings are taken for every `rounds`. `dic_add` calls
-- itself after a resize, at most once more than there are keys, since a table that has grown
-- twentyfold has a smaller load. A length or a count of a dictionary that is no `int`, which is
-- undefined in C, ends a program as a fault; with fewer than 53687092 keys there is none, and the
-- theorems about transactions cover what threads do before a fault. The number of accesses of an
-- interleaving is bounded so that the global version, which each commit advances by two, does not
-- reach 2 ^ 32, or 2 ^ 31 where versions are compared. The copies of reference/tm.c are made word
-- by word, for sizes that are multiples of the alignment, as include/tm.h asks.
--
-- In SyncExamples, `RUNS`, `DATA_TEXT_SIZE` and the answers of `rand` are parameters, with the values
-- of the source as bounds where a counter could wrap around. `produced_until++` and `counter++` on a
-- plain `int` are a load and a store; `printf` is dropped, except for what `main` prints at the end,
-- and the threads of `main` are there from its first step. A call of pthread.h answers a code, or the
-- caller waits; `pthread_cond_wait` is a sleep and a return, and a sleeping thread may wake up for no
-- reason.
--
-- In Grading, `size_t` and a balance are patterns of 64 bits, `assert_mode` is off, the walks along the
-- segments run on fuel, for which two more than there are segments is enough, and `transactional` on
-- rounds, as does the loop of `run` around `short_tx`. A closure may assign to the variables that it
-- captured by reference, and an attempt that fails leaves them as they are. The random engine is a
-- parameter, and the arguments of `short_tx` are drawn from left to right. A word that a transaction
-- reads or writes has eight bytes, and the address of a word is a number.
--
-- Assumed of what is not here: a block that the allocator gives out overlaps neither the locks, the
-- global version nor a shared word, and a client reads into private memory. The shared words are any
-- set of addresses that does not change during the run; a transaction of the interleavings reads and
-- writes, and does not call `tm_alloc`.
--
-- Not modelled: the memory of the dictionaries themselves (calloc of tables and nodes), weak memory
-- orders, and so sync-examples/procon3.c, which stands on them, the printing of debug output, the
-- test program 415640/test_tm.c; `check` of grading/workload.hpp, whose threads meet at barriers,
-- several workers of the bank at once, and the loading of a library; the other programs of the
-- repository (reference/lock.c, grading/grading.cpp and grading/common.hpp, playground/,
-- submit.py).
pub mod Prelude
pub mod Machine
pub mod VersionLock
pub mod Dict
pub mod LinkedList
pub mod Transaction
pub mod Tm
pub mod Discipline
pub mod Reference
pub mod Template
pub mod SyncExamples
pub mod Grading
pub mod Tests
