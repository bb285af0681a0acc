-- ===== src/SyncExamples/Procon2.antt =====
-- sync-examples/procon2.c: both wait for their turn with the lock.
pub mod Knows
pub mod Produce
pub mod Consume
pub mod Order
pub mod Progress
use cs453_2025_project.Prelude.{ℕ, ◌+◌, ◌%◌, ◌^◌, ltb, if◌then◌else◌}
use cs453_2025_project.SyncExamples.Threads.{
  Pthread, Prog, ret, goto, do_access, Thread, System, ◌>>=◌, ◌>>◌,
}
use cs453_2025_project.SyncExamples.Lock.{
  lock_init, lock_acquire, lock_release, lock_wait, lock_wake_up,
}
use cs453_2025_project.SyncExamples.Procon.{
  Setting, texts, load_produced_until, store_produced_until, add_produced_until,
  load_consumed_until, store_consumed_until, add_consumed_until, Label, produce_round, produce_wait,
  consume_round, consume_wait, fill, copy_in, copy_out, Main, check_rounds, start_threads,
}

abbrev pub buffer_size : ℕ
buffer_size = 1024

module _ (set : Setting) where
  -- The text is in the ring.
  abbrev pub count_produced : ℕ → Thread (texts set) Label
  count_produced r = do
    produced_until ← do_access load_produced_until
    do_access (store_produced_until ((produced_until + 1) % 2 ^ 32))
    lock_release
    goto (produce_round (r + 1))

  -- What the producer does once the slot is free.
  abbrev pub put : ℕ → Thread (texts set) Label
  put r = do
    fill set set.data_text_size r 0
    copy_in set set.data_text_size (r % buffer_size) r 0
    count_produced r

  -- The slot is free again.
  abbrev pub count_consumed : ℕ → Thread (texts set) Label
  count_consumed r = do
    consumed_until ← do_access load_consumed_until
    do_access (store_consumed_until ((consumed_until + 1) % 2 ^ 32))
    lock_release
    goto (consume_round (r + 1))

  -- What the consumer does once the slot is full.
  abbrev pub take : ℕ → Thread (texts set) Label
  take r = do copy_out set set.data_text_size (r % buffer_size) r 0; count_consumed r

  -- One round of the `while` of `produce`, up to the next round where it ends.
  abbrev pub produce : ℕ → Thread (texts set) Label
  produce r = do
    _ ← lock_acquire
    consumed_until ← do_access load_consumed_until
    if ltb r (consumed_until + buffer_size) then put r else (do lock_release; goto (produce_wait r))

  -- One round of the `while` of `consume`.
  abbrev pub consume : ℕ → Thread (texts set) Label
  consume r = do
    _ ← lock_acquire
    produced_until ← do_access load_produced_until
    if ltb r produced_until then take r else (do lock_release; goto (consume_wait r))

  unfoldable pub code : Label → Thread (texts set) Label
  code (produce_round r) = if ltb r set.runs then goto (produce_wait r) else ret tt
  code (produce_wait r) = produce r
  code (consume_round r) = if ltb r set.runs then goto (consume_wait r) else ret tt
  code (consume_wait r) = consume r

abbrev pub main : (set : Setting) (p : Pthread) → Main set p
main set p = record {
  started = record (start_threads set p) { lock = (lock_init p).1 };
  report = check_rounds set set.runs 0;
}
