-- ===== src/SyncExamples/Counter2.antt =====
-- sync-examples/counter2.c: the same under a lock.
pub mod Total
pub mod Progress
use cs453_2025_project.Prelude.{ℕ, ◌+◌, ◌*◌, ◌%◌, ◌^◌, not, ◌==◌, ltb, if◌then◌else◌}
use cs453_2025_project.SyncExamples.Threads.{
  Pthread, Prog, ret, goto, do_access, Thread, System, ◌>>=◌, ◌>>◌,
}
use cs453_2025_project.SyncExamples.Lock.{lock_acquire, lock_release, lock_init}
use cs453_2025_project.SyncExamples.Counting.{
  counter, load, store, fetch_add, Label, round, threads, Main, counted_up_to, not_so_well,
  start_threads,
}

-- One round, from the lock on.
abbrev pub body : ℕ → Thread counter Label
body r = do
  _ ← lock_acquire
  local ← do_access load
  do_access (store ((local + 1) % 2 ^ 32))
  lock_release
  goto (round (r + 1))

unfoldable pub count : ℕ → Label → Thread counter Label
count runs (round r) = if ltb r runs then body r else ret tt

-- `lock_init` leaves the lock ready.
abbrev pub main : ℕ → (p : Pthread) → Main p
main runs p = record {
  started = record (start_threads p) { lock = (lock_init p).1 };
  report = λ c. if not (c == runs * threads) then not_so_well c else counted_up_to c;
}
