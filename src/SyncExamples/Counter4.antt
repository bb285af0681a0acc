-- ===== src/SyncExamples/Counter4.antt =====
-- sync-examples/counter4.c: the addition is atomic.
pub mod Total
use cs453_2025_project.Prelude.{ℕ, ◌+◌, ◌*◌, ◌%◌, ◌^◌, not, ◌==◌, ltb, if◌then◌else◌}
use cs453_2025_project.SyncExamples.Threads.{
  Pthread, Prog, ret, goto, do_access, Thread, System, ◌>>=◌, ◌>>◌,
}
use cs453_2025_project.SyncExamples.Lock.{lock_acquire, lock_release, lock_init}
use cs453_2025_project.SyncExamples.Counting.{
  counter, load, store, fetch_add, Label, round, threads, Main, counted_up_to, not_so_well,
  start_threads,
}

unfoldable pub count : ℕ → Label → Thread counter Label
count runs (round r) =
    if ltb r runs then (do _ ← do_access (fetch_add 1); goto (round (r + 1))) else ret tt

abbrev pub main : ℕ → (p : Pthread) → Main p
main runs p = record {
  started = start_threads p;
  report = λ c. if not (c == runs * threads) then not_so_well c else counted_up_to c;
}
