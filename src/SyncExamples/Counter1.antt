-- ===== src/SyncExamples/Counter1.antt =====
-- sync-examples/counter1.c: four threads add to a counter without a lock.
use cs453_2025_project.Prelude.{ℕ, ◌+◌, ◌*◌, ◌%◌, ◌^◌, not, ◌==◌, ltb, if◌then◌else◌}
use cs453_2025_project.SyncExamples.Threads.{Pthread, ret, goto, do_access, Thread, ◌>>=◌, ◌>>◌}
use cs453_2025_project.SyncExamples.Counting.{
  counter, load, store, Label, round, threads, Main, counted_up_to, not_so_well, start_threads,
}

unfoldable pub count : ℕ → Label → Thread counter Label
count runs (round r) =
    if ltb r runs
    then (do local ← do_access load; do_access (store ((local + 1) % 2 ^ 32)); goto (round (r + 1)))
    else ret tt

abbrev pub main : ℕ → (p : Pthread) → Main p
main runs p = record {
  started = start_threads p;
  report = λ c. if not (c == runs * threads) then not_so_well c else counted_up_to c;
}
