-- ===== src/SyncExamples/Election2.antt =====
-- sync-examples/election2.c: each round under a lock.
pub mod Unique
pub mod Progress
use cs453_2025_project.Prelude.{ℕ, ◌+◌, ◌==◌, ltb, if◌then◌else◌}
use cs453_2025_project.SyncExamples.Threads.{
  Pthread, Prog, ret, goto, do_access, Thread, System, ◌>>=◌, ◌>>◌,
}
use cs453_2025_project.SyncExamples.Lock.{lock_acquire, lock_release, lock_init}
use cs453_2025_project.SyncExamples.Election.{
  rounds_of_leaders, load_leader, store_leader, compare_exchange_leader, add_nb_leaders, Label,
  round, Main, check_rounds, start_threads,
}

-- One round.
abbrev pub body : ℕ → ℕ → Thread rounds_of_leaders Label
body tid r = do
  _ ← lock_acquire
  leader ← do_access (load_leader r)
  if leader == 0
      then (do
        do_access (store_leader r tid)
        do_access (add_nb_leaders r)
        lock_release
        goto (round tid (r + 1)))
      else (do lock_release; goto (round tid (r + 1)))

unfoldable pub elect : ℕ → Label → Thread rounds_of_leaders Label
elect runs (round tid r) = if ltb r runs then body tid r else ret tt

abbrev pub main : ℕ → (p : Pthread) → Main p
main runs p = record {
  started = record (start_threads p) { lock = (lock_init p).1 };
  report = λ s. check_rounds runs 0 s.nb_leaders;
}
