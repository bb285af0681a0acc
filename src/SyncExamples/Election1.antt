-- ===== src/SyncExamples/Election1.antt =====
-- sync-examples/election1.c: each thread makes itself the leader of a round that has none.
use cs453_2025_project.Prelude.{ℕ, ◌+◌, ◌==◌, ltb, if◌then◌else◌}
use cs453_2025_project.SyncExamples.Threads.{Pthread, ret, goto, do_access, Thread, ◌>>=◌, ◌>>◌}
use cs453_2025_project.SyncExamples.Election.{
  rounds_of_leaders, load_leader, store_leader, add_nb_leaders, Label, round, Main, check_rounds,
  start_threads,
}

-- One round.
abbrev pub body : ℕ → ℕ → Thread rounds_of_leaders Label
body tid r = do
  leader ← do_access (load_leader r)
  if leader == 0
      then (do
        do_access (store_leader r tid)
        do_access (add_nb_leaders r)
        goto (round tid (r + 1)))
      else goto (round tid (r + 1))

unfoldable pub elect : ℕ → Label → Thread rounds_of_leaders Label
elect runs (round tid r) = if ltb r runs then body tid r else ret tt

abbrev pub main : ℕ → (p : Pthread) → Main p
main runs p = record { started = start_threads p; report = λ s. check_rounds runs 0 s.nb_leaders }
