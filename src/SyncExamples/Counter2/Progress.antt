-- ===== src/SyncExamples/Counter2/Progress.antt =====
-- sync-examples/counter2.c never gets stuck.
use cs453_2025_project.Prelude.{ℕ, ◌≡◌, ◌≢◌, ◌≤◌, ◌<◌, subst, some, ltb}
use cs453_2025_project.SyncExamples.Threads.{Pthread, ret, goto, System, Reach, run, step}
use cs453_2025_project.SyncExamples.Lock.{IsPosix, IsPrompt}
use cs453_2025_project.SyncExamples.Outline.{ended-Ends}
use cs453_2025_project.SyncExamples.Quiet.{IsQuiet, IsQuiet-if, AllQuiet, quiet-goes}
use cs453_2025_project.SyncExamples.Counting.{counter, Label, round, source_runs, threads}
use cs453_2025_project.SyncExamples.Counter2.{count, main}
use cs453_2025_project.SyncExamples.Counter2.Total.{Fits, Inv, At, Ends, main-Sound}

count-IsQuiet : (runs : ℕ) (l : Label) → IsQuiet (count runs l)
unfolding count
count-IsQuiet runs (round r) = IsQuiet-if (ltb r runs) _ _ (λ locked value stored released. tt) tt

main-AllQuiet : (runs : ℕ) (p : Pthread) → IsPosix p → AllQuiet (main runs p).started
main-AllQuiet runs p posix = record {
  quiet = λ i. IsQuiet-if (ltb i threads) (goto (round 0)) (ret tt) tt tt;
  awake = posix.ready_awake;
}

-- No deadlock: in every state that the threads of `main` reach, as long as one of them has not
-- returned, one of the threads can take a step. It holds where there are at most as many rounds as
-- in the source and pthread.h does what POSIX says and lets a caller wait only for a held mutex or
-- in its sleep.
pub count-never_stuck :
    (runs : ℕ)
    → runs ≤ source_runs
    → (p : Pthread) → IsPosix p
    → IsPrompt p
    → (u : System counter p Label) → Reach (count runs) (main runs p).started u
    → (i : ℕ) → i < threads
    → u.thread i ≢ ret tt
    → (j : ℕ) × (v : System counter p Label) × (step (count runs) (run j) u ≡ some v)
count-never_stuck runs small p posix prompt u reach i lt runs_on =
    let sound = main-Sound runs small p posix in
    let d = sound u reach in
    quiet-goes counter (Inv runs small) (At runs small) (Ends runs small) p posix (count runs)
      (count-IsQuiet runs) (main runs p).started sound prompt (main-AllQuiet runs p posix) u reach
      (λ k e.
        let (n, o, _) =
          ended-Ends counter (Inv runs small) (At runs small) (Ends runs small) p u d k e in
        (subst (Fits runs small u.state (p.holder u.lock) k) o (d.holds.1 k)).0)
      i runs_on
