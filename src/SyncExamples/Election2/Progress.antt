-- ===== src/SyncExamples/Election2/Progress.antt =====
-- sync-examples/election2.c never gets stuck.
use cs453_2025_project.Prelude.{ℕ, ◌+◌, ◌≡◌, ◌≢◌, ◌<◌, subst, some, ◌==◌, ltb}
use cs453_2025_project.SyncExamples.Threads.{Pthread, ret, goto, System, Reach, run, step}
use cs453_2025_project.SyncExamples.Lock.{IsPosix, IsPrompt}
use cs453_2025_project.SyncExamples.Outline.{ended-Ends}
use cs453_2025_project.SyncExamples.Holding.{HasLock}
use cs453_2025_project.SyncExamples.Quiet.{IsQuiet, IsQuiet-if, AllQuiet, quiet-goes}
use cs453_2025_project.SyncExamples.Election.{rounds_of_leaders, Label, round, threads}
use cs453_2025_project.SyncExamples.Election2.{elect, main}
use cs453_2025_project.SyncExamples.Election2.Unique.{holds, Inv, At, Ends, main-Sound}

elect-IsQuiet : (runs : ℕ) (l : Label) → IsQuiet (elect runs l)
unfolding elect
elect-IsQuiet runs (round tid r) =
    IsQuiet-if (ltb r runs) _ _
      (λ locked leader. IsQuiet-if (leader == 0) _ _ (λ stored added released. tt) (λ released. tt))
      tt

main-AllQuiet : (runs : ℕ) (p : Pthread) → IsPosix p → AllQuiet (main runs p).started
main-AllQuiet runs p posix = record {
  quiet = λ i. IsQuiet-if (ltb i threads) (goto (round (i + 1) 0)) (ret tt) tt tt;
  awake = posix.ready_awake;
}

-- No deadlock: in every state that the threads of `main` reach, as long as one of them has not
-- returned, one of the threads can take a step. It holds where pthread.h does what POSIX says and
-- lets a caller wait only for a held mutex or in its sleep.
pub elect-never_stuck :
    (runs : ℕ) (p : Pthread)
    → IsPosix p
    → IsPrompt p
    → (u : System rounds_of_leaders p Label) → Reach (elect runs) (main runs p).started u
    → (i : ℕ) → i < threads
    → u.thread i ≢ ret tt
    → (j : ℕ) × (v : System rounds_of_leaders p Label) × (step (elect runs) (run j) u ≡ some v)
elect-never_stuck runs p posix prompt u reach i lt runs_on =
    let sound = main-Sound runs p posix in
    let d = sound u reach in
    quiet-goes rounds_of_leaders (Inv runs) (At runs) (Ends runs) p posix (elect runs)
      (elect-IsQuiet runs) (main runs p).started sound prompt (main-AllQuiet runs p posix) u reach
      (λ k e.
        let (n, o, _) = ended-Ends rounds_of_leaders (Inv runs) (At runs) (Ends runs) p u d k e in
        subst (λ g. HasLock (holds runs g) (p.holder u.lock) k) o (d.holds.lock k))
      i runs_on
