-- ===== src/Tests/Counters.antt =====
-- sync-examples/counter2.c and counter4.c at one round, each with one schedule.
use cs453_2025_project.Prelude.{ℕ, ◌*◌, ◌≡◌, ◌≢◌, refl, some, List, [], arith, update}
use cs453_2025_project.SyncExamples.Threads.{Move, run, System, ret, start, play, step}
use cs453_2025_project.Tests.Schedules.{
  plain, plain-IsPosix, plain-IsPrompt, play-Reach, play-ended, turns, all_four,
}
use cs453_2025_project.SyncExamples.Counting.{counter, Label, threads, counted_up_to}
use cs453_2025_project.SyncExamples.Counter2.{count as count2, main as main2}
use cs453_2025_project.SyncExamples.Counter2.Progress.{count-never_stuck}
use cs453_2025_project.SyncExamples.Counter2.Total.{main-counted_under_lock}
use cs453_2025_project.SyncExamples.Counter4.{count as count4, main as main4}
use cs453_2025_project.SyncExamples.Counter4.Total.{main-counted}

abbrev atomic_schedule : List Move
atomic_schedule = turns 3 0 (turns 3 1 (turns 3 2 (turns 3 3 [])))

abbrev atomic_end : System counter plain Label
atomic_end = play (count4 1) atomic_schedule (main4 1 plain).started

atomic_ended : (i : ℕ) → atomic_end.thread i ≡ ret tt
unfolding play count4 update
atomic_ended =
    all_four atomic_end.thread refl refl refl refl
      (λ i low. play-ended (count4 1) i atomic_schedule (main4 1 plain).started (ground arith))

main-counted_example : (main4 1 plain).report atomic_end.state ≡ counted_up_to (1 * threads)
main-counted_example =
    main-counted 1 (omega arith) plain plain-IsPosix atomic_end
      (play-Reach (count4 1) atomic_schedule (main4 1 plain).started (main4 1 plain).started start)
      atomic_ended

abbrev locked_schedule : List Move
locked_schedule = turns 7 0 (turns 7 1 (turns 7 2 (turns 7 3 [])))

abbrev locked_end : System counter plain Label
locked_end = play (count2 1) locked_schedule (main2 1 plain).started

locked_ended : (i : ℕ) → locked_end.thread i ≡ ret tt
unfolding play count2 update
locked_ended =
    all_four locked_end.thread refl refl refl refl
      (λ i low. play-ended (count2 1) i locked_schedule (main2 1 plain).started (ground arith))

main-counted_under_lock_example :
    (main2 1 plain).report locked_end.state ≡ counted_up_to (1 * threads)
main-counted_under_lock_example =
    main-counted_under_lock 1 (omega arith) plain plain-IsPosix locked_end
      (play-Reach (count2 1) locked_schedule (main2 1 plain).started (main2 1 plain).started start)
      locked_ended

-- Thread 0 has the lock, and the others want it.
abbrev busy_schedule : List Move
busy_schedule = turns 3 0 (turns 3 1 [])

abbrev busy_end : System counter plain Label
busy_end = play (count2 1) busy_schedule (main2 1 plain).started

busy_runs_on : busy_end.thread 1 ≢ ret tt
unfolding play count2 update
busy_runs_on e = cc

count-never_stuck_example :
    (j : ℕ) × (v : System counter plain Label) × (step (count2 1) (run j) busy_end ≡ some v)
count-never_stuck_example =
    count-never_stuck 1 (omega arith) plain plain-IsPosix plain-IsPrompt busy_end
      (play-Reach (count2 1) busy_schedule (main2 1 plain).started (main2 1 plain).started start) 1
      (omega arith) busy_runs_on
