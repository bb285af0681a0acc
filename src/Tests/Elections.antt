-- ===== src/Tests/Elections.antt =====
-- sync-examples/election2.c and election4.c at one round, each with one schedule.
use cs453_2025_project.Prelude.{ℕ, ◌≡◌, ◌≢◌, ◌≤◌, refl, some, List, [], arith, update}
use cs453_2025_project.SyncExamples.Threads.{Move, run, System, ret, start, play, step}
use cs453_2025_project.Tests.Schedules.{
  plain, plain-IsPosix, plain-IsPrompt, play-Reach, play-ended, turns, all_four,
}
use cs453_2025_project.SyncExamples.Election.{rounds_of_leaders, Label, looks_correct}
use cs453_2025_project.SyncExamples.Election2.{elect as elect2, main as main2}
use cs453_2025_project.SyncExamples.Election2.Progress.{elect-never_stuck}
use cs453_2025_project.SyncExamples.Election2.Unique.{
  main-few_leaders_under_lock, main-one_leader_under_lock,
}
use cs453_2025_project.SyncExamples.Election4.{elect as elect4, main as main4}
use cs453_2025_project.SyncExamples.Election4.Unique.{main-few_leaders, main-one_leader}

abbrev swapped_schedule : List Move
swapped_schedule = turns 4 0 (turns 4 1 (turns 4 2 (turns 4 3 [])))

abbrev swapped_end : System rounds_of_leaders plain Label
swapped_end = play (elect4 1) swapped_schedule (main4 1 plain).started

swapped_ended : (i : ℕ) → swapped_end.thread i ≡ ret tt
unfolding play elect4 update
swapped_ended =
    all_four swapped_end.thread refl refl refl refl
      (λ i low. play-ended (elect4 1) i swapped_schedule (main4 1 plain).started (ground arith))

main-one_leader_example : (main4 1 plain).report swapped_end.state ≡ looks_correct
main-one_leader_example =
    main-one_leader 1 plain plain-IsPosix swapped_end
      (play-Reach (elect4 1) swapped_schedule (main4 1 plain).started (main4 1 plain).started start)
      swapped_ended

abbrev locked_schedule : List Move
locked_schedule = turns 7 0 (turns 7 1 (turns 7 2 (turns 7 3 [])))

abbrev locked_end : System rounds_of_leaders plain Label
locked_end = play (elect2 1) locked_schedule (main2 1 plain).started

locked_ended : (i : ℕ) → locked_end.thread i ≡ ret tt
unfolding play elect2 update
locked_ended =
    all_four locked_end.thread refl refl refl refl
      (λ i low. play-ended (elect2 1) i locked_schedule (main2 1 plain).started (ground arith))

main-one_leader_under_lock_example : (main2 1 plain).report locked_end.state ≡ looks_correct
main-one_leader_under_lock_example =
    main-one_leader_under_lock 1 plain plain-IsPosix locked_end
      (play-Reach (elect2 1) locked_schedule (main2 1 plain).started (main2 1 plain).started start)
      locked_ended

-- Thread 0 has the lock, and the others want it.
abbrev busy_schedule : List Move
busy_schedule = turns 3 0 (turns 3 1 [])

abbrev busy_end : System rounds_of_leaders plain Label
busy_end = play (elect2 1) busy_schedule (main2 1 plain).started

busy_runs_on : busy_end.thread 1 ≢ ret tt
unfolding play elect2 update
busy_runs_on e = cc

elect-never_stuck_example :
    (j : ℕ) × (v : System rounds_of_leaders plain Label) × (step (elect2 1) (run j) busy_end
      ≡ some v)
elect-never_stuck_example =
    elect-never_stuck 1 plain plain-IsPosix plain-IsPrompt busy_end
      (play-Reach (elect2 1) busy_schedule (main2 1 plain).started (main2 1 plain).started start) 1
      (omega arith) busy_runs_on

main-few_leaders_example : swapped_end.state.nb_leaders 0 ≤ 1
main-few_leaders_example =
    main-few_leaders 1 plain plain-IsPosix swapped_end
      (play-Reach (elect4 1) swapped_schedule (main4 1 plain).started (main4 1 plain).started start)
      0

main-few_leaders_under_lock_example : locked_end.state.nb_leaders 0 ≤ 1
main-few_leaders_under_lock_example =
    main-few_leaders_under_lock 1 plain plain-IsPosix locked_end
      (play-Reach (elect2 1) locked_schedule (main2 1 plain).started (main2 1 plain).started start)
      0
