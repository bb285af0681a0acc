-- ===== src/Tests/Procons.antt =====
-- sync-examples/procon2.c to procon4.c at one round of one byte, each with one schedule.
use cs453_2025_project.Prelude.{ℕ, ◌+◌, ◌≡◌, ◌≢◌, ◌≤◌, refl, some, List, [], arith, update}
use cs453_2025_project.SyncExamples.Threads.{Move, run, System, ret, start, play, step}
use cs453_2025_project.Tests.Schedules.{
  plain, plain-IsPosix, plain-IsPrompt, play-Reach, play-ended, turns, all_two,
}
use cs453_2025_project.SyncExamples.Procon.{
  Setting, texts, Label, looks_correct, fill, copy_in, copy_out,
}
use cs453_2025_project.SyncExamples.Procon2.{code as code2, main as main2}
use cs453_2025_project.SyncExamples.Procon2.Progress.{code-never_stuck}
use cs453_2025_project.SyncExamples.Procon2.Order.{main-all_handed_under_lock}
use cs453_2025_project.SyncExamples.Procon4.{buffer_size, code as code4, main as main4}
use cs453_2025_project.SyncExamples.Procon4.Order.{
  main-all_handed_with_sleep, main-in_ring, main-handed_so_far,
}
use cs453_2025_project.SyncExamples.Procon4.Progress.{main-never_stuck}

abbrev one_byte : Setting
one_byte = record { runs = 1; data_text_size = 1; rand = λ n. 300 + n }

abbrev locked_schedule : List Move
locked_schedule = turns 14 0 (turns 12 1 [])

abbrev locked_end : System (texts one_byte) plain Label
locked_end = play (code2 one_byte) locked_schedule (main2 one_byte plain).started

locked_ended : (i : ℕ) → locked_end.thread i ≡ ret tt
unfolding play code2 fill copy_in copy_out update
locked_ended = all_two locked_end.thread refl refl (λ i low.
    play-ended (code2 one_byte) i locked_schedule (main2 one_byte plain).started (ground arith))

main-all_handed_under_lock_example : (main2 one_byte plain).report locked_end.state ≡ looks_correct
main-all_handed_under_lock_example =
    main-all_handed_under_lock one_byte (omega arith) plain plain-IsPosix locked_end
      (play-Reach (code2 one_byte) locked_schedule (main2 one_byte plain).started
        (main2 one_byte plain).started start)
      locked_ended

abbrev sleeping_schedule : List Move
sleeping_schedule = turns 15 0 (turns 13 1 [])

abbrev sleeping_end : System (texts one_byte) plain Label
sleeping_end = play (code4 one_byte) sleeping_schedule (main4 one_byte plain).started

sleeping_ended : (i : ℕ) → sleeping_end.thread i ≡ ret tt
unfolding play code4 fill copy_in copy_out update
sleeping_ended = all_two sleeping_end.thread refl refl (λ i low.
    play-ended (code4 one_byte) i sleeping_schedule (main4 one_byte plain).started (ground arith))

main-all_handed_with_sleep_example :
    (main4 one_byte plain).report sleeping_end.state ≡ looks_correct
main-all_handed_with_sleep_example =
    main-all_handed_with_sleep one_byte (omega arith) plain plain-IsPosix sleeping_end
      (play-Reach (code4 one_byte) sleeping_schedule (main4 one_byte plain).started
        (main4 one_byte plain).started start)
      sleeping_ended

-- The consumer has found nothing to take, and sleeps.
abbrev asleep_schedule : List Move
asleep_schedule = turns 5 1 []

abbrev asleep_end : System (texts one_byte) plain Label
asleep_end = play (code4 one_byte) asleep_schedule (main4 one_byte plain).started

asleep_runs_on : asleep_end.thread 1 ≢ ret tt
unfolding play code4 update
asleep_runs_on e = cc

main-in_ring_example :
    (sleeping_end.state.consumed_until ≤ sleeping_end.state.produced_until)
    × (sleeping_end.state.produced_until ≤ sleeping_end.state.consumed_until + buffer_size)
main-in_ring_example = main-in_ring one_byte (omega arith) plain plain-IsPosix sleeping_end (
    play-Reach (code4 one_byte) sleeping_schedule (main4 one_byte plain).started
      (main4 one_byte plain).started start)

sleeping_consumed : sleeping_end.state.consumed_until ≡ 1
unfolding play code4 fill copy_in copy_out update
sleeping_consumed = refl

main-handed_so_far_example : sleeping_end.state.consumed 0 0 ≡ sleeping_end.state.produced 0 0
main-handed_so_far_example =
    main-handed_so_far one_byte (omega arith) plain plain-IsPosix sleeping_end
      (play-Reach (code4 one_byte) sleeping_schedule (main4 one_byte plain).started
        (main4 one_byte plain).started start)
      0 0 (omega (arith, sleeping_consumed)) (omega arith)

main-never_stuck_example :
    (j : ℕ) × (v : System (texts one_byte) plain Label) × (step (code4 one_byte) (run j) asleep_end
      ≡ some v)
main-never_stuck_example =
    main-never_stuck one_byte (omega arith) plain plain-IsPosix plain-IsPrompt asleep_end
      (play-Reach (code4 one_byte) asleep_schedule (main4 one_byte plain).started
        (main4 one_byte plain).started start)
      1 (omega arith) asleep_runs_on

-- Thread 0 has the lock, and the others want it.
abbrev busy_schedule : List Move
busy_schedule = turns 3 0 (turns 3 1 [])

abbrev busy_end : System (texts one_byte) plain Label
busy_end = play (code2 one_byte) busy_schedule (main2 one_byte plain).started

busy_runs_on : busy_end.thread 1 ≢ ret tt
unfolding play code2 update
busy_runs_on e = cc

code-never_stuck_example :
    (j : ℕ) × (v : System (texts one_byte) plain Label) × (step (code2 one_byte) (run j) busy_end
      ≡ some v)
code-never_stuck_example =
    code-never_stuck one_byte (omega arith) plain plain-IsPosix plain-IsPrompt busy_end
      (play-Reach (code2 one_byte) busy_schedule (main2 one_byte plain).started
        (main2 one_byte plain).started start)
      1 (omega arith) busy_runs_on
