-- ===== src/Tests/Races.antt =====
-- The programs of sync-examples/ that are meant to be wrong, each with a schedule that shows it.
use cs453_2025_project.Prelude.{◌+◌, ◌≡◌, refl, List, [], update}
use cs453_2025_project.SyncExamples.Threads.{Move, play}
use cs453_2025_project.SyncExamples.Counting.{not_so_well}
use cs453_2025_project.SyncExamples.Counter1.{count as count1, main as main1}
use cs453_2025_project.SyncExamples.Counter3.{count as count3, main as main3}
use cs453_2025_project.SyncExamples.Election.{failed_in_round, check_rounds}
use cs453_2025_project.SyncExamples.Election1.{elect as elect1, main as elections1}
use cs453_2025_project.SyncExamples.Election3.{elect as elect3, main as elections3}
use cs453_2025_project.SyncExamples.Procon.{
  Setting, wrong_in_round, fill, copy_in, copy_out, are_same_from, check_rounds as check_texts,
}
use cs453_2025_project.SyncExamples.Procon1.{code as code1, main as procon1}
use cs453_2025_project.Tests.Schedules.{plain, turns}

-- Threads 0 and 1 have both looked before one of them writes; then all go to their ends.
abbrev race : List Move
race = turns 2 0 (turns 2 1 (turns 6 0 (turns 6 1 (turns 8 2 (turns 8 3 [])))))

counter1_test :
    (main1 1 plain).report (play (count1 1) race (main1 1 plain).started).state ≡ not_so_well 3
unfolding play count1 update
counter1_test = refl

counter3_test :
    (main3 1 plain).report (play (count3 1) race (main3 1 plain).started).state ≡ not_so_well 3
unfolding play count3 update
counter3_test = refl

election1_test :
    (elections1 1 plain).report (play (elect1 1) race (elections1 1 plain).started).state
    ≡ failed_in_round 0
unfolding play elect1 update check_rounds
election1_test = refl

election3_test :
    (elections3 1 plain).report (play (elect3 1) race (elections3 1 plain).started).state
    ≡ failed_in_round 0
unfolding play elect3 update check_rounds
election3_test = refl

abbrev one_byte : Setting
one_byte = record { runs = 1; data_text_size = 1; rand = λ n. 7 + n }

-- The consumer runs first.
procon1_test :
    (procon1 one_byte plain).report
      (play (code1 one_byte) (turns 6 1 (turns 8 0 [])) (procon1 one_byte plain).started).state
    ≡ wrong_in_round 0
unfolding play code1 fill copy_in copy_out update check_texts are_same_from
procon1_test = refl
