-- ===== src/SyncExamples/Procon2/Order.antt =====
-- The consumer of sync-examples/procon2.c gets every text as it was produced.
use cs453_2025_project.Prelude.{ℕ, ◌≡◌, ◌≤◌, refl, ltb, ltb→lt, arith}
use cs453_2025_project.SyncExamples.Threads.{Pthread, ret, System, Reach}
use cs453_2025_project.SyncExamples.Lock.{IsPosix}
use cs453_2025_project.SyncExamples.Outline.{Outline-if, Sound, ended-Ends, Reach-Sound}
use cs453_2025_project.SyncExamples.Procon.{
  Setting, source_runs, texts, Label, produce_round, produce_wait, consume_round, consume_wait,
  looks_correct,
}
use cs453_2025_project.SyncExamples.Procon.Flow.{idle}
use cs453_2025_project.SyncExamples.Procon.Flow.End.{Flow-start, Flow-end}
use cs453_2025_project.SyncExamples.Procon.Loops.{threads-Outline}
use cs453_2025_project.SyncExamples.Procon.Locked.{Local, outside}
use cs453_2025_project.SyncExamples.Procon2.{buffer_size, code, main}
use cs453_2025_project.SyncExamples.Procon2.Produce.{put_enters}
use cs453_2025_project.SyncExamples.Procon2.Consume.{take_enters}
use cs453_2025_project.SyncExamples.Procon2.Knows.{Inv, At, Ends, ended-idle, Does}

module _ (set : Setting) (small : set.runs ≤ source_runs) where
  pub code-Outline : (i : ℕ) (l : Label) (g : Local) → (At set) i l g → Does set (code set l) i g
  unfolding code
  code-Outline i (produce_round r) g (who, e, le) =
      Outline-if (texts set) (Inv set) (At set) (Ends set) (ltb r set.runs) _ _ i g
        (λ t. (who, e, ltb→lt r set.runs t)) (λ t. (r, e, λ created. ground arith))
  code-Outline i (produce_wait r) g (who, e, lt) = rw (who, e) (put_enters set small r lt)
  code-Outline i (consume_round r) g (who, e, le) =
      Outline-if (texts set) (Inv set) (At set) (Ends set) (ltb r set.runs) _ _ i g
        (λ t. (who, e, ltb→lt r set.runs t)) (λ t. (r, e, λ created. ground arith))
  code-Outline i (consume_wait r) g (who, e, lt) = rw (who, e) (take_enters set small r lt)

  module _ (p : Pthread) (posix : IsPosix p) where
    started-Sound : Sound (texts set) (Inv set) (At set) (Ends set) p (main set p).started
    started-Sound = record {
      knows = λ i. outside (idle 0);
      holds = record {
        flow = Flow-start set buffer_size (main set p).started.state refl refl;
        locks = λ i. rw posix.ready_free (λ e. cc);
        sleep = tt;
      };
      outline =
          threads-Outline set p (Inv set) (At set) (Ends set) (outside (idle 0))
            (refl, refl, omega arith) (refl, refl, omega arith)
            (λ i ne0 ne1. (0, refl, λ created. absurd (omega arith)));
    }

    pub main-Sound :
        (u : System (texts set) p Label)
        → Reach (code set) (main set p).started u
        → Sound (texts set) (Inv set) (At set) (Ends set) p u
    main-Sound u reach =
        Reach-Sound (texts set) (Inv set) (At set) (Ends set) p posix (code set) code-Outline
          (λ w h z f i inv. record { flow = inv.flow; locks = inv.locks; sleep = tt }) started-Sound
          reach

    -- When both threads of `main` have returned, in whatever order they ran, every text was
    -- consumed as it was produced, and `main` says so. It holds where there are at most as many
    -- rounds as in the source and pthread.h does what POSIX says.
    pub main-all_handed_under_lock :
        (u : System (texts set) p Label)
        → Reach (code set) (main set p).started u
        → ((i : ℕ) → u.thread i ≡ ret tt)
        → (main set p).report u.state ≡ looks_correct
    main-all_handed_under_lock u reach ended =
        let d = main-Sound u reach in
        Flow-end set buffer_size u.state (d.knows 0).phase (d.knows 1).phase
          (ended-idle set (d.knows 1) 1 (omega arith)
            (ended-Ends (texts set) (Inv set) (At set) (Ends set) p u d 1 (ended 1)))
          d.holds.flow
