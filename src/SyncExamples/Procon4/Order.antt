-- ===== src/SyncExamples/Procon4/Order.antt =====
-- The consumer of sync-examples/procon4.c gets every text as it was produced.
use cs453_2025_project.Prelude.{ℕ, ◌+◌, ◌≡◌, ◌≤◌, ◌<◌, refl, sym, ◌∙◌, ltb, ltb→lt, arith}
use cs453_2025_project.SyncExamples.Threads.{Pthread, ret, System, Reach}
use cs453_2025_project.SyncExamples.Lock.{IsPosix}
use cs453_2025_project.SyncExamples.Outline.{Outline-if, Sound, ended-Ends, Reach-Sound}
use cs453_2025_project.SyncExamples.Procon.{
  Setting, source_runs, texts, Label, produce_round, produce_wait, consume_round, consume_wait,
  looks_correct,
}
use cs453_2025_project.SyncExamples.Procon.Flow.{idle}
use cs453_2025_project.SyncExamples.Procon.Flow.End.{Flow-start, Flow-end}
use cs453_2025_project.SyncExamples.Procon.Loops.{threads-Outline}
use cs453_2025_project.SyncExamples.Procon.Locked.{Local, outside}
use cs453_2025_project.SyncExamples.Procon4.Sleep.{wakes_up}
use cs453_2025_project.SyncExamples.Procon4.{buffer_size, code, main}
use cs453_2025_project.SyncExamples.Procon4.Produce.{put_enters, put_if}
use cs453_2025_project.SyncExamples.Procon4.Consume.{take_enters, take_if}
use cs453_2025_project.SyncExamples.Procon4.Knows.{false-true, Inv, At, Ends, ended-idle, Does}

module _ (set : Setting) (small : set.runs ≤ source_runs) where
  pub code-Outline : (i : ℕ) (l : Label) (g : Local) → (At set) i l g → Does set (code set l) i g
  unfolding code
  code-Outline i (produce_round r) g (who, e, le) =
      Outline-if (texts set) (Inv set) (At set) (Ends set) (ltb r set.runs) _ _ i g
        (λ t. rw (who, e) (put_enters set small r (ltb→lt r set.runs t)))
        (λ t. (r, e, λ created. ground arith))
  code-Outline i (produce_wait r) g (who, e, lt) =
      rw (who, e)
        (λ s h z f k inv.
          put_if set small r lt (ltb r (s.consumed_until + buffer_size)) s h z f refl k inv)
  code-Outline i (consume_round r) g (who, e, le) =
      Outline-if (texts set) (Inv set) (At set) (Ends set) (ltb r set.runs) _ _ i g
        (λ t. rw (who, e) (take_enters set small r (ltb→lt r set.runs t)))
        (λ t. (r, e, λ created. ground arith))
  code-Outline i (consume_wait r) g (who, e, lt) =
      rw (who, e)
        (λ s h z f k inv. take_if set small r lt (ltb r s.produced_until) s h z f refl k inv)

  module _ (p : Pthread) (posix : IsPosix p) where
    started-Sound : Sound (texts set) (Inv set) (At set) (Ends set) p (main set p).started
    started-Sound = record {
      knows = λ i. outside (idle 0);
      holds = record {
        flow = Flow-start set buffer_size (main set p).started.state refl refl;
        locks = λ i. rw posix.ready_free (λ e. cc);
        sleep = record {
          put_sleeps = λ e. absurd (false-true (sym (posix.ready_awake 0) ∙ e));
          take_sleeps = λ e. absurd (false-true (sym (posix.ready_awake 1) ∙ e));
          put_stuck = λ e. absurd e;
          take_stuck = λ e. absurd e;
        };
      };
      outline =
          threads-Outline set p (Inv set) (At set) (Ends set) (outside (idle 0))
            (refl, refl, omega arith) (refl, refl, omega arith)
            (λ i ne0 ne1. (0, refl, λ created. absurd (omega arith)));
    }

    pub main-Sound :
        (u : System (texts set) p Label)
        → Reach (code set) (main set p).started u
        → Sound (texts set) (Inv set) (At set) (Ends set) p u
    main-Sound u reach =
        Reach-Sound (texts set) (Inv set) (At set) (Ends set) p posix (code set) code-Outline
          (λ w h z f i inv. record {
            flow = inv.flow;
            locks = inv.locks;
            sleep = wakes_up set w z i (f 0) (f 1) inv.sleep;
          })
          started-Sound reach

    -- When both threads of `main` have returned, in whatever order they ran, every text was
    -- consumed as it was produced, and `main` says so. It holds where there are at most as many
    -- rounds as in the source and pthread.h does what POSIX says.
    pub main-all_handed_with_sleep :
        (u : System (texts set) p Label)
        → Reach (code set) (main set p).started u
        → ((i : ℕ) → u.thread i ≡ ret tt)
        → (main set p).report u.state ≡ looks_correct
    main-all_handed_with_sleep u reach ended =
        let d = main-Sound u reach in
        Flow-end set buffer_size u.state (d.knows 0).phase (d.knows 1).phase
          (ended-idle set (d.knows 1) 1 (omega arith)
            (ended-Ends (texts set) (Inv set) (At set) (Ends set) p u d 1 (ended 1)))
          d.holds.flow

    -- In every state that the threads of `main` reach, there are never more texts consumed than
    -- produced, nor more produced texts than slots for them. It holds where there are at most as
    -- many rounds as in the source and pthread.h does what POSIX says.
    pub main-in_ring :
        (u : System (texts set) p Label)
        → Reach (code set) (main set p).started u
        → (u.state.consumed_until ≤ u.state.produced_until)
          × (u.state.produced_until ≤ u.state.consumed_until + buffer_size)
    main-in_ring u reach =
        let flow = (main-Sound u reach).holds.flow in
        (
          omega (arith, flow.put_count, flow.take_count, flow.behind),
          omega (arith, flow.put_count, flow.take_count, flow.ahead),
        )

    -- In every state that the threads of `main` reach, a text that is counted as consumed is the
    -- one that was produced, byte by byte. It holds where there are at most as many rounds as in
    -- the source and pthread.h does what POSIX says.
    pub main-handed_so_far :
        (u : System (texts set) p Label)
        → Reach (code set) (main set p).started u
        → (r i : ℕ) → r < u.state.consumed_until
        → i < set.data_text_size
        → u.state.consumed r i ≡ u.state.produced r i
    main-handed_so_far u reach r i low lt =
        let flow = (main-Sound u reach).holds.flow in
        flow.handed r i (omega (arith, flow.take_count)) lt
