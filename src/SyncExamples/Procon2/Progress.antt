-- ===== src/SyncExamples/Procon2/Progress.antt =====
-- sync-examples/procon2.c never gets stuck.
use cs453_2025_project.Prelude.{ℕ, zero, suc, ◌+◌, ◌≡◌, ◌≢◌, ◌≤◌, ◌<◌, subst, some, ◌==◌, ltb}
use cs453_2025_project.SyncExamples.Threads.{
  Pthread, Thread, ret, goto, System, Reach, run, step, ◌>>◌,
}
use cs453_2025_project.SyncExamples.Lock.{IsPosix, IsPrompt}
use cs453_2025_project.SyncExamples.Outline.{ended-Ends}
use cs453_2025_project.SyncExamples.Holding.{HasLock}
use cs453_2025_project.SyncExamples.Quiet.{IsQuiet, IsQuiet-if, AllQuiet, quiet-goes}
use cs453_2025_project.SyncExamples.Procon.{
  Setting, source_runs, texts, Label, produce_round, produce_wait, consume_round, consume_wait,
  fill, copy_in, copy_out,
}
use cs453_2025_project.SyncExamples.Procon2.{buffer_size, code, main}
use cs453_2025_project.SyncExamples.Procon2.Knows.{Inv, At, Ends}
use cs453_2025_project.SyncExamples.Procon2.Order.{main-Sound}

module _ (set : Setting) where
  fill-IsQuiet :
      (n r i : ℕ) (rest : Thread (texts set) Label)
      → IsQuiet rest
      → IsQuiet (fill set n r i >> rest)
  unfolding fill
  fill-IsQuiet zero r i rest q = q
  fill-IsQuiet (suc n) r i rest q = λ v stored. fill-IsQuiet n r (i + 1) rest q

  copy_in-IsQuiet :
      (n b r i : ℕ) (rest : Thread (texts set) Label)
      → IsQuiet rest
      → IsQuiet (copy_in set n b r i >> rest)
  unfolding copy_in
  copy_in-IsQuiet zero b r i rest q = q
  copy_in-IsQuiet (suc n) b r i rest q = λ v stored. copy_in-IsQuiet n b r (i + 1) rest q

  copy_out-IsQuiet :
      (n b r i : ℕ) (rest : Thread (texts set) Label)
      → IsQuiet rest
      → IsQuiet (copy_out set n b r i >> rest)
  unfolding copy_out
  copy_out-IsQuiet zero b r i rest q = q
  copy_out-IsQuiet (suc n) b r i rest q = λ v stored. copy_out-IsQuiet n b r (i + 1) rest q

  code-IsQuiet : (l : Label) → IsQuiet (code set l)
  unfolding code
  code-IsQuiet (produce_round r) =
      IsQuiet-if (ltb r set.runs) (goto (produce_wait r)) (ret tt) tt tt
  code-IsQuiet (consume_round r) =
      IsQuiet-if (ltb r set.runs) (goto (consume_wait r)) (ret tt) tt tt
  code-IsQuiet (produce_wait r) = λ locked until.
      IsQuiet-if (ltb r (until + buffer_size)) _ _
        (fill-IsQuiet set.data_text_size r 0 _
          (copy_in-IsQuiet set.data_text_size _ r 0 _ (λ value stored released. tt)))
        (λ released. tt)
  code-IsQuiet (consume_wait r) = λ locked until.
      IsQuiet-if (ltb r until) _ _
        (copy_out-IsQuiet set.data_text_size _ r 0 _ (λ value stored released. tt)) (λ released. tt)

main-AllQuiet : (set : Setting) (p : Pthread) → IsPosix p → AllQuiet (main set p).started
main-AllQuiet set p posix = record {
  quiet = λ i.
      IsQuiet-if (i == 0) (goto (produce_round 0)) _ tt
        (IsQuiet-if (i == 1) (goto (consume_round 0)) (ret tt) tt tt);
  awake = posix.ready_awake;
}

-- No deadlock: in every state that the two threads of `main` reach, as long as one of them has not
-- returned, one of the threads can take a step. It holds where there are at most as many rounds as
-- in the source and pthread.h does what POSIX says and lets a caller wait only for a held mutex or
-- in its sleep.
pub code-never_stuck :
    (set : Setting)
    → set.runs ≤ source_runs
    → (p : Pthread) → IsPosix p
    → IsPrompt p
    → (u : System (texts set) p Label) → Reach (code set) (main set p).started u
    → (i : ℕ) → i < 2
    → u.thread i ≢ ret tt
    → (j : ℕ) × (v : System (texts set) p Label) × (step (code set) (run j) u ≡ some v)
code-never_stuck set small p posix prompt u reach i lt runs_on =
    let sound = main-Sound set small p posix in
    let d = sound u reach in
    quiet-goes (texts set) (Inv set) (At set) (Ends set) p posix (code set) (code-IsQuiet set)
      (main set p).started sound prompt (main-AllQuiet set p posix) u reach
      (λ k e.
        let (n, o, _) = ended-Ends (texts set) (Inv set) (At set) (Ends set) p u d k e in
        subst (λ x. HasLock x.held (p.holder u.lock) k) o (d.holds.locks k))
      i runs_on
