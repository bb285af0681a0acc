-- ===== src/SyncExamples/Counter4/Total.antt =====
-- No addition of sync-examples/counter4.c is lost.
use cs453_2025_project.Prelude.{
  ℕ, ◌+◌, ◌*◌, ◌%◌, ◌^◌, ◌≡◌, ◌≤◌, ◌<◌, refl, Bool, Option, ltb, arith, update,
}
use cs453_2025_project.SyncExamples.Threads.{Pthread, ret, goto, System, Reach}
use cs453_2025_project.SyncExamples.Lock.{IsPosix}
use cs453_2025_project.SyncExamples.Outline.{Outline, Outline-if, Sound, ended-Ends, Reach-Sound}
use cs453_2025_project.SyncExamples.Counting.{
  counter, Label, round, source_runs, threads, counted_up_to,
}
use cs453_2025_project.SyncExamples.Counter4.{count, main}

module _ (runs : ℕ) (small : runs ≤ source_runs) where
  -- A thread knows how often it has added.
  abbrev Inv : ℕ → Option ℕ → (ℕ → Bool) → (ℕ → ℕ) → Type 0
  Inv c h z f = (c ≡ f 0 + f 1 + f 2 + f 3) × ((i : ℕ) → f i ≤ runs)

  abbrev At : ℕ → Label → ℕ → Type 0
  At i (round r) g = (i < threads) × (g ≡ r) × (r ≤ runs)

  abbrev Ends : ℕ → ℕ → Type 0
  Ends i g = i < threads → g ≡ runs

  added :
      (c i g : ℕ) (f : ℕ → ℕ)
      → i < threads
      → f i ≡ g
      → c ≡ f 0 + f 1 + f 2 + f 3
      → ((j : ℕ) → f j ≤ runs)
      → (c + 1) % 2 ^ 32
        ≡ update f i (g + 1) 0 + update f i (g + 1) 1 + update f i (g + 1) 2 + update f i (g + 1) 3
  unfolding update
  added c i g f lt e sum few = ground (arith, few 0, few 1, few 2, few 3)

  bounded :
      (i g : ℕ) (f : ℕ → ℕ)
      → g < runs
      → ((j : ℕ) → f j ≤ runs)
      → (j : ℕ) → update f i (g + 1) j ≤ runs
  unfolding update
  bounded i g f lt few j = ground (arith, few j)

  count-Outline :
      (i : ℕ) (l : Label) (g : ℕ) → At i l g → Outline counter Inv At Ends (count runs l) i g
  unfolding count
  count-Outline i (round r) g (lt, e, le) =
      Outline-if counter Inv At Ends (ltb r runs) _ _ i g
        (λ t w h z f k (sum, few). (
          g + 1,
          (added w i g f lt k sum few, bounded i g f (ground arith) few),
          (lt, omega arith, ground arith),
        ))
        (λ t below. ground arith)

  module _ (p : Pthread) (posix : IsPosix p) where
    started-Sound : Sound counter Inv At Ends p (main runs p).started
    started-Sound = record {
      knows = λ i. 0;
      holds = (refl, λ i. omega arith);
      outline = λ i.
          Outline-if counter Inv At Ends (ltb i threads) (goto (round 0)) (ret tt) i 0
            (λ t. (ground arith, refl, omega arith)) (λ t below. ground arith);
    }

    -- When all threads of `main` have returned, in whatever order they ran, `main` reports that the
    -- counter counts every addition. It holds where there are at most as many rounds as in the
    -- source and pthread.h does what POSIX says.
    pub main-counted :
        (u : System counter p Label)
        → Reach (count runs) (main runs p).started u
        → ((i : ℕ) → u.thread i ≡ ret tt)
        → (main runs p).report u.state ≡ counted_up_to (runs * threads)
    main-counted u reach ended =
        let d =
          Reach-Sound counter Inv At Ends p posix (count runs) count-Outline (λ w h z f i inv. inv)
            started-Sound reach in
        let all = λ (i : ℕ). ended-Ends counter Inv At Ends p u d i (ended i) in
        ground (arith, d.holds.0, all 0, all 1, all 2, all 3)
