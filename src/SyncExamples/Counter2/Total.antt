-- ===== src/SyncExamples/Counter2/Total.antt =====
-- No addition of sync-examples/counter2.c is lost.
use cs453_2025_project.Prelude.{
  ℕ, ◌+◌, ◌*◌, ◌%◌, ◌^◌, ◌≡◌, ◌≢◌, ◌≤◌, ◌<◌, refl, ◌∙◌, Bool, Option, none, some, ltb, arith, ap,
  update, subst, map-update, ◌⊎◌, inl, inr,
}
use cs453_2025_project.SyncExamples.Threads.{Pthread, ret, goto, Thread, System, ◌>>◌, Reach}
use cs453_2025_project.SyncExamples.Lock.{IsPosix, lock_release}
use cs453_2025_project.SyncExamples.Outline.{
  each-update, Outline, Outline-if, Sound, ended-Ends, Reach-Sound,
}
use cs453_2025_project.SyncExamples.Counting.{
  counter, Label, round, source_runs, threads, counted_up_to,
}
use cs453_2025_project.SyncExamples.Counter2.{body, count, main}

-- How often a thread has added, and whether it is outside the lock, inside, or inside with the
-- counter's value.
pub data Local : Type 0 where
  out : ℕ → Local
  inside : ℕ → Local
  loaded : ℕ → ℕ → Local

abbrev done : Local → ℕ
done (out n) = n
done (inside n) = n
done (loaded n v) = n

module _ (runs : ℕ) (small : runs ≤ source_runs) where
  abbrev pub Fits : ℕ → Option ℕ → ℕ → Local → Type 0
  Fits c h i (out n) = (h ≢ some i) × (n ≤ runs)
  Fits c h i (inside n) = (h ≡ some i) × (n ≤ runs)
  Fits c h i (loaded n v) = (h ≡ some i) × (n < runs) × (c ≡ v)

  abbrev sum : (ℕ → Local) → ℕ
  sum f = done (f 0) + done (f 1) + done (f 2) + done (f 3)

  abbrev pub Inv : ℕ → Option ℕ → (ℕ → Bool) → (ℕ → Local) → Type 0
  Inv c h z f = (c ≡ sum f) × ((i : ℕ) → Fits c h i (f i))

  abbrev pub At : ℕ → Label → Local → Type 0
  At i (round r) g = (i < threads) × (g ≡ out r) × (r ≤ runs)

  -- A thread that `main` has not created has nothing behind it.
  abbrev pub Ends : ℕ → Local → Type 0
  Ends i g = (n : ℕ) × (g ≡ out n) × (i < threads → n ≡ runs)

  -- The sum after one thread has gone on.
  sum-update :
      (f : ℕ → Local) (i : ℕ) (g : Local)
      → i < threads
      → sum (update f i g) + done (f i) ≡ sum f + done g
  sum-update f i g lt = ground (
    arith,
    map-update done f i g 0,
    map-update done f i g 1,
    map-update done f i g 2,
    map-update done f i g 3,
  )

  few : (c : ℕ) (h : Option ℕ) (i : ℕ) (g : Local) → Fits c h i g → done g ≤ runs
  few c h i (out n) fits = fits.1
  few c h i (inside n) fits = fits.1
  few c h i (loaded n v) fits = omega (arith, fits.1)

  others-lock : (c i j : ℕ) (g : Local) → j ≢ i → Fits c none j g → Fits c (some i) j g
  others-lock c i j (out n) ne fits = (λ e. absurd (ground arith), fits.1)
  others-lock c i j (inside n) ne fits = absurd (cc)
  others-lock c i j (loaded n v) ne fits = absurd (cc)

  -- The thread that holds the lock changes the counter, and may give the lock back.
  others-holder :
      (c d i j : ℕ) (h : Option ℕ) (g : Local)
      → j ≢ i
      → (h ≡ none) ⊎ (h ≡ some i)
      → Fits c (some i) j g
      → Fits d h j g
  others-holder c d i j h (out n) ne e fits =
      (elim e [ inl p ↦ λ q. absurd (ground arith) | inr p ↦ λ q. absurd (ground arith) ], fits.1)
  others-holder c d i j h (inside n) ne e fits = absurd (ground (arith, fits.0))
  others-holder c d i j h (loaded n v) ne e fits = absurd (ground (arith, fits.0))

  moved :
      (c d : ℕ) (h h' : Option ℕ) (z z' : ℕ → Bool) (f : ℕ → Local) (i : ℕ) (g : Local)
      → i < threads
      → Inv c h z f
      → d + done (f i) ≡ c + done g
      → Fits d h' i g
      → ((j : ℕ) (x : Local) → j ≢ i → Fits c h j x → Fits d h' j x)
      → Inv d h' z' (update f i g)
  moved c d h h' z z' f i g lt (total, fits) e new others = (
    omega (arith, sum-update f i g lt),
    each-update (Fits c h) (Fits d h') f i g fits new (λ j. others j (f j)),
  )

  module _ (i r : ℕ) (lt : i < threads) (below : r < runs) where
    abbrev rest : Thread counter Label
    rest = lock_release >> goto (round (r + 1))

    enter :
        (w : ℕ) (h : Option ℕ) (z : ℕ → Bool) (f : ℕ → Local)
        → f i ≡ out r
        → Inv w h z f
        → h ≡ none
        → Inv w (some i) z (update f i (inside r))
    enter w h z f k inv free =
        moved w w h (some i) z z f i (inside r) lt inv (omega (arith, ap done k))
          (refl, omega arith)
          (λ j x ne fits. others-lock w i j x ne (subst (λ h. Fits w h j x) free fits))

    stored :
        (w v : ℕ) (h : Option ℕ) (z : ℕ → Bool) (f : ℕ → Local)
        → f i ≡ loaded r v
        → Inv w h z f
        → Inv ((v + 1) % 2 ^ 32) h z (update f i (inside (r + 1)))
    stored w v h z f k inv =
        let (mine, under, same) : Fits w h i (loaded r v) = subst (Fits w h i) k (inv.1 i) in
        let step : (v + 1) % 2 ^ 32 + done (f i) ≡ w + (r + 1) = omega (
          arith,
          small,
          under,
          under,
          inv.0,
          same,
          ap done k,
          few w h 0 (f 0) (inv.1 0),
          few w h 1 (f 1) (inv.1 1),
          few w h 2 (f 2) (inv.1 2),
          few w h 3 (f 3) (inv.1 3),
        ) in
        moved w ((v + 1) % 2 ^ 32) h h z z f i (inside (r + 1)) lt inv step (mine, omega arith)
          (λ j x ne fits.
            others-holder w _ i j h x ne (inr mine) (subst (λ h. Fits w h j x) mine fits))

    leave : Outline counter Inv At Ends rest i (inside (r + 1))
    leave w h z f k inv =
        let mine : h ≡ some i = (subst (Fits w h i) k (inv.1 i)).0 in
        (
          mine,
          λ code. (
            out (r + 1),
            moved w w h none z z f i (out (r + 1)) lt inv (omega (arith, ap done k))
                (λ e. cc, omega arith)
                (λ j x ne fits.
                  others-holder w w i j none x ne (inl refl) (subst (λ h. Fits w h j x) mine fits)),
            (lt, refl, omega arith),
          ),
        )

    critical : Outline counter Inv At Ends (body r) i (out r)
    critical w h z f k inv = (
      (subst (Fits w h i) k (inv.1 i)).0,
      λ free code. (
        inside r,
        enter w h z f k inv free,
        λ w1 h1 z1 f1 k1 inv1. (
          loaded r w1,
          moved w1 w1 h1 h1 z1 z1 f1 i (loaded r w1) lt inv1 (omega (arith, ap done k1))
              ((subst (Fits w1 h1 i) k1 (inv1.1 i)).0, below, refl) (λ j x ne fits. fits),
          λ w2 h2 z2 f2 k2 inv2. (inside (r + 1), stored w2 w1 h2 z2 f2 k2 inv2, leave),
        ),
      ),
    )

  count-Outline :
      (i : ℕ) (l : Label) (g : Local) → At i l g → Outline counter Inv At Ends (count runs l) i g
  unfolding count
  count-Outline i (round r) g (lt, e, le) =
      Outline-if counter Inv At Ends (ltb r runs) _ _ i g
        (λ t. rw e (critical i r lt (ground arith))) (λ t. (r, e, λ below. ground arith))

  module _ (p : Pthread) (posix : IsPosix p) where
    started-Sound : Sound counter Inv At Ends p (main runs p).started
    started-Sound = record {
      knows = λ i. out 0;
      holds = (refl, λ i. (rw posix.ready_free (λ e. cc), omega arith));
      outline = λ i.
          Outline-if counter Inv At Ends (ltb i threads) (goto (round 0)) (ret tt) i (out 0)
            (λ t. (ground arith, refl, omega arith))
            (λ t. (0, refl, λ below. absurd (ground arith)));
    }

    pub main-Sound :
        (u : System counter p Label)
        → Reach (count runs) (main runs p).started u
        → Sound counter Inv At Ends p u
    main-Sound u reach =
        Reach-Sound counter Inv At Ends p posix (count runs) count-Outline (λ w h z f i inv. inv)
          started-Sound reach

    all_done :
        (u : System counter p Label) (d : Sound counter Inv At Ends p u)
        → ((i : ℕ) → u.thread i ≡ ret tt)
        → (i : ℕ) → i < threads
        → done (d.knows i) ≡ runs
    all_done u d ended i lt =
        let (n, e, all) = ended-Ends counter Inv At Ends p u d i (ended i) in ap done e ∙ all lt

    -- When all threads of `main` have returned, in whatever order they ran, `main` reports that the
    -- counter counts every addition. It holds where there are at most as many rounds as in the
    -- source and pthread.h does what POSIX says.
    pub main-counted_under_lock :
        (u : System counter p Label)
        → Reach (count runs) (main runs p).started u
        → ((i : ℕ) → u.thread i ≡ ret tt)
        → (main runs p).report u.state ≡ counted_up_to (runs * threads)
    main-counted_under_lock u reach ended =
        let d = main-Sound u reach in
        ground (
          arith,
          d.holds.0,
          all_done u d ended 0,
          all_done u d ended 1,
          all_done u d ended 2,
          all_done u d ended 3,
        )
