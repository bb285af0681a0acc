-- ===== src/SyncExamples/Election2/Unique.antt =====
-- Every round of sync-examples/election2.c has one leader.
use cs453_2025_project.Prelude.{
  ℕ, ◌+◌, ◌≡◌, ◌≢◌, ◌≤◌, ◌<◌, inl, inr, refl, sym, ◌∙◌, subst, ap, Bool, true, false, Option, none,
  some, ◌==◌, ltb, if◌then◌else◌, arith, ==→eq,
}
use cs453_2025_project.SyncExamples.Threads.{
  Pthread, Thread, ret, goto, do_access, ◌>>◌, System, Reach,
}
use cs453_2025_project.SyncExamples.Lock.{IsPosix, lock_release}
use cs453_2025_project.SyncExamples.Outline.{
  Outline, Outline-if, Continues, Sound, ended-Ends, Reach-Sound,
}
use cs453_2025_project.SyncExamples.Election.{
  rounds_of_leaders, State, Label, store_leader, add_nb_leaders, round, threads, looks_correct,
}
use cs453_2025_project.SyncExamples.Election.Rounds.{
  Local, out, won, Rounds, past, out-won, inside-won, vacant-won, inside, vacant, Fits,
}
use cs453_2025_project.SyncExamples.Election.Rounds.Steps.{
  Rounds-kept, Rounds-led, Rounds-counted, Rounds-end, Rounds-few, Rounds-vacant, Rounds-next,
}
use cs453_2025_project.SyncExamples.Election2.{body, elect, main}

module _ (runs : ℕ) where
  abbrev pub holds : Local → Bool
  holds (out n) = false
  holds g = true

  abbrev pub Inv : State → Option ℕ → (ℕ → Bool) → (ℕ → Local) → Type 0
  Inv s h z f = Rounds holds s h f

  abbrev pub At : ℕ → Label → Local → Type 0
  At i (round tid r) g = (tid ≡ i + 1) × (g ≡ out r) × (r ≤ runs)

  -- A thread that `main` has not created has nothing behind it.
  abbrev pub Ends : ℕ → Local → Type 0
  Ends i g = (n : ℕ) × (g ≡ out n) × (i < threads → n ≡ runs)

  module _ (i r : ℕ) (below : r < runs) where
    abbrev settled : Thread rounds_of_leaders Label
    settled = lock_release >> goto (round (i + 1) (r + 1))

    abbrev rest : Bool → Thread rounds_of_leaders Label
    rest b =
        if b
        then (do_access (store_leader r (i + 1)) >> (do_access (add_nb_leaders r) >> settled))
        else settled

    leave : Outline rounds_of_leaders Inv At Ends settled i (inside (r + 1))
    leave s h z f k inv =
        let mine : h ≡ some i =
          subst (λ g. if holds g then h ≡ some i else h ≢ some i) k (inv.lock i) in
        (
          mine,
          λ code. (
            out (r + 1),
            Rounds-kept s h f i inv (out (r + 1)) none (λ m w. inside-won (sym k ∙ w))
                (inr (inr (mine, refl))) (λ q lt. inv.passed i q (omega (arith, ap past k))) tt
                (λ e. cc),
            (refl, refl, omega arith),
          ),
        )

    counts :
        Outline rounds_of_leaders Inv At Ends (do_access (add_nb_leaders r) >> settled) i (won r)
    counts s h z f k inv = (
      inside (r + 1),
      Rounds-counted s h f i inv r (inside (r + 1)) k refl (λ h'. tt)
          (subst (λ g. if holds g then h ≡ some i else h ≢ some i) k (inv.lock i)),
      leave,
    )

    leads : Outline rounds_of_leaders Inv At Ends (rest true) i (vacant r)
    leads s h z f k inv =
        let (mine, free) : Fits s h i (vacant r) = subst (Fits s h i) k (inv.fits i) in
        (
          won r,
          Rounds-led s h f i inv r (λ m w. vacant-won (sym k ∙ w)) free
              (λ j ne e. absurd (ground arith)) (λ q lt. inv.passed i q (omega (arith, ap past k)))
              (Rounds-vacant s h f i inv r free) mine,
          counts,
        )

    look :
        (b : Bool) (s : State) (h : Option ℕ) (z : ℕ → Bool) (f : ℕ → Local)
        → (s.leader r == 0) ≡ b
        → f i ≡ inside r
        → Inv s h z f
        → Continues rounds_of_leaders Inv At Ends
            (Outline rounds_of_leaders Inv At Ends (rest b))
            i
            s
            h
            z
            f
    look true s h z f e k inv =
        let mine : h ≡ some i =
          subst (λ g. if holds g then h ≡ some i else h ≢ some i) k (inv.lock i) in
        (
          vacant r,
          Rounds-kept s h f i inv (vacant r) h (λ m w. inside-won (sym k ∙ w)) (inl refl)
              (λ q lt. inv.passed i q (omega (arith, ap past k))) (mine, ==→eq (s.leader r) 0 e)
              mine,
          leads,
        )
    look false s h z f e k inv = (
      inside (r + 1),
      Rounds-kept s h f i inv (inside (r + 1)) h (λ m w. inside-won (sym k ∙ w)) (inl refl)
          (Rounds-next s h f i inv r (ap past k) (λ free. absurd (ground arith))) tt
          (subst (λ g. if holds g then h ≡ some i else h ≢ some i) k (inv.lock i)),
      leave,
    )

    round-Outline : Outline rounds_of_leaders Inv At Ends (body (i + 1) r) i (out r)
    round-Outline s h z f k inv = (
      subst (λ g. if holds g then h ≡ some i else h ≢ some i) k (inv.lock i),
      λ free code. (
        inside r,
        Rounds-kept s h f i inv (inside r) (some i) (λ m w. out-won (sym k ∙ w))
            (inr (inl (free, refl))) (λ q lt. inv.passed i q (omega (arith, ap past k))) tt refl,
        λ s1 h1 z1 f1 k1 inv1. look (s1.leader r == 0) s1 h1 z1 f1 refl k1 inv1,
      ),
    )

  elect-Outline :
      (i : ℕ) (l : Label) (g : Local)
      → At i l g
      → Outline rounds_of_leaders Inv At Ends (elect runs l) i g
  unfolding elect
  elect-Outline i (round tid r) g (who, e, le) =
      Outline-if rounds_of_leaders Inv At Ends (ltb r runs) _ _ i g
        (λ t. rw (who, e) (round-Outline i r (ground arith))) (λ t. (r, e, λ created. ground arith))

  module _ (p : Pthread) (posix : IsPosix p) where
    started-Sound : Sound rounds_of_leaders Inv At Ends p (main runs p).started
    started-Sound = record {
      knows = λ i. out 0;
      holds = record {
        slot = λ q. inl (refl, refl);
        passed = λ i q lt. absurd (omega arith);
        fits = λ i. tt;
        lock = λ i. rw posix.ready_free (λ e. cc);
      };
      outline = λ i.
          Outline-if rounds_of_leaders Inv At Ends (ltb i threads) (goto (round (i + 1) 0)) (ret tt)
            i (out 0) (λ t. (refl, refl, omega arith))
            (λ t. (0, refl, λ created. absurd (ground arith)));
    }

    pub main-Sound :
        (u : System rounds_of_leaders p Label)
        → Reach (elect runs) (main runs p).started u
        → Sound rounds_of_leaders Inv At Ends p u
    main-Sound u reach =
        Reach-Sound rounds_of_leaders Inv At Ends p posix (elect runs) elect-Outline
          (λ w h z f i inv. inv) started-Sound reach

    -- In every state that the threads of `main` reach, no round has been given more than one
    -- leader. It holds where pthread.h does what POSIX says.
    pub main-few_leaders_under_lock :
        (u : System rounds_of_leaders p Label)
        → Reach (elect runs) (main runs p).started u
        → (q : ℕ) → u.state.nb_leaders q ≤ 1
    main-few_leaders_under_lock u reach q =
        let d = main-Sound u reach in Rounds-few u.state (p.holder u.lock) d.knows 0 d.holds q

    -- When all threads of `main` have returned, in whatever order they ran, `main` finds one leader
    -- in every round. It holds where pthread.h does what POSIX says.
    pub main-one_leader_under_lock :
        (u : System rounds_of_leaders p Label)
        → Reach (elect runs) (main runs p).started u
        → ((i : ℕ) → u.thread i ≡ ret tt)
        → (main runs p).report u.state ≡ looks_correct
    main-one_leader_under_lock u reach ended =
        let d = main-Sound u reach in
        let all = λ (i : ℕ). ended-Ends rounds_of_leaders Inv At Ends p u d i (ended i) in
        let (n, e, done) = all 0 in
        Rounds-end u.state (p.holder u.lock) d.knows 0 d.holds runs (ap past e ∙ done (omega arith))
          (λ j m w. let (x, o, _) = all j in out-won (sym o ∙ w))
