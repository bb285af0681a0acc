-- ===== src/SyncExamples/Election4/Unique.antt =====
-- Every round of sync-examples/election4.c has one leader.
use cs453_2025_project.Prelude.{
  ℕ, ◌+◌, ◌≡◌, ◌≤◌, ◌<◌, inl, refl, sym, ◌∙◌, ap, Bool, true, false, Option, ◌==◌, ltb,
  if◌then◌else◌, arith, ==→eq,
}
use cs453_2025_project.SyncExamples.Threads.{
  Pthread, Thread, ret, goto, do_access, ◌>>◌, System, Reach,
}
use cs453_2025_project.SyncExamples.Lock.{IsPosix}
use cs453_2025_project.SyncExamples.Outline.{
  Outline, Outline-if, Continues, Sound, ended-Ends, Reach-Sound,
}
use cs453_2025_project.SyncExamples.Election.{
  rounds_of_leaders, State, set_leader, Label, add_nb_leaders, round, threads, looks_correct,
}
use cs453_2025_project.SyncExamples.Election.Rounds.{Local, out, won, Rounds, past, out-won}
use cs453_2025_project.SyncExamples.Election.Rounds.Steps.{
  Rounds-kept, Rounds-led, Rounds-counted, Rounds-end, Rounds-few, Rounds-vacant, Rounds-next,
}
use cs453_2025_project.SyncExamples.Election4.{body, elect, main}

module _ (runs : ℕ) where
  abbrev holds : Local → Bool
  holds g = false

  abbrev Inv : State → Option ℕ → (ℕ → Bool) → (ℕ → Local) → Type 0
  Inv s h z f = Rounds holds s h f

  abbrev At : ℕ → Label → Local → Type 0
  At i (round tid r) g = (tid ≡ i + 1) × (g ≡ out r) × (r ≤ runs)

  -- A thread that `main` has not created has nothing behind it.
  abbrev Ends : ℕ → Local → Type 0
  Ends i g = (n : ℕ) × (g ≡ out n) × (i < threads → n ≡ runs)

  module _ (i r : ℕ) (below : r < runs) where
    abbrev rest : Bool → Thread rounds_of_leaders Label
    rest b =
        if b
        then (do_access (add_nb_leaders r) >> goto (round (i + 1) (r + 1)))
        else goto (round (i + 1) (r + 1))

    counts : Outline rounds_of_leaders Inv At Ends (rest true) i (won r)
    counts s h z f k inv = (
      out (r + 1),
      Rounds-counted s h f i inv r (out (r + 1)) k refl (λ h'. tt) (inv.lock i),
      (refl, refl, omega arith),
    )

    swap :
        (b : Bool) (s : State) (h : Option ℕ) (z : ℕ → Bool) (f : ℕ → Local)
        → (s.leader r == 0) ≡ b
        → f i ≡ out r
        → Inv s h z f
        → Continues rounds_of_leaders Inv At Ends
            (Outline rounds_of_leaders Inv At Ends (rest b))
            i
            (if b then set_leader r (i + 1) s else s)
            h
            z
            f
    swap true s h z f e k inv =
        let free = ==→eq (s.leader r) 0 e in
        (
          won r,
          Rounds-led s h f i inv r (λ m w. out-won (sym k ∙ w)) free (λ j ne. inv.lock j)
              (λ q lt. inv.passed i q (omega (arith, ap past k))) (Rounds-vacant s h f i inv r free)
              (inv.lock i),
          counts,
        )
    swap false s h z f e k inv = (
      out (r + 1),
      Rounds-kept s h f i inv (out (r + 1)) h (λ m w. out-won (sym k ∙ w)) (inl refl)
          (Rounds-next s h f i inv r (ap past k) (λ free. absurd (ground arith))) tt (inv.lock i),
      (refl, refl, omega arith),
    )

    round-Outline : Outline rounds_of_leaders Inv At Ends (body (i + 1) r) i (out r)
    round-Outline s h z f k inv = swap (s.leader r == 0) s h z f refl k inv

  elect-Outline :
      (i : ℕ) (l : Label) (g : Local)
      → At i l g
      → Outline rounds_of_leaders Inv At Ends (elect runs l) i g
  unfolding elect
  elect-Outline i (round tid r) g (who, e, le) =
      Outline-if rounds_of_leaders Inv At Ends (ltb r runs) _ _ i g
        (λ t. rw (who, e) (round-Outline i r (ground arith))) (λ t. (r, e, λ created. ground arith))

  module _ (p : Pthread) (posix : IsPosix p) where
    started-Sound : Sound rounds_of_leaders Inv At Ends p (main runs p).started
    started-Sound = record {
      knows = λ i. out 0;
      holds = record {
        slot = λ q. inl (refl, refl);
        passed = λ i q lt. absurd (omega arith);
        fits = λ i. tt;
        lock = λ i. rw posix.ready_free (λ e. cc);
      };
      outline = λ i.
          Outline-if rounds_of_leaders Inv At Ends (ltb i threads) (goto (round (i + 1) 0)) (ret tt)
            i (out 0) (λ t. (refl, refl, omega arith))
            (λ t. (0, refl, λ created. absurd (ground arith)));
    }

    main-Sound :
        (u : System rounds_of_leaders p Label)
        → Reach (elect runs) (main runs p).started u
        → Sound rounds_of_leaders Inv At Ends p u
    main-Sound u reach =
        Reach-Sound rounds_of_leaders Inv At Ends p posix (elect runs) elect-Outline
          (λ w h z f i inv. inv) started-Sound reach

    -- In every state that the threads of `main` reach, no round has been given more than one
    -- leader. It holds where pthread.h does what POSIX says.
    pub main-few_leaders :
        (u : System rounds_of_leaders p Label)
        → Reach (elect runs) (main runs p).started u
        → (q : ℕ) → u.state.nb_leaders q ≤ 1
    main-few_leaders u reach q =
        let d = main-Sound u reach in Rounds-few u.state (p.holder u.lock) d.knows 0 d.holds q

    -- When all threads of `main` have returned, in whatever order they ran, `main` finds one leader
    -- in every round. It holds where pthread.h does what POSIX says.
    pub main-one_leader :
        (u : System rounds_of_leaders p Label)
        → Reach (elect runs) (main runs p).started u
        → ((i : ℕ) → u.thread i ≡ ret tt)
        → (main runs p).report u.state ≡ looks_correct
    main-one_leader u reach ended =
        let d = main-Sound u reach in
        let all = λ (i : ℕ). ended-Ends rounds_of_leaders Inv At Ends p u d i (ended i) in
        let (n, e, done) = all 0 in
        Rounds-end u.state (p.holder u.lock) d.knows 0 d.holds runs (ap past e ∙ done (omega arith))
          (λ j m w. let (x, o, _) = all j in out-won (sym o ∙ w))
