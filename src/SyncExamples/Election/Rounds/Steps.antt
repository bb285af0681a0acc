-- ===== src/SyncExamples/Election/Rounds/Steps.antt =====
-- What the steps of a thread do to the rounds of an election.
use cs453_2025_project.Prelude.{
  ℕ, ◌+◌, ◌≡◌, ◌≤◌, ◌≢◌, ◌<◌, inl, inr, refl, ap, subst, Bool, Option, some, arith, update,
  update_self, update_other, ℕ_discrete,
}
use cs453_2025_project.SyncExamples.Outline.{each-update}
use cs453_2025_project.SyncExamples.Holding.{Switch, HasLock, Locks-update}
use cs453_2025_project.SyncExamples.Election.{
  State, set_leader, count_leader, looks_correct, check_rounds,
}
use cs453_2025_project.SyncExamples.Election.Rounds.{
  Local, won, past, Fits, Rounds, check_rounds_lem, Slot-kept, Slot-led, Slot-counted, Fits-Switch,
  Fits-led, Fits-counted,
}

module _ {holds : Local → Bool} (s : State) (h : Option ℕ) (f : ℕ → Local) (i : ℕ)
    (inv : Rounds holds s h f) where
  -- No write.
  pub Rounds-kept :
      (g : Local) (h' : Option ℕ)
      → ((n : ℕ) → f i ≢ won n)
      → Switch i h h'
      → ((q : ℕ) → q < past g → s.leader q ≢ 0)
      → Fits s h' i g
      → HasLock (holds g) h' i
      → Rounds holds s h' (update f i g)
  Rounds-kept g h' not_won switch settled fits lock = record {
    slot = λ q. Slot-kept s f i g q not_won (inv.slot q);
    passed =
        each-update (λ j x. (q : ℕ) → q < past x → s.leader q ≢ 0)
          (λ j x. (q : ℕ) → q < past x → s.leader q ≢ 0) f i g inv.passed settled (λ j ne p. p);
    fits =
        each-update (Fits s h) (Fits s h') f i g inv.fits fits
          (λ j ne. Fits-Switch s h h' i j (f j) ne switch);
    lock = Locks-update holds f i g h h' switch lock inv.lock;
  }

  pub Rounds-led :
      (n : ℕ)
      → ((m : ℕ) → f i ≢ won m)
      → s.leader n ≡ 0
      → ((j : ℕ) → j ≢ i → h ≢ some j)
      → ((q : ℕ) → q < n → s.leader q ≢ 0)
      → s.nb_leaders n ≡ 0
      → HasLock (holds (won n)) h i
      → Rounds holds (set_leader n (i + 1) s) h (update f i (won n))
  Rounds-led n not_won free alone settled none_yet lock = record {
    slot = λ q. Slot-led s f i (won n) n q refl not_won (inv.slot q);
    passed =
        each-update (λ j x. (q : ℕ) → q < past x → s.leader q ≢ 0)
          (λ j x. (q : ℕ) → q < past x → (set_leader n (i + 1) s).leader q ≢ 0) f i (won n)
          inv.passed (λ q lt. still q (settled q lt)) (λ j ne p q lt. still q (p q lt));
    fits =
        each-update (Fits s h) (Fits (set_leader n (i + 1) s) h) f i (won n) inv.fits
          (update_self s.leader n (i + 1), none_yet)
          (λ j ne. Fits-led s h i j n (f j) free (alone j ne));
    lock = Locks-update holds f i (won n) h h (inl refl) lock inv.lock;
  }
    where
      still : (q : ℕ) → s.leader q ≢ 0 → update s.leader n (i + 1) q ≢ 0
      still q some_leader = elim (ℕ_discrete q n) [
        | yes same ↦ rw (same, update_self s.leader n (i + 1)) (omega arith)
        | no other ↦ rw (update_other s.leader n q (i + 1) other) some_leader
      ]

  pub Rounds-counted :
      (n : ℕ) (g : Local)
      → f i ≡ won n
      → past g ≡ n + 1
      → ((h' : Option ℕ) → Fits (count_leader n s) h' i g)
      → HasLock (holds g) h i
      → Rounds holds (count_leader n s) h (update f i g)
  Rounds-counted n g e next fits lock =
      let (mine, none_yet) : Fits s h i (won n) = subst (Fits s h i) e (inv.fits i) in
      record {
        slot = λ q. Slot-counted s f i g n q e mine none_yet (inv.slot q);
        passed =
            each-update (λ j x. (q : ℕ) → q < past x → s.leader q ≢ 0)
              (λ j x. (q : ℕ) → q < past x → s.leader q ≢ 0) f i g inv.passed (led mine)
              (λ j ne p. p);
        fits =
            each-update (Fits s h) (Fits (count_leader n s) h) f i g inv.fits (fits h)
              (λ j ne. Fits-counted s h i j n (f j) ne mine);
        lock = Locks-update holds f i g h h (inl refl) lock inv.lock;
      }
    where
      led : s.leader n ≡ i + 1 → (q : ℕ) → q < past g → s.leader q ≢ 0
      led mine q lt = elim (ℕ_discrete q n) [
        | yes same ↦ rw same (omega (arith, mine))
        | no other ↦ inv.passed i q (omega (arith, ap past e, next, other))
      ]

  -- When thread `i` has all rounds behind it, and nobody is about to count, each round is counted.
  pub Rounds-end :
      (n : ℕ)
      → past (f i) ≡ n
      → ((j m : ℕ) → f j ≢ won m)
      → check_rounds n 0 s.nb_leaders ≡ looks_correct
  Rounds-end n all quiet = check_rounds_lem n 0 s.nb_leaders (λ q lt. elim (inv.slot q) [
    | inl (free, e) ↦ absurd (inv.passed i q (omega arith) free)
    | inr (inl (led, once)) ↦ once
    | inr (inr (j, w)) ↦ absurd (quiet j q w)
  ])

  -- A round has never more than one leader.
  pub Rounds-few : (q : ℕ) → s.nb_leaders q ≤ 1
  Rounds-few q = elim (inv.slot q) [
    | inl (free, none_yet) ↦ omega arith
    | inr (inl (led, once)) ↦ omega arith
    | inr (inr (j, w)) ↦
        let (led, none_yet) : Fits s h j (won q) = subst (Fits s h j) w (inv.fits j) in omega arith
  ]

  pub Rounds-vacant : (n : ℕ) → s.leader n ≡ 0 → s.nb_leaders n ≡ 0
  Rounds-vacant n free = elim (inv.slot n) [
    | inl (same, none_yet) ↦ none_yet
    | inr (inl (led, once)) ↦ absurd (led free)
    | inr (inr (j, w)) ↦
        let fits : Fits s h j (won n) = subst (Fits s h j) w (inv.fits j) in
        absurd (omega (arith, fits.0, free))
  ]

  -- One more round is settled.
  pub Rounds-next : (n : ℕ) → past (f i) ≡ n → s.leader n ≢ 0 → (q : ℕ) → q < n + 1 → s.leader q ≢ 0
  Rounds-next n e led q lt = elim (ℕ_discrete q n) [
    | yes same ↦ rw same led
    | no other ↦ inv.passed i q (omega arith)
  ]
