-- ===== src/SyncExamples/Procon4/Sleep.antt =====
-- No wake-up of sync-examples/procon4.c is lost: a thread that sleeps has no work, or the other thread
-- has still to wake it.
use cs453_2025_project.Prelude.{
  ℕ, ◌+◌, ◌≡◌, ◌≢◌, ◌<◌, ◌≤◌, ◌⊎◌, inl, inr, refl, ◌∙◌, subst, Bool, true, false, Option, some,
  arith, update,
}
use cs453_2025_project.SyncExamples.Holding.{HasLock}
use cs453_2025_project.SyncExamples.Procon.{Setting, State}
use cs453_2025_project.SyncExamples.Procon.Flow.{
  Phase, idle, stuck, sleeping, copied, loaded, counting, active,
}
use cs453_2025_project.SyncExamples.Procon.Loops.{SameCounts}
use cs453_2025_project.SyncExamples.Procon.Locked.{Local, inside, outside}
use cs453_2025_project.SyncExamples.Procon4.{buffer_size}

abbrev pub IsStuck : Phase → Type 0
IsStuck (stuck n) = Unit {0}
IsStuck _ = ⊥

-- The ring has no slot for the producer, and no text for the consumer.
abbrev pub IsFull : State → Type 0
IsFull s = s.consumed_until + buffer_size ≤ s.produced_until

abbrev pub IsEmpty : State → Type 0
IsEmpty s = s.produced_until ≤ s.consumed_until

module _ (set : Setting) where
  abbrev pub IsAsleep : Phase → Type 0
  IsAsleep (sleeping n) = n < set.runs
  IsAsleep _ = ⊥

  pub record Sleep (s : State) (z : ℕ → Bool) (p c : Local) : Type 0 where
    pub put_sleeps : z 0 ≡ true → IsAsleep p.phase × (p.owes ≡ false) × (IsFull s ⊎ (c.owes ≡ true))
    pub take_sleeps :
        z 1 ≡ true → IsAsleep c.phase × (c.owes ≡ false) × (IsEmpty s ⊎ (p.owes ≡ true))
    pub put_stuck : IsStuck p.phase → (p.held ≡ true) × IsFull s
    pub take_stuck : IsStuck c.phase → (c.held ≡ true) × IsEmpty s

  pub active-awake : (p : Phase) → active p ≡ true → IsAsleep p → ⊥
  active-awake (idle n) t a = a
  active-awake (stuck n) t a = a
  active-awake (sleeping n) t a = absurd (cc)
  active-awake (copied n i) t a = a
  active-awake (loaded n i v) t a = a
  active-awake (counting n v) t a = a

  pub active-free : (p : Phase) → active p ≡ true → IsStuck p → ⊥
  active-free (idle n) t a = a
  active-free (stuck n) t a = absurd (cc)
  active-free (sleeping n) t a = a
  active-free (copied n i) t a = a
  active-free (loaded n i v) t a = a
  active-free (counting n v) t a = a

  module _ (s t : State) (z : ℕ → Bool) (g g' x : Local) (same : SameCounts s t) where
    -- A thread that is awake goes on, and owes what it owed.
    pub put_step :
        (IsAsleep g.phase → ⊥)
        → (IsStuck g'.phase → (g'.held ≡ true) × IsFull s)
        → (g.owes ≡ true → g'.owes ≡ true)
        → Sleep s z g x
        → Sleep t z g' x
    put_step awake stuck_new owes d = record {
      put_sleeps = λ e. absurd (awake (d.put_sleeps e).0);
      take_sleeps = λ e. (
        (d.take_sleeps e).0,
        (d.take_sleeps e).1,
        elim (d.take_sleeps e).2 [
          | inl empty ↦ inl (omega (arith, same.0, same.1))
          | inr w ↦ inr (owes w)
        ],
      );
      put_stuck = λ e. ((stuck_new e).0, omega (arith, (stuck_new e).1, same.0, same.1));
      take_stuck = λ e. ((d.take_stuck e).0, omega (arith, (d.take_stuck e).1, same.0, same.1));
    }

    pub take_step :
        (IsAsleep g.phase → ⊥)
        → (IsStuck g'.phase → (g'.held ≡ true) × IsEmpty s)
        → (g.owes ≡ true → g'.owes ≡ true)
        → Sleep s z x g
        → Sleep t z x g'
    take_step awake stuck_new owes d = record {
      put_sleeps = λ e. (
        (d.put_sleeps e).0,
        (d.put_sleeps e).1,
        elim (d.put_sleeps e).2 [
          | inl full ↦ inl (omega (arith, same.0, same.1))
          | inr w ↦ inr (owes w)
        ],
      );
      take_sleeps = λ e. absurd (awake (d.take_sleeps e).0);
      put_stuck = λ e. ((d.put_stuck e).0, omega (arith, (d.put_stuck e).1, same.0, same.1));
      take_stuck = λ e. ((stuck_new e).0, omega (arith, (stuck_new e).1, same.0, same.1));
    }

  -- Two threads do not both hold the lock.
  one_holder :
      (h : Option ℕ) (x : Local) (i j : ℕ)
      → i ≢ j
      → h ≡ some i
      → HasLock x.held h j
      → x.held ≡ true
      → ⊥
  one_holder h x i j ne mine lock held =
      let theirs : HasLock true h j = subst (λ b. HasLock b h j) held lock in ground arith

  module _ (s : State) (h : Option ℕ) (z : ℕ → Bool) (x : Local) where
    -- A thread under the lock changes its counter, and then owes a wake-up.
    pub put_counted :
        (g g' : Local) (n : ℕ)
        → h ≡ some 0
        → HasLock x.held h 1
        → (IsAsleep g.phase → ⊥)
        → (IsStuck g'.phase → ⊥)
        → g'.owes ≡ true
        → Sleep s z g x
        → Sleep (record s { produced_until = n }) z g' x
    put_counted g g' n mine lock awake free owes d = record {
      put_sleeps = λ e. absurd (awake (d.put_sleeps e).0);
      take_sleeps = λ e. ((d.take_sleeps e).0, (d.take_sleeps e).1, inr owes);
      put_stuck = λ e. absurd (free e);
      take_stuck = λ e. absurd (one_holder h x 0 1 (omega arith) mine lock (d.take_stuck e).0);
    }

    pub take_counted :
        (g g' : Local) (n : ℕ)
        → h ≡ some 1
        → HasLock x.held h 0
        → (IsAsleep g.phase → ⊥)
        → (IsStuck g'.phase → ⊥)
        → g'.owes ≡ true
        → Sleep s z x g
        → Sleep (record s { consumed_until = n }) z x g'
    take_counted g g' n mine lock awake free owes d = record {
      put_sleeps = λ e. ((d.put_sleeps e).0, (d.put_sleeps e).1, inr owes);
      take_sleeps = λ e. absurd (awake (d.take_sleeps e).0);
      put_stuck = λ e. absurd (one_holder h x 1 0 (omega arith) mine lock (d.put_stuck e).0);
      take_stuck = λ e. absurd (free e);
    }

  module _ (s : State) (z : ℕ → Bool) (x : Local) (n : ℕ) where
    -- A thread that has nothing to do goes to sleep.
    pub put_to_sleep :
        n < set.runs
        → Sleep s z (inside (stuck n)) x
        → Sleep s (update z 0 true) (outside (sleeping n)) x
    unfolding update
    put_to_sleep below d = record {
      put_sleeps = λ e. (below, refl, inl (d.put_stuck tt).1);
      take_sleeps = λ e. (
        (d.take_sleeps e).0,
        (d.take_sleeps e).1,
        elim (d.take_sleeps e).2 [ inl empty ↦ inl empty | inr w ↦ absurd (cc) ],
      );
      put_stuck = λ e. absurd e;
      take_stuck = d.take_stuck;
    }

    pub take_to_sleep :
        n < set.runs
        → Sleep s z x (inside (stuck n))
        → Sleep s (update z 1 true) x (outside (sleeping n))
    unfolding update
    take_to_sleep below d = record {
      put_sleeps = λ e. (
        (d.put_sleeps e).0,
        (d.put_sleeps e).1,
        elim (d.put_sleeps e).2 [ inl full ↦ inl full | inr w ↦ absurd (cc) ],
      );
      take_sleeps = λ e. (below, refl, inl (d.take_stuck tt).1);
      put_stuck = d.put_stuck;
      take_stuck = λ e. absurd e;
    }

    -- It was woken, and has the lock again.
    pub put_returns :
        z 0 ≡ false → Sleep s z (outside (sleeping n)) x → Sleep s z (inside (idle n)) x
    put_returns awake d = record {
      put_sleeps = λ e. absurd (cc);
      take_sleeps = d.take_sleeps;
      put_stuck = λ e. absurd e;
      take_stuck = d.take_stuck;
    }

    pub take_returns :
        z 1 ≡ false → Sleep s z x (outside (sleeping n)) → Sleep s z x (inside (idle n))
    take_returns awake d = record {
      put_sleeps = d.put_sleeps;
      take_sleeps = λ e. absurd (cc);
      put_stuck = d.put_stuck;
      take_stuck = λ e. absurd e;
    }

  -- All are woken.
  pub all_woken :
      (s : State) (z : ℕ → Bool) (p c p' c' : Local)
      → p'.phase ≡ p.phase
      → p'.held ≡ p.held
      → c'.phase ≡ c.phase
      → c'.held ≡ c.held
      → Sleep s z p c
      → Sleep s (λ _. false) p' c'
  all_woken s z p c p' c' ep hp ec hc d = record {
    put_sleeps = λ e. absurd (cc);
    take_sleeps = λ e. absurd (cc);
    put_stuck = λ e. let (a, b) = d.put_stuck (subst IsStuck ep e) in (hp ∙ a, b);
    take_stuck = λ e. let (a, b) = d.take_stuck (subst IsStuck ec e) in (hc ∙ a, b);
  }

  -- A thread wakes up for no reason.
  pub wakes_up :
      (s : State) (z : ℕ → Bool) (i : ℕ) (p c : Local)
      → Sleep s z p c
      → Sleep s (update z i false) p c
  unfolding update
  wakes_up s z i p c d = record {
    put_sleeps = λ e. d.put_sleeps (ground arith);
    take_sleeps = λ e. d.take_sleeps (ground arith);
    put_stuck = d.put_stuck;
    take_stuck = d.take_stuck;
  }
