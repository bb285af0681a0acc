-- ===== src/SyncExamples/Procon4/Progress.antt =====
-- sync-examples/procon4.c never gets stuck.
use cs453_2025_project.Prelude.{
  ℕ, ◌≡◌, ◌≢◌, ◌≤◌, ◌<◌, inl, inr, ap, subst, true, false, none, some, Option-cases, arith,
  ℕ_discrete,
}
use cs453_2025_project.SyncExamples.Threads.{Pthread, ret, System, Reach, run, step}
use cs453_2025_project.SyncExamples.Lock.{IsPosix, IsPrompt}
use cs453_2025_project.SyncExamples.Outline.{Sound, ended-Ends}
use cs453_2025_project.SyncExamples.Holding.{HasLock}
use cs453_2025_project.SyncExamples.Status.{Status, status}
use cs453_2025_project.SyncExamples.Procon.{texts, Label, Setting, source_runs}
use cs453_2025_project.SyncExamples.Procon.Flow.{
  Phase, rounds, idle, stuck, sleeping, copied, loaded, counting,
}
use cs453_2025_project.SyncExamples.Procon.Locked.{Local}
use cs453_2025_project.SyncExamples.Procon4.{code, main}
use cs453_2025_project.SyncExamples.Procon4.Sleep.{IsAsleep}
use cs453_2025_project.SyncExamples.Procon4.Knows.{Inv, At, Ends, ended-idle}
use cs453_2025_project.SyncExamples.Procon4.Order.{main-Sound}

asleep-rounds : (set : Setting) (p : Phase) → IsAsleep set p → rounds p < set.runs
asleep-rounds set (idle n) a = absurd a
asleep-rounds set (stuck n) a = absurd a
asleep-rounds set (sleeping n) a = a
asleep-rounds set (copied n i) a = absurd a
asleep-rounds set (loaded n i v) a = absurd a
asleep-rounds set (counting n v) a = absurd a

module _ (set : Setting) (p : Pthread) (prompt : IsPrompt p) (s : System (texts set) p Label)
    (d : Sound (texts set) (Inv set) (At set) (Ends set) p s) where
  -- Some thread can take a step.
  abbrev Goes : Type 0
  Goes = (j : ℕ) × (u : System (texts set) p Label) × (step (code set) (run j) s ≡ some u)

  look :
      (i : ℕ)
      → Status (texts set) (Inv set) (At set) (Ends set) p prompt (code set) s d i (s.thread i)
  look i = status (texts set) (Inv set) (At set) (Ends set) p prompt (code set) s d i

  ended-free : (i : ℕ) → s.thread i ≡ ret tt → p.holder s.lock ≢ some i
  ended-free i e =
      let (n, o, _) = ended-Ends (texts set) (Inv set) (At set) (Ends set) p s d i e in
      subst (λ x. HasLock x.held (p.holder s.lock) i) o (d.holds.locks i)

  -- The holder of the lock goes on.
  holder_goes : (k : ℕ) → p.holder s.lock ≡ some k → Goes
  holder_goes k mine = elim (look k) [
    | inl e ↦ absurd (ended-free k e mine)
    | inr (inl (u, e)) ↦ (k, u, e)
    | inr (inr (inl (held, not_mine))) ↦ absurd (not_mine mine)
    | inr (inr (inr (asleep, not_mine))) ↦ absurd (not_mine mine)
  ]

  both_asleep : p.asleep s.lock 0 ≡ true → p.asleep s.lock 1 ≡ true → ⊥
  both_asleep z0 z1 =
      let (_, put_owes, put_why) = d.holds.sleep.put_sleeps z0 in
      let (_, take_owes, take_why) = d.holds.sleep.take_sleeps z1 in
      elim put_why [
        | inl full ↦ elim take_why [
          | inl empty ↦ absurd (omega arith)
          | inr w ↦ absurd (ground arith)
        ]
        | inr w ↦ absurd (ground arith)
      ]

  -- A thread that has ended owes no wake-up, and leaves nothing to wait for.
  ended-owes : (i : ℕ) → s.thread i ≡ ret tt → (d.knows i).owes ≡ false
  ended-owes i e =
      let (n, o, _) = ended-Ends (texts set) (Inv set) (At set) (Ends set) p s d i e in
      ap (λ (x : Local). x.owes) o

  ended-rounds : (i : ℕ) → i < 2 → s.thread i ≡ ret tt → rounds (d.knows i).phase ≡ set.runs
  ended-rounds i lt e = ap rounds (
      ended-idle set (d.knows i) i lt
        (ended-Ends (texts set) (Inv set) (At set) (Ends set) p s d i e))

  put_alone : p.asleep s.lock 0 ≡ true → s.thread 1 ≡ ret tt → ⊥
  put_alone z0 e =
      let (a, _, why) = d.holds.sleep.put_sleeps z0 in
      let flow = d.holds.flow in
      elim why [
        | inl full ↦ absurd (
            omega (
              arith,
              asleep-rounds set (d.knows 0).phase a,
              ended-rounds 1 (omega arith) e,
              flow.put_count,
              flow.take_count,
            ))
        | inr w ↦ absurd (ground (arith, ended-owes 1 e))
      ]

  take_alone : p.asleep s.lock 1 ≡ true → s.thread 0 ≡ ret tt → ⊥
  take_alone z1 e =
      let (a, _, why) = d.holds.sleep.take_sleeps z1 in
      let flow = d.holds.flow in
      elim why [
        | inl empty ↦ absurd (
            omega (
              arith,
              asleep-rounds set (d.knows 1).phase a,
              ended-rounds 0 (omega arith) e,
              flow.put_count,
              flow.take_count,
            ))
        | inr w ↦ absurd (ground (arith, ended-owes 0 e))
      ]

  put_asleep : p.holder s.lock ≡ none → p.asleep s.lock 0 ≡ true → Goes
  put_asleep free z0 = elim (look 1) [
    | inl e ↦ absurd (put_alone z0 e)
    | inr (inl (u, e)) ↦ (1, u, e)
    | inr (inr (inl (held, not_mine))) ↦ absurd (held free)
    | inr (inr (inr (z1, not_mine))) ↦ absurd (both_asleep z0 z1)
  ]

  take_asleep : p.holder s.lock ≡ none → p.asleep s.lock 1 ≡ true → Goes
  take_asleep free z1 = elim (look 0) [
    | inl e ↦ absurd (take_alone z1 e)
    | inr (inl (u, e)) ↦ (0, u, e)
    | inr (inr (inl (held, not_mine))) ↦ absurd (held free)
    | inr (inr (inr (z0, not_mine))) ↦ absurd (both_asleep z0 z1)
  ]

  goes : (i : ℕ) → i < 2 → s.thread i ≢ ret tt → Goes
  goes i lt runs_on = elim (Option-cases (p.holder s.lock)) [
    | inr (k, mine) ↦ holder_goes k mine
    | inl free ↦ elim (look i) [
      | inl e ↦ absurd (runs_on e)
      | inr (inl (u, e)) ↦ (i, u, e)
      | inr (inr (inl (held, not_mine))) ↦ absurd (held free)
      | inr (inr (inr (asleep, not_mine))) ↦ elim (ℕ_discrete i 0) [
        | yes put ↦ put_asleep free (rw (← put) asleep)
        | no not_put ↦ let is_take : i ≡ 1 = omega arith in take_asleep free (rw (← is_take) asleep)
      ]
    ]
  ]

-- No deadlock and no lost wake-up: in every state that the two threads of `main` reach, as long as
-- one of them has not returned, one of the threads can take a step. It holds where there are at
-- most as many rounds as in the source and pthread.h does what POSIX says and lets a caller wait
-- only for a held mutex or in its sleep.
pub main-never_stuck :
    (set : Setting)
    → set.runs ≤ source_runs
    → (p : Pthread) → IsPosix p
    → IsPrompt p
    → (u : System (texts set) p Label) → Reach (code set) (main set p).started u
    → (i : ℕ) → i < 2
    → u.thread i ≢ ret tt
    → (j : ℕ) × (v : System (texts set) p Label) × (step (code set) (run j) u ≡ some v)
main-never_stuck set small p posix prompt u reach i lt runs_on =
    goes set p prompt u (main-Sound set small p posix u reach) i lt runs_on
