-- ===== src/SyncExamples/Procon4/Consume.antt =====
-- One round of `consume` in sync-examples/procon4.c.
use cs453_2025_project.Prelude.{
  ℕ, ◌+◌, ◌%◌, ◌^◌, ◌≡◌, ◌≤◌, ◌<◌, refl, subst, Bool, true, false, Option, none, some, ltb, ltb→lt,
  if◌then◌else◌, arith, update, inl, inr,
}
use cs453_2025_project.SyncExamples.Threads.{sync, cond_return, goto, ◌>>◌}
use cs453_2025_project.SyncExamples.Lock.{lock_acquire, lock_release, lock_wait, lock_wake_up}
use cs453_2025_project.SyncExamples.Outline.{Continues}
use cs453_2025_project.SyncExamples.Holding.{HasLock}
use cs453_2025_project.SyncExamples.Procon.{
  Setting, source_runs, State, texts, consume_round, consume_wait,
}
use cs453_2025_project.SyncExamples.Procon.Flow.{idle, stuck, sleeping, copied, counting}
use cs453_2025_project.SyncExamples.Procon.Flow.Take.{
  take_starts, take_waits, take_counts, take_ends,
}
use cs453_2025_project.SyncExamples.Procon.Loops.{copy_out-Outline}
use cs453_2025_project.SyncExamples.Procon.Locked.{Local, inside, outside, take_goes, takes_inside}
use cs453_2025_project.SyncExamples.Procon4.Sleep.{
  Sleep, take_step, take_counted, take_to_sleep, take_returns, all_woken,
}
use cs453_2025_project.SyncExamples.Procon4.{buffer_size, count_consumed, take, code}
use cs453_2025_project.SyncExamples.Procon4.Knows.{
  apart, owing, owing_outside, Inv, At, Ends, Does, put_works, take_works, puts, takes,
  take_must_wait,
}

module _ (set : Setting) (small : set.runs ≤ source_runs) (r : ℕ) (below : r < set.runs) where
  take_wakes : Does set (lock_wake_up >> goto (consume_round (r + 1))) 1 (owing_outside (r + 1))
  take_wakes s h z f k inv code = (
    outside (idle (r + 1)),
    take_goes set buffer_size (Sleep set) s s h h z (λ _. false) f (owing_outside (r + 1))
        (outside (idle (r + 1))) k inv (inl refl) (subst (λ x. HasLock x.held h 1) k (inv.locks 1))
        (λ p d. d)
        (λ p l m y.
          all_woken set s z p (owing_outside (r + 1)) p (outside (idle (r + 1))) refl refl refl refl
            y),
    (refl, refl, omega arith),
  )

  take_leaves :
      Does set (lock_release >> (lock_wake_up >> goto (consume_round (r + 1)))) 1 (owing (r + 1))
  take_leaves s h z f k inv =
      let mine : h ≡ some 1 = subst (λ x. HasLock x.held h 1) k (inv.locks 1) in
      (
        mine,
        λ code. (
          owing_outside (r + 1),
          take_goes set buffer_size (Sleep set) s s h none z z f (owing (r + 1))
              (owing_outside (r + 1)) k inv (inr (inr (mine, refl))) (λ e. cc) (λ p d. d)
              (λ p l m y.
                take_step set s s z (owing (r + 1)) (owing_outside (r + 1)) p (refl, refl) (λ a. a)
                  (λ e. absurd e) (λ e. e) y),
          take_wakes,
        ),
      )

  take_stores :
      (v : ℕ) (s : State) (h : Option ℕ) (z : ℕ → Bool) (f : ℕ → Local)
      → f 1 ≡ inside (counting r v)
      → (Inv set) s h z f
      → (Inv set) (record s { consumed_until = (v + 1) % 2 ^ 32 }) h z (update f 1 (owing (r + 1)))
  take_stores v s h z f k inv =
      let mine : h ≡ some 1 = subst (λ x. HasLock x.held h 1) k (inv.locks 1) in
      take_goes set buffer_size (Sleep set) s (record s { consumed_until = (v + 1) % 2 ^ 32 }) h h z
        z f (inside (counting r v)) (owing (r + 1)) k inv (inl refl) mine
        (λ p d.
          let e : (v + 1) % 2 ^ 32 ≡ r + 1 = omega (arith, d.take_seen, d.take_count) in
          rw e (take_ends set buffer_size apart s r p (counting r v) refl refl refl d))
        (λ p l m y.
          take_counted set s h z p (inside (counting r v)) (owing (r + 1)) ((v + 1) % 2 ^ 32) mine m
            (λ a. a) (λ a. a) refl y)

  counts_consumed : Does set (count_consumed set r) 1 (inside (copied r set.data_text_size))
  counts_consumed s h z f k inv = (
    inside (counting r s.consumed_until),
    takes_inside set buffer_size (Sleep set) (put_works set) (take_works set)
        (copied r set.data_text_size) (counting r s.consumed_until) s s h z f (refl, refl) refl refl
        (λ p d. take_counts set buffer_size apart s r p d) k inv,
    λ s1 h1 z1 f1 k1 inv1.
        (owing (r + 1), take_stores s.consumed_until s1 h1 z1 f1 k1 inv1, take_leaves),
  )

  take-Outline : Does set (take set r) 1 (inside (copied r 0))
  take-Outline =
      copy_out-Outline set buffer_size apart inside (Inv set) (At set) (Ends set) (puts set)
        (takes set) set.data_text_size r 0 (count_consumed set r) (omega arith) counts_consumed

  take_returns_lock :
      Does set (sync cond_return (λ x. goto (consume_wait r))) 1 (outside (sleeping r))
  take_returns_lock s h z f k inv = (
    subst (λ x. HasLock x.held h 1) k (inv.locks 1),
    λ free awake code. (
      inside (idle r),
      take_goes set buffer_size (Sleep set) s s h (some 1) z z f (outside (sleeping r))
          (inside (idle r)) k inv (inr (inl (free, refl))) refl
          (λ p.
            take_waits set buffer_size apart s p (sleeping r) (idle r) refl refl refl (λ t u. tt))
          (λ p l m. take_returns set s z p r awake),
      (refl, refl, below),
    ),
  )

  take_sleeps_now : Does set (lock_wait >> goto (consume_wait r)) 1 (inside (stuck r))
  take_sleeps_now s h z f k inv =
      let mine : h ≡ some 1 = subst (λ x. HasLock x.held h 1) k (inv.locks 1) in
      (
        mine,
        λ code. (
          outside (sleeping r),
          take_goes set buffer_size (Sleep set) s s h none z (update z 1 true) f (inside (stuck r))
              (outside (sleeping r)) k inv (inr (inr (mine, refl))) (λ e. cc)
              (λ p.
                take_waits set buffer_size apart s p (stuck r) (sleeping r) refl refl refl
                  (λ t u. tt))
              (λ p l m. take_to_sleep set s z p r below),
          take_returns_lock,
        ),
      )

  -- The test of `while`.
  pub take_if :
      (b : Bool) (s : State) (h : Option ℕ) (z : ℕ → Bool) (f : ℕ → Local)
      → ltb r s.produced_until ≡ b
      → f 1 ≡ inside (idle r)
      → (Inv set) s h z f
      → Continues
          (texts set)
          (Inv set)
          (At set)
          (Ends set)
          (Does set (if b then take set r else (lock_wait >> goto (consume_wait r))))
          1
          s
          h
          z
          f
  take_if true s h z f e k inv =
      let mine : h ≡ some 1 = subst (λ x. HasLock x.held h 1) k (inv.locks 1) in
      (
        inside (copied r 0),
        take_goes set buffer_size (Sleep set) s s h h z z f (inside (idle r)) (inside (copied r 0))
            k inv (inl refl) mine (λ p. take_starts set buffer_size apart s r p (ltb→lt _ _ e))
            (λ p l m y.
              take_step set s s z (inside (idle r)) (inside (copied r 0)) p (refl, refl) (λ a. a)
                (λ a. absurd a) (λ w. w) y),
        take-Outline,
      )
  take_if false s h z f e k inv =
      let mine : h ≡ some 1 = subst (λ x. HasLock x.held h 1) k (inv.locks 1) in
      (
        inside (stuck r),
        take_goes set buffer_size (Sleep set) s s h h z z f (inside (idle r)) (inside (stuck r)) k
            inv (inl refl) mine
            (λ p.
              take_waits set buffer_size apart s p (idle r) (stuck r) refl refl refl (λ t u. tt))
            (λ p l m y.
              take_step set s s z (inside (idle r)) (inside (stuck r)) p (refl, refl) (λ a. a)
                (λ a. (refl, take_must_wait set s h z f r e k inv)) (λ w. w) y),
        take_sleeps_now,
      )

  pub take_enters : Does set (lock_acquire >> goto (consume_wait r)) 1 (outside (idle r))
  take_enters s h z f k inv = (
    subst (λ x. HasLock x.held h 1) k (inv.locks 1),
    λ free code. (
      inside (idle r),
      take_goes set buffer_size (Sleep set) s s h (some 1) z z f (outside (idle r))
          (inside (idle r)) k inv (inr (inl (free, refl))) refl (λ p d. d)
          (λ p l m y.
            take_step set s s z (outside (idle r)) (inside (idle r)) p (refl, refl) (λ a. a)
              (λ a. absurd a) (λ w. w) y),
      (refl, refl, below),
    ),
  )
