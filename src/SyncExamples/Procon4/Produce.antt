-- ===== src/SyncExamples/Procon4/Produce.antt =====
-- One round of `produce` in sync-examples/procon4.c.
use cs453_2025_project.Prelude.{
  ℕ, ◌+◌, ◌%◌, ◌^◌, ◌≡◌, ◌≤◌, ◌<◌, refl, subst, Bool, true, false, Option, none, some, ltb, ltb→lt,
  if◌then◌else◌, arith, update, inl, inr,
}
use cs453_2025_project.SyncExamples.Threads.{sync, cond_return, goto, ◌>>◌}
use cs453_2025_project.SyncExamples.Lock.{lock_acquire, lock_release, lock_wait, lock_wake_up}
use cs453_2025_project.SyncExamples.Outline.{Continues}
use cs453_2025_project.SyncExamples.Holding.{HasLock}
use cs453_2025_project.SyncExamples.Procon.{
  Setting, source_runs, State, texts, produce_round, produce_wait, copy_in,
}
use cs453_2025_project.SyncExamples.Procon.Flow.{idle, stuck, sleeping, copied, counting}
use cs453_2025_project.SyncExamples.Procon.Flow.Put.{put_starts, put_waits, put_counts, put_ends}
use cs453_2025_project.SyncExamples.Procon.Loops.{fill-Outline, copy_in-Outline}
use cs453_2025_project.SyncExamples.Procon.Locked.{Local, inside, outside, put_goes, puts_inside}
use cs453_2025_project.SyncExamples.Procon4.Sleep.{
  Sleep, put_step, put_counted, put_to_sleep, put_returns, all_woken,
}
use cs453_2025_project.SyncExamples.Procon4.{buffer_size, count_produced, put, code}
use cs453_2025_project.SyncExamples.Procon4.Knows.{
  apart, owing, owing_outside, Inv, At, Ends, Does, put_works, take_works, puts, takes,
  put_must_wait,
}

module _ (set : Setting) (small : set.runs ≤ source_runs) (r : ℕ) (below : r < set.runs) where
  put_wakes : Does set (lock_wake_up >> goto (produce_round (r + 1))) 0 (owing_outside (r + 1))
  put_wakes s h z f k inv code = (
    outside (idle (r + 1)),
    put_goes set buffer_size (Sleep set) s s h h z (λ _. false) f (owing_outside (r + 1))
        (outside (idle (r + 1))) k inv (inl refl) (subst (λ x. HasLock x.held h 0) k (inv.locks 0))
        (λ c d. d)
        (λ c l m y.
          all_woken set s z (owing_outside (r + 1)) c (outside (idle (r + 1))) c refl refl refl refl
            y),
    (refl, refl, omega arith),
  )

  put_leaves :
      Does set (lock_release >> (lock_wake_up >> goto (produce_round (r + 1)))) 0 (owing (r + 1))
  put_leaves s h z f k inv =
      let mine : h ≡ some 0 = subst (λ x. HasLock x.held h 0) k (inv.locks 0) in
      (
        mine,
        λ code. (
          owing_outside (r + 1),
          put_goes set buffer_size (Sleep set) s s h none z z f (owing (r + 1))
              (owing_outside (r + 1)) k inv (inr (inr (mine, refl))) (λ e. cc) (λ c d. d)
              (λ c l m y.
                put_step set s s z (owing (r + 1)) (owing_outside (r + 1)) c (refl, refl) (λ a. a)
                  (λ e. absurd e) (λ e. e) y),
          put_wakes,
        ),
      )

  put_stores :
      (v : ℕ) (s : State) (h : Option ℕ) (z : ℕ → Bool) (f : ℕ → Local)
      → f 0 ≡ inside (counting r v)
      → (Inv set) s h z f
      → (Inv set) (record s { produced_until = (v + 1) % 2 ^ 32 }) h z (update f 0 (owing (r + 1)))
  put_stores v s h z f k inv =
      let mine : h ≡ some 0 = subst (λ x. HasLock x.held h 0) k (inv.locks 0) in
      put_goes set buffer_size (Sleep set) s (record s { produced_until = (v + 1) % 2 ^ 32 }) h h z
        z f (inside (counting r v)) (owing (r + 1)) k inv (inl refl) mine
        (λ c d.
          let e : (v + 1) % 2 ^ 32 ≡ r + 1 = omega (arith, d.put_seen, d.put_count) in
          rw e (put_ends set buffer_size apart s r (counting r v) c refl refl refl d))
        (λ c l m y.
          put_counted set s h z c (inside (counting r v)) (owing (r + 1)) ((v + 1) % 2 ^ 32) mine m
            (λ a. a) (λ a. a) refl y)

  counts_produced : Does set (count_produced set r) 0 (inside (copied r set.data_text_size))
  counts_produced s h z f k inv = (
    inside (counting r s.produced_until),
    puts_inside set buffer_size (Sleep set) (put_works set) (take_works set)
        (copied r set.data_text_size) (counting r s.produced_until) s s h z f (refl, refl) refl refl
        (λ c d. put_counts set buffer_size apart s r c d) k inv,
    λ s1 h1 z1 f1 k1 inv1.
        (owing (r + 1), put_stores s.produced_until s1 h1 z1 f1 k1 inv1, put_leaves),
  )

  put-Outline : Does set (put set r) 0 (inside (copied r 0))
  put-Outline =
      fill-Outline set buffer_size apart inside (Inv set) (At set) (Ends set) (puts set) (takes set)
        set.data_text_size r 0
        (copy_in set set.data_text_size (r % buffer_size) r 0 >> count_produced set r)
        (copy_in-Outline set buffer_size apart inside (Inv set) (At set) (Ends set) (puts set)
          (takes set) set.data_text_size r 0 (count_produced set r) (omega arith) counts_produced)

  put_returns_lock :
      Does set (sync cond_return (λ x. goto (produce_wait r))) 0 (outside (sleeping r))
  put_returns_lock s h z f k inv = (
    subst (λ x. HasLock x.held h 0) k (inv.locks 0),
    λ free awake code. (
      inside (idle r),
      put_goes set buffer_size (Sleep set) s s h (some 0) z z f (outside (sleeping r))
          (inside (idle r)) k inv (inr (inl (free, refl))) refl
          (λ c.
            put_waits set buffer_size apart s (sleeping r) (idle r) c refl refl refl (λ t u. tt))
          (λ c l m. put_returns set s z c r awake),
      (refl, refl, below),
    ),
  )

  put_sleeps_now : Does set (lock_wait >> goto (produce_wait r)) 0 (inside (stuck r))
  put_sleeps_now s h z f k inv =
      let mine : h ≡ some 0 = subst (λ x. HasLock x.held h 0) k (inv.locks 0) in
      (
        mine,
        λ code. (
          outside (sleeping r),
          put_goes set buffer_size (Sleep set) s s h none z (update z 0 true) f (inside (stuck r))
              (outside (sleeping r)) k inv (inr (inr (mine, refl))) (λ e. cc)
              (λ c.
                put_waits set buffer_size apart s (stuck r) (sleeping r) c refl refl refl
                  (λ t u. tt))
              (λ c l m. put_to_sleep set s z c r below),
          put_returns_lock,
        ),
      )

  -- The test of `while`.
  pub put_if :
      (b : Bool) (s : State) (h : Option ℕ) (z : ℕ → Bool) (f : ℕ → Local)
      → ltb r (s.consumed_until + buffer_size) ≡ b
      → f 0 ≡ inside (idle r)
      → (Inv set) s h z f
      → Continues
          (texts set)
          (Inv set)
          (At set)
          (Ends set)
          (Does set (if b then put set r else (lock_wait >> goto (produce_wait r))))
          0
          s
          h
          z
          f
  put_if true s h z f e k inv =
      let mine : h ≡ some 0 = subst (λ x. HasLock x.held h 0) k (inv.locks 0) in
      (
        inside (copied r 0),
        put_goes set buffer_size (Sleep set) s s h h z z f (inside (idle r)) (inside (copied r 0)) k
            inv (inl refl) mine (λ c. put_starts set buffer_size apart s r c (ltb→lt _ _ e))
            (λ c l m y.
              put_step set s s z (inside (idle r)) (inside (copied r 0)) c (refl, refl) (λ a. a)
                (λ a. absurd a) (λ w. w) y),
        put-Outline,
      )
  put_if false s h z f e k inv =
      let mine : h ≡ some 0 = subst (λ x. HasLock x.held h 0) k (inv.locks 0) in
      (
        inside (stuck r),
        put_goes set buffer_size (Sleep set) s s h h z z f (inside (idle r)) (inside (stuck r)) k
            inv (inl refl) mine
            (λ c. put_waits set buffer_size apart s (idle r) (stuck r) c refl refl refl (λ t u. tt))
            (λ c l m y.
              put_step set s s z (inside (idle r)) (inside (stuck r)) c (refl, refl) (λ a. a)
                (λ a. (refl, put_must_wait set s h z f r e k inv)) (λ w. w) y),
        put_sleeps_now,
      )

  pub put_enters : Does set (lock_acquire >> goto (produce_wait r)) 0 (outside (idle r))
  put_enters s h z f k inv = (
    subst (λ x. HasLock x.held h 0) k (inv.locks 0),
    λ free code. (
      inside (idle r),
      put_goes set buffer_size (Sleep set) s s h (some 0) z z f (outside (idle r)) (inside (idle r))
          k inv (inr (inl (free, refl))) refl (λ c d. d)
          (λ c l m y.
            put_step set s s z (outside (idle r)) (inside (idle r)) c (refl, refl) (λ a. a)
              (λ a. absurd a) (λ w. w) y),
      (refl, refl, below),
    ),
  )
