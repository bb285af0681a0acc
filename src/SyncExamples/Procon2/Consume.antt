-- ===== src/SyncExamples/Procon2/Consume.antt =====
-- One round of `consume` in sync-examples/procon2.c.
use cs453_2025_project.Prelude.{
  ℕ, ◌+◌, ◌%◌, ◌^◌, ◌≡◌, ◌≤◌, ◌<◌, refl, subst, Bool, true, false, Option, none, some, ltb, ltb→lt,
  if◌then◌else◌, arith, update, inl, inr,
}
use cs453_2025_project.SyncExamples.Threads.{goto, ◌>>◌}
use cs453_2025_project.SyncExamples.Lock.{lock_release}
use cs453_2025_project.SyncExamples.Outline.{Continues}
use cs453_2025_project.SyncExamples.Holding.{HasLock}
use cs453_2025_project.SyncExamples.Procon.{
  Setting, source_runs, State, texts, consume_round, consume_wait,
}
use cs453_2025_project.SyncExamples.Procon.Flow.{idle, copied, counting}
use cs453_2025_project.SyncExamples.Procon.Flow.Take.{take_starts, take_counts, take_ends}
use cs453_2025_project.SyncExamples.Procon.Loops.{copy_out-Outline}
use cs453_2025_project.SyncExamples.Procon.Locked.{Local, inside, outside, take_goes, takes_inside}
use cs453_2025_project.SyncExamples.Procon2.{buffer_size, count_consumed, take, consume}
use cs453_2025_project.SyncExamples.Procon2.Knows.{apart, Sleep, Inv, At, Ends, Does, puts, takes}

module _ (set : Setting) (small : set.runs ≤ source_runs) (r : ℕ) (below : r < set.runs) where
  take_leaves : Does set (lock_release >> goto (consume_round (r + 1))) 1 (inside (idle (r + 1)))
  take_leaves s h z f k inv =
      let mine : h ≡ some 1 = subst (λ x. HasLock x.held h 1) k (inv.locks 1) in
      (
        mine,
        λ code. (
          outside (idle (r + 1)),
          take_goes set buffer_size Sleep s s h none z z f (inside (idle (r + 1)))
              (outside (idle (r + 1))) k inv (inr (inr (mine, refl))) (λ e. cc) (λ p d. d)
              (λ p l m y. tt),
          (refl, refl, omega arith),
        ),
      )

  take_stores :
      (v : ℕ) (s : State) (h : Option ℕ) (z : ℕ → Bool) (f : ℕ → Local)
      → f 1 ≡ inside (counting r v)
      → (Inv set) s h z f
      → (Inv set)
          (record s { consumed_until = (v + 1) % 2 ^ 32 })
          h
          z
          (update f 1 (inside (idle (r + 1))))
  take_stores v s h z f k inv =
      let mine : h ≡ some 1 = subst (λ x. HasLock x.held h 1) k (inv.locks 1) in
      take_goes set buffer_size Sleep s (record s { consumed_until = (v + 1) % 2 ^ 32 }) h h z z f
        (inside (counting r v)) (inside (idle (r + 1))) k inv (inl refl) mine
        (λ p d.
          let e : (v + 1) % 2 ^ 32 ≡ r + 1 = omega (arith, d.take_seen, d.take_count) in
          rw e (take_ends set buffer_size apart s r p (counting r v) refl refl refl d))
        (λ p l m y. tt)

  counts_consumed : Does set (count_consumed set r) 1 (inside (copied r set.data_text_size))
  counts_consumed s h z f k inv = (
    inside (counting r s.consumed_until),
    takes_inside set buffer_size Sleep (λ p q s t z c e tp tq y. tt) (λ p q s t z c e tp tq y. tt)
        (copied r set.data_text_size) (counting r s.consumed_until) s s h z f (refl, refl) refl refl
        (λ p d. take_counts set buffer_size apart s r p d) k inv,
    λ s1 h1 z1 f1 k1 inv1.
        (inside (idle (r + 1)), take_stores s.consumed_until s1 h1 z1 f1 k1 inv1, take_leaves),
  )

  take-Outline : Does set (take set r) 1 (inside (copied r 0))
  take-Outline =
      copy_out-Outline set buffer_size apart inside (Inv set) (At set) (Ends set) (puts set)
        (takes set) set.data_text_size r 0 (count_consumed set r) (omega arith) counts_consumed

  take_again : Does set (lock_release >> goto (consume_wait r)) 1 (inside (idle r))
  take_again s h z f k inv =
      let mine : h ≡ some 1 = subst (λ x. HasLock x.held h 1) k (inv.locks 1) in
      (
        mine,
        λ code. (
          outside (idle r),
          take_goes set buffer_size Sleep s s h none z z f (inside (idle r)) (outside (idle r)) k
              inv (inr (inr (mine, refl))) (λ e. cc) (λ p d. d) (λ p l m y. tt),
          (refl, refl, below),
        ),
      )

  -- The test of `while`.
  pub take_if :
      (b : Bool) (s : State) (h : Option ℕ) (z : ℕ → Bool) (f : ℕ → Local)
      → ltb r s.produced_until ≡ b
      → f 1 ≡ inside (idle r)
      → (Inv set) s h z f
      → Continues
          (texts set)
          (Inv set)
          (At set)
          (Ends set)
          (Does set (if b then take set r else (lock_release >> goto (consume_wait r))))
          1
          s
          h
          z
          f
  take_if true s h z f e k inv =
      let mine : h ≡ some 1 = subst (λ x. HasLock x.held h 1) k (inv.locks 1) in
      (
        inside (copied r 0),
        take_goes set buffer_size Sleep s s h h z z f (inside (idle r)) (inside (copied r 0)) k inv
            (inl refl) mine (λ p. take_starts set buffer_size apart s r p (ltb→lt _ _ e))
            (λ p l m y. tt),
        take-Outline,
      )
  take_if false s h z f e k inv =
      let mine : h ≡ some 1 = subst (λ x. HasLock x.held h 1) k (inv.locks 1) in
      (
        inside (idle r),
        take_goes set buffer_size Sleep s s h h z z f (inside (idle r)) (inside (idle r)) k inv
            (inl refl) mine (λ p d. d) (λ p l m y. tt),
        take_again,
      )

  pub take_enters : Does set (consume set r) 1 (outside (idle r))
  take_enters s h z f k inv = (
    subst (λ x. HasLock x.held h 1) k (inv.locks 1),
    λ free code. (
      inside (idle r),
      take_goes set buffer_size Sleep s s h (some 1) z z f (outside (idle r)) (inside (idle r)) k
          inv (inr (inl (free, refl))) refl (λ p d. d) (λ p l m y. tt),
      λ s1 h1 z1 f1 k1 inv1. take_if (ltb r s1.produced_until) s1 h1 z1 f1 refl k1 inv1,
    ),
  )
