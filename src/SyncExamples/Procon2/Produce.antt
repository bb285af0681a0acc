-- ===== src/SyncExamples/Procon2/Produce.antt =====
-- One round of `produce` in sync-examples/procon2.c.
use cs453_2025_project.Prelude.{
  ℕ, ◌+◌, ◌%◌, ◌^◌, ◌≡◌, ◌≤◌, ◌<◌, refl, subst, Bool, true, false, Option, none, some, ltb, ltb→lt,
  if◌then◌else◌, arith, update, inl, inr,
}
use cs453_2025_project.SyncExamples.Threads.{goto, ◌>>◌}
use cs453_2025_project.SyncExamples.Lock.{lock_release}
use cs453_2025_project.SyncExamples.Outline.{Continues}
use cs453_2025_project.SyncExamples.Holding.{HasLock}
use cs453_2025_project.SyncExamples.Procon.{
  Setting, source_runs, State, texts, produce_round, produce_wait, copy_in,
}
use cs453_2025_project.SyncExamples.Procon.Flow.{idle, copied, counting}
use cs453_2025_project.SyncExamples.Procon.Flow.Put.{put_starts, put_counts, put_ends}
use cs453_2025_project.SyncExamples.Procon.Loops.{fill-Outline, copy_in-Outline}
use cs453_2025_project.SyncExamples.Procon.Locked.{Local, inside, outside, put_goes, puts_inside}
use cs453_2025_project.SyncExamples.Procon2.{buffer_size, count_produced, put, produce}
use cs453_2025_project.SyncExamples.Procon2.Knows.{apart, Sleep, Inv, At, Ends, Does, puts, takes}

module _ (set : Setting) (small : set.runs ≤ source_runs) (r : ℕ) (below : r < set.runs) where
  put_leaves : Does set (lock_release >> goto (produce_round (r + 1))) 0 (inside (idle (r + 1)))
  put_leaves s h z f k inv =
      let mine : h ≡ some 0 = subst (λ x. HasLock x.held h 0) k (inv.locks 0) in
      (
        mine,
        λ code. (
          outside (idle (r + 1)),
          put_goes set buffer_size Sleep s s h none z z f (inside (idle (r + 1)))
              (outside (idle (r + 1))) k inv (inr (inr (mine, refl))) (λ e. cc) (λ c d. d)
              (λ c l m y. tt),
          (refl, refl, omega arith),
        ),
      )

  put_stores :
      (v : ℕ) (s : State) (h : Option ℕ) (z : ℕ → Bool) (f : ℕ → Local)
      → f 0 ≡ inside (counting r v)
      → (Inv set) s h z f
      → (Inv set)
          (record s { produced_until = (v + 1) % 2 ^ 32 })
          h
          z
          (update f 0 (inside (idle (r + 1))))
  put_stores v s h z f k inv =
      let mine : h ≡ some 0 = subst (λ x. HasLock x.held h 0) k (inv.locks 0) in
      put_goes set buffer_size Sleep s (record s { produced_until = (v + 1) % 2 ^ 32 }) h h z z f
        (inside (counting r v)) (inside (idle (r + 1))) k inv (inl refl) mine
        (λ c d.
          let e : (v + 1) % 2 ^ 32 ≡ r + 1 = omega (arith, d.put_seen, d.put_count) in
          rw e (put_ends set buffer_size apart s r (counting r v) c refl refl refl d))
        (λ c l m y. tt)

  counts_produced : Does set (count_produced set r) 0 (inside (copied r set.data_text_size))
  counts_produced s h z f k inv = (
    inside (counting r s.produced_until),
    puts_inside set buffer_size Sleep (λ p q s t z c e tp tq y. tt) (λ p q s t z c e tp tq y. tt)
        (copied r set.data_text_size) (counting r s.produced_until) s s h z f (refl, refl) refl refl
        (λ c d. put_counts set buffer_size apart s r c d) k inv,
    λ s1 h1 z1 f1 k1 inv1.
        (inside (idle (r + 1)), put_stores s.produced_until s1 h1 z1 f1 k1 inv1, put_leaves),
  )

  put-Outline : Does set (put set r) 0 (inside (copied r 0))
  put-Outline =
      fill-Outline set buffer_size apart inside (Inv set) (At set) (Ends set) (puts set) (takes set)
        set.data_text_size r 0
        (copy_in set set.data_text_size (r % buffer_size) r 0 >> count_produced set r)
        (copy_in-Outline set buffer_size apart inside (Inv set) (At set) (Ends set) (puts set)
          (takes set) set.data_text_size r 0 (count_produced set r) (omega arith) counts_produced)

  put_again : Does set (lock_release >> goto (produce_wait r)) 0 (inside (idle r))
  put_again s h z f k inv =
      let mine : h ≡ some 0 = subst (λ x. HasLock x.held h 0) k (inv.locks 0) in
      (
        mine,
        λ code. (
          outside (idle r),
          put_goes set buffer_size Sleep s s h none z z f (inside (idle r)) (outside (idle r)) k inv
              (inr (inr (mine, refl))) (λ e. cc) (λ c d. d) (λ c l m y. tt),
          (refl, refl, below),
        ),
      )

  -- The test of `while`.
  pub put_if :
      (b : Bool) (s : State) (h : Option ℕ) (z : ℕ → Bool) (f : ℕ → Local)
      → ltb r (s.consumed_until + buffer_size) ≡ b
      → f 0 ≡ inside (idle r)
      → (Inv set) s h z f
      → Continues
          (texts set)
          (Inv set)
          (At set)
          (Ends set)
          (Does set (if b then put set r else (lock_release >> goto (produce_wait r))))
          0
          s
          h
          z
          f
  put_if true s h z f e k inv =
      let mine : h ≡ some 0 = subst (λ x. HasLock x.held h 0) k (inv.locks 0) in
      (
        inside (copied r 0),
        put_goes set buffer_size Sleep s s h h z z f (inside (idle r)) (inside (copied r 0)) k inv
            (inl refl) mine (λ c. put_starts set buffer_size apart s r c (ltb→lt _ _ e))
            (λ c l m y. tt),
        put-Outline,
      )
  put_if false s h z f e k inv =
      let mine : h ≡ some 0 = subst (λ x. HasLock x.held h 0) k (inv.locks 0) in
      (
        inside (idle r),
        put_goes set buffer_size Sleep s s h h z z f (inside (idle r)) (inside (idle r)) k inv
            (inl refl) mine (λ c d. d) (λ c l m y. tt),
        put_again,
      )

  pub put_enters : Does set (produce set r) 0 (outside (idle r))
  put_enters s h z f k inv = (
    subst (λ x. HasLock x.held h 0) k (inv.locks 0),
    λ free code. (
      inside (idle r),
      put_goes set buffer_size Sleep s s h (some 0) z z f (outside (idle r)) (inside (idle r)) k inv
          (inr (inl (free, refl))) refl (λ c d. d) (λ c l m y. tt),
      λ s1 h1 z1 f1 k1 inv1.
          put_if (ltb r (s1.consumed_until + buffer_size)) s1 h1 z1 f1 refl k1 inv1,
    ),
  )
