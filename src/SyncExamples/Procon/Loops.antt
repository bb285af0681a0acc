-- ===== src/SyncExamples/Procon/Loops.antt =====
-- Outlines of the loops over the bytes of a text, for any invariant that contains the flow and lets
-- the thread go on by a step of it.
use cs453_2025_project.Prelude.{
  ℕ, zero, suc, ◌+◌, ◌%◌, ◌^◌, ◌≡◌, ◌≢◌, ◌<◌, refl, subst, Bool, true, Option, arith, update, ◌==◌,
  ==→eq,
}
use cs453_2025_project.SyncExamples.Threads.{Pthread, Thread, ◌>>◌}
use cs453_2025_project.SyncExamples.Outline.{Outline, Outline-if}
use cs453_2025_project.SyncExamples.Procon.{
  Setting, State, texts, Label, produce_round, consume_round, start_threads, fill, copy_in,
  copy_out,
}
use cs453_2025_project.SyncExamples.Procon.Flow.{Phase, active, copied, loaded, Flow}
use cs453_2025_project.SyncExamples.Procon.Flow.Put.{rand_called, put_fills, put_loads, put_stores}
use cs453_2025_project.SyncExamples.Procon.Flow.Take.{take_loads, take_stores}

-- Neither counter has changed.
abbrev pub SameCounts : State → State → Type 0
SameCounts s t = (t.produced_until ≡ s.produced_until) × (t.consumed_until ≡ s.consumed_until)

-- The threads of `main`, from the heads of their loops.
pub threads-Outline :
    (set : Setting) (p : Pthread) {G : Type 0}
    (Inv : State → Option ℕ → (ℕ → Bool) → (ℕ → G) → Type 0) (At : ℕ → Label → G → Type 0)
    (Ends : ℕ → G → Type 0) (g : G)
    → At 0 (produce_round 0) g
    → At 1 (consume_round 0) g
    → ((i : ℕ) → i ≢ 0 → i ≢ 1 → Ends i g)
    → (i : ℕ) → Outline (texts set) Inv At Ends ((start_threads set p).thread i) i g
threads-Outline set p Inv At Ends g put take others i =
    Outline-if (texts set) Inv At Ends (i == 0) _ _ i g (λ t. rw (==→eq i 0 t) put)
      (λ ne0.
        Outline-if (texts set) Inv At Ends (i == 1) _ _ i g (λ t. rw (==→eq i 1 t) take)
          (λ ne1. others i (λ e. absurd (ground arith)) (λ e. absurd (ground arith))))

module _ (set : Setting) (size : ℕ) (apart : (q r : ℕ) → q < r → r < q + size → q % size ≢ r % size)
    {G : Type 0} (knows : Phase → G) (Inv : State → Option ℕ → (ℕ → Bool) → (ℕ → G) → Type 0)
    (At : ℕ → Label → G → Type 0) (Ends : ℕ → G → Type 0)
    (puts : (p q : Phase) (s t : State) (h : Option ℕ) (z : ℕ → Bool) (f : ℕ → G)
      → SameCounts s t
      → active p ≡ true
      → active q ≡ true
      → ((c : Phase) → Flow set size s p c → Flow set size t q c)
      → f 0 ≡ knows p
      → Inv s h z f
      → Inv t h z (update f 0 (knows q)))
    (takes : (p q : Phase) (s t : State) (h : Option ℕ) (z : ℕ → Bool) (f : ℕ → G)
      → SameCounts s t
      → active p ≡ true
      → active q ≡ true
      → ((c : Phase) → Flow set size s c p → Flow set size t c q)
      → f 1 ≡ knows p
      → Inv s h z f
      → Inv t h z (update f 1 (knows q))) where
  pub fill-Outline :
      (n r i : ℕ) (rest : Thread (texts set) Label)
      → Outline (texts set) Inv At Ends rest 0 (knows (copied r 0))
      → Outline (texts set) Inv At Ends (fill set n r i >> rest) 0 (knows (copied r 0))
  unfolding fill
  fill-Outline zero r i rest o = o
  fill-Outline (suc n) r i rest o = λ s h z f k inv. (
    knows (copied r 0),
    puts (copied r 0) (copied r 0) s _ h z f (refl, refl) refl refl
        (λ c. rand_called set size apart s (s.rands + 1) (copied r 0) c) k inv,
    λ s1 h1 z1 f1 k1 inv1. (
      knows (copied r 0),
      puts (copied r 0) (copied r 0) s1 _ h1 z1 f1 (refl, refl) refl refl
          (λ c. put_fills set size apart s1 r i (set.rand s.rands % 2 ^ 8) c) k1 inv1,
      fill-Outline n r (i + 1) rest o,
    ),
  )

  pub copy_in-Outline :
      (n r i : ℕ) (rest : Thread (texts set) Label)
      → i + n ≡ set.data_text_size
      → Outline (texts set) Inv At Ends rest 0 (knows (copied r set.data_text_size))
      → Outline
          (texts set)
          Inv
          At
          Ends
          (copy_in set n (r % size) r i >> rest)
          0
          (knows (copied r i))
  unfolding copy_in
  copy_in-Outline zero r i rest e o =
      subst (λ j. Outline (texts set) Inv At Ends rest 0 (knows (copied r j))) (omega arith) o
  copy_in-Outline (suc n) r i rest e o = λ s h z f k inv. (
    knows (loaded r i (s.produced r i)),
    puts (copied r i) (loaded r i (s.produced r i)) s _ h z f (refl, refl) refl refl
        (λ c. put_loads set size apart s r i c) k inv,
    λ s1 h1 z1 f1 k1 inv1. (
      knows (copied r (i + 1)),
      puts (loaded r i (s.produced r i)) (copied r (i + 1)) s1 _ h1 z1 f1 (refl, refl) refl refl
          (λ c. put_stores set size apart s1 r i (s.produced r i) c) k1 inv1,
      copy_in-Outline n r (i + 1) rest (omega arith) o,
    ),
  )

  pub copy_out-Outline :
      (n r i : ℕ) (rest : Thread (texts set) Label)
      → i + n ≡ set.data_text_size
      → Outline (texts set) Inv At Ends rest 1 (knows (copied r set.data_text_size))
      → Outline
          (texts set)
          Inv
          At
          Ends
          (copy_out set n (r % size) r i >> rest)
          1
          (knows (copied r i))
  unfolding copy_out
  copy_out-Outline zero r i rest e o =
      subst (λ j. Outline (texts set) Inv At Ends rest 1 (knows (copied r j))) (omega arith) o
  copy_out-Outline (suc n) r i rest e o = λ s h z f k inv. (
    knows (loaded r i (s.buffer (r % size) i)),
    takes (copied r i) (loaded r i (s.buffer (r % size) i)) s _ h z f (refl, refl) refl refl
        (λ c. take_loads set size apart s r i c (omega arith)) k inv,
    λ s1 h1 z1 f1 k1 inv1. (
      knows (copied r (i + 1)),
      takes (loaded r i (s.buffer (r % size) i)) (copied r (i + 1)) s1 _ h1 z1 f1 (refl, refl) refl
          refl (λ c. take_stores set size apart s1 r i (s.buffer (r % size) i) c) k1 inv1,
      copy_out-Outline n r (i + 1) rest (omega arith) o,
    ),
  )
