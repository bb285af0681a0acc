-- ===== src/SyncExamples/Procon4/Knows.antt =====
-- What the threads of sync-examples/procon4.c know, at the heads of their loops and in between.
use cs453_2025_project.Prelude.{
  ℕ, ◌+◌, ◌%◌, ◌≡◌, ◌≢◌, ◌≤◌, ◌<◌, ◌∙◌, ap, Bool, true, false, Option, ltb, arith, update,
}
use cs453_2025_project.SyncExamples.Threads.{Thread}
use cs453_2025_project.SyncExamples.Outline.{Outline}
use cs453_2025_project.SyncExamples.Procon.{
  Setting, State, texts, Label, produce_round, produce_wait, consume_round, consume_wait,
}
use cs453_2025_project.SyncExamples.Procon.Flow.{Phase, idle, rounds, active, Flow}
use cs453_2025_project.SyncExamples.Procon.Loops.{SameCounts}
use cs453_2025_project.SyncExamples.Procon.Locked.{
  Local, inside, outside, Locked, puts_inside, takes_inside,
}
use cs453_2025_project.SyncExamples.Procon4.Sleep.{
  Sleep, IsFull, IsEmpty, active-awake, active-free, put_step, take_step,
}
use cs453_2025_project.SyncExamples.Procon4.{buffer_size}

pub apart : (q r : ℕ) → q < r → r < q + buffer_size → q % buffer_size ≢ r % buffer_size
apart q r low high = omega arith

-- After its round, a thread has to wake the other.
abbrev pub owing : ℕ → Local
owing n = record { held = true; owes = true; phase = idle n }

abbrev pub owing_outside : ℕ → Local
owing_outside n = record { held = false; owes = true; phase = idle n }

pub false-true : {A : Type 0} → false ≡ true → A
false-true e = absurd (cc)

module _ (set : Setting) where
  abbrev pub Inv : State → Option ℕ → (ℕ → Bool) → (ℕ → Local) → Type 0
  Inv s h z f = Locked set buffer_size (Sleep set) s h z f

  abbrev pub At : ℕ → Label → Local → Type 0
  At i (produce_round r) g = (i ≡ 0) × (g ≡ outside (idle r)) × (r ≤ set.runs)
  At i (produce_wait r) g = (i ≡ 0) × (g ≡ inside (idle r)) × (r < set.runs)
  At i (consume_round r) g = (i ≡ 1) × (g ≡ outside (idle r)) × (r ≤ set.runs)
  At i (consume_wait r) g = (i ≡ 1) × (g ≡ inside (idle r)) × (r < set.runs)

  abbrev pub Ends : ℕ → Local → Type 0
  Ends i g = (n : ℕ) × (g ≡ outside (idle n)) × (i < 2 → n ≡ set.runs)

  pub ended-idle : (g : Local) (i : ℕ) → i < 2 → Ends i g → g.phase ≡ idle set.runs
  ended-idle g i lt (n, e, all) = ap (λ (x : Local). x.phase) e ∙ ap idle (all lt)

  -- The outline of a program.
  abbrev pub Does : Thread (texts set) Label → ℕ → Local → Type 0
  Does n = Outline (texts set) Inv At Ends n

  pub put_works :
      (p q : Phase) (s t : State) (z : ℕ → Bool) (c : Local)
      → SameCounts s t
      → active p ≡ true
      → active q ≡ true
      → Sleep set s z (inside p) c
      → Sleep set t z (inside q) c
  put_works p q s t z c same tp tq =
      put_step set s t z (inside p) (inside q) c same (active-awake set p tp)
        (λ a. absurd (active-free set q tq a)) (λ w. w)

  pub take_works :
      (p q : Phase) (s t : State) (z : ℕ → Bool) (c : Local)
      → SameCounts s t
      → active p ≡ true
      → active q ≡ true
      → Sleep set s z c (inside p)
      → Sleep set t z c (inside q)
  take_works p q s t z c same tp tq =
      take_step set s t z (inside p) (inside q) c same (active-awake set p tp)
        (λ a. absurd (active-free set q tq a)) (λ w. w)

  pub puts :
      (p q : Phase) (s t : State) (h : Option ℕ) (z : ℕ → Bool) (f : ℕ → Local)
      → SameCounts s t
      → active p ≡ true
      → active q ≡ true
      → ((c : Phase) → Flow set buffer_size s p c → Flow set buffer_size t q c)
      → f 0 ≡ inside p
      → Inv s h z f
      → Inv t h z (update f 0 (inside q))
  puts = puts_inside set buffer_size (Sleep set) put_works take_works

  pub takes :
      (p q : Phase) (s t : State) (h : Option ℕ) (z : ℕ → Bool) (f : ℕ → Local)
      → SameCounts s t
      → active p ≡ true
      → active q ≡ true
      → ((c : Phase) → Flow set buffer_size s c p → Flow set buffer_size t c q)
      → f 1 ≡ inside p
      → Inv s h z f
      → Inv t h z (update f 1 (inside q))
  takes = takes_inside set buffer_size (Sleep set) put_works take_works

  pub put_must_wait :
      (s : State) (h : Option ℕ) (z : ℕ → Bool) (f : ℕ → Local) (r : ℕ)
      → ltb r (s.consumed_until + buffer_size) ≡ false
      → f 0 ≡ inside (idle r)
      → Inv s h z f
      → IsFull s
  put_must_wait s h z f r e k inv =
      let count : s.produced_until ≡ r =
        inv.flow.put_count ∙ ap (λ (x : Local). rounds x.phase) k in
      ground arith

  pub take_must_wait :
      (s : State) (h : Option ℕ) (z : ℕ → Bool) (f : ℕ → Local) (r : ℕ)
      → ltb r s.produced_until ≡ false
      → f 1 ≡ inside (idle r)
      → Inv s h z f
      → IsEmpty s
  take_must_wait s h z f r e k inv =
      let count : s.consumed_until ≡ r =
        inv.flow.take_count ∙ ap (λ (x : Local). rounds x.phase) k in
      ground arith
