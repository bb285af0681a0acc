-- ===== src/SyncExamples/Procon2/Knows.antt =====
-- What the threads of sync-examples/procon2.c know, at the heads of their loops and in between.
use cs453_2025_project.Prelude.{
  ℕ, ◌+◌, ◌%◌, ◌≡◌, ◌≢◌, ◌≤◌, ◌<◌, ◌∙◌, ap, Bool, true, Option, arith, update,
}
use cs453_2025_project.SyncExamples.Threads.{Thread}
use cs453_2025_project.SyncExamples.Outline.{Outline}
use cs453_2025_project.SyncExamples.Procon.{
  Setting, State, texts, Label, produce_round, produce_wait, consume_round, consume_wait,
}
use cs453_2025_project.SyncExamples.Procon.Flow.{Phase, idle, active, Flow}
use cs453_2025_project.SyncExamples.Procon.Loops.{SameCounts}
use cs453_2025_project.SyncExamples.Procon.Locked.{
  Local, inside, outside, Locked, puts_inside, takes_inside,
}
use cs453_2025_project.SyncExamples.Procon2.{buffer_size}

pub apart : (q r : ℕ) → q < r → r < q + buffer_size → q % buffer_size ≢ r % buffer_size
apart q r low high = omega arith

-- Nobody sleeps in this program.
abbrev pub Sleep : State → (ℕ → Bool) → Local → Local → Type 0
Sleep s z p c = Unit {0}

module _ (set : Setting) where
  abbrev pub Inv : State → Option ℕ → (ℕ → Bool) → (ℕ → Local) → Type 0
  Inv s h z f = Locked set buffer_size Sleep s h z f

  abbrev pub At : ℕ → Label → Local → Type 0
  At i (produce_round r) g = (i ≡ 0) × (g ≡ outside (idle r)) × (r ≤ set.runs)
  At i (produce_wait r) g = (i ≡ 0) × (g ≡ outside (idle r)) × (r < set.runs)
  At i (consume_round r) g = (i ≡ 1) × (g ≡ outside (idle r)) × (r ≤ set.runs)
  At i (consume_wait r) g = (i ≡ 1) × (g ≡ outside (idle r)) × (r < set.runs)

  abbrev pub Ends : ℕ → Local → Type 0
  Ends i g = (n : ℕ) × (g ≡ outside (idle n)) × (i < 2 → n ≡ set.runs)

  pub ended-idle : (g : Local) (i : ℕ) → i < 2 → Ends i g → g.phase ≡ idle set.runs
  ended-idle g i lt (n, e, all) = ap (λ (x : Local). x.phase) e ∙ ap idle (all lt)

  -- The outline of a program.
  abbrev pub Does : Thread (texts set) Label → ℕ → Local → Type 0
  Does n = Outline (texts set) Inv At Ends n

  pub puts :
      (p q : Phase) (s t : State) (h : Option ℕ) (z : ℕ → Bool) (f : ℕ → Local)
      → SameCounts s t
      → active p ≡ true
      → active q ≡ true
      → ((c : Phase) → Flow set buffer_size s p c → Flow set buffer_size t q c)
      → f 0 ≡ inside p
      → Inv s h z f
      → Inv t h z (update f 0 (inside q))
  puts =
      puts_inside set buffer_size Sleep (λ p q s t z c e tp tq y. tt) (λ p q s t z c e tp tq y. tt)

  pub takes :
      (p q : Phase) (s t : State) (h : Option ℕ) (z : ℕ → Bool) (f : ℕ → Local)
      → SameCounts s t
      → active p ≡ true
      → active q ≡ true
      → ((c : Phase) → Flow set buffer_size s c p → Flow set buffer_size t c q)
      → f 1 ≡ inside p
      → Inv s h z f
      → Inv t h z (update f 1 (inside q))
  takes =
      takes_inside set buffer_size Sleep (λ p q s t z c e tp tq y. tt) (λ p q s t z c e tp tq y. tt)
