-- ===== src/Machine/Threads.antt =====
-- Threads that run programs over one world. A step is one access of one thread, so a schedule is any
-- interleaving of their accesses.
use cs453_2025_project.Prelude.{ℕ, zero, suc, ◌≡◌, false, some, update}
use cs453_2025_project.Machine.{
  Ptr, World, Allocator, Action, Reply, compare_exchange_weak, perform, Prog, act,
}

-- The world, and what each thread has left to run.
pub record System (A : Type 0) : Type 0 where
  pub world : World
  pub thread : ℕ → Prog A

pub data Step {A : Type 0} (al : Allocator) (s : System A) : System A → Type 0 where
  access :
      (i : ℕ) (a : Action) (k : Reply a → Prog A) (r : Reply a) (w : World)
      → s.thread i ≡ act a k
      → perform al a s.world ≡ some (r, w)
      → Step al s (record { world = w; thread = update s.thread i (k r) })
  -- `atomic_compare_exchange_weak` may fail though the value is the expected one.
  spurious :
      (i : ℕ) (p : Ptr) (e d : ℕ) (k : Reply (compare_exchange_weak p e d) → Prog A)
      → s.thread i ≡ act (compare_exchange_weak p e d) k
      → Step al s (record { world = s.world; thread = update s.thread i (k false) })

-- `n` steps.
pub data Reach {A : Type 0} (al : Allocator) (s : System A) : ℕ → System A → Type 0 where
  start : Reach al s zero s
  later : {n : ℕ} {t u : System A} → Reach al s n t → Step al t u → Reach al s (suc n) u
