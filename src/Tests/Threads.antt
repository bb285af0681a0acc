-- ===== src/Tests/Threads.antt =====
-- Interleavings of transactions (415640/tm.c), run step by step.
use cs453_2025_project.Prelude.{
  ℕ, zero, suc, ◌≡◌, ◌%◌, ◌≤◌, refl, ◌∙◌, true, false, Bool, inl, inr, arith,
}
use cs453_2025_project.Machine.{ret}
use cs453_2025_project.VersionLock.{version_of}
use cs453_2025_project.Transaction.{lock_get_from_pointer}
use cs453_2025_project.Discipline.Transactions.{
  Starts, StartsThread, transactions_exclusive, transactions_versions, transactions_released,
}
use cs453_2025_project.Tests.World.{
  Run, turns, turns-other, program, begun, one_copier, two_copiers, small_region, small_scope,
  small_laid, small_private, bump, copier-IsClient,
}

-- Thread 0 is about to write, while thread 1 has read the lock that it wants.
abbrev busy : Run two_copiers
busy = turns 17 0 (turns 14 1 (begun two_copiers))

-- The only transaction has ended.
abbrev ended : Run one_copier
ended = turns 48 0 (begun one_copier)

two_copiers-StartsThread : (i : ℕ) → StartsThread small_scope 3 (two_copiers.thread i)
two_copiers-StartsThread zero = inl (false, _, copier-IsClient 96, refl)
two_copiers-StartsThread (suc zero) = inl (false, _, copier-IsClient 104, refl)
two_copiers-StartsThread (suc (suc i)) = inr (true, ground arith)

two_copiers-Starts : Starts small_scope 3 two_copiers
two_copiers-Starts = record {
  threads = two_copiers-StartsThread;
  free = λ p lock. refl;
  behind = λ p lock. omega arith;
  even = refl;
}

one_copier-StartsThread : (i : ℕ) → StartsThread small_scope 3 (one_copier.thread i)
one_copier-StartsThread zero = inl (false, _, copier-IsClient 96, refl)
one_copier-StartsThread (suc i) = inr (true, ground arith)

one_copier-Starts : Starts small_scope 3 one_copier
one_copier-Starts = record {
  threads = one_copier-StartsThread;
  free = λ p lock. refl;
  behind = λ p lock. omega arith;
  even = refl;
}

transactions_exclusive_example :
    ◌≡◌ {A = ℕ} 0 0 × (busy.last.world.atom (lock_get_from_pointer small_region 1000) % 2 ≡ 1)
unfolding turns program
transactions_exclusive_example =
    transactions_exclusive small_scope refl small_laid 3 bump small_private two_copiers-Starts
      (omega arith) busy.reach 0 0 1000 1000 _ _ _ _ refl refl refl refl refl

transactions_versions_example :
    version_of (busy.last.world.atom 20000000) ≤ version_of (busy.last.world.atom 10000000)
unfolding turns program
transactions_versions_example =
    transactions_versions small_scope refl small_laid 3 bump small_private two_copiers-Starts
      (omega arith) busy.reach (omega arith) 20000000 refl

idle : (i : ℕ) → one_copier.thread (suc i) ≡ ret true
idle i = ground arith

still_idle : (i : ℕ) → ended.last.thread (suc i) ≡ ret true
still_idle i = turns-other 48 0 (suc i) (begun one_copier) (omega arith) ∙ idle i

all_ended : (i : ℕ) → (b : Bool) × (ended.last.thread i ≡ ret b)
unfolding turns program
all_ended zero = (true, refl)
all_ended (suc i) = (true, still_idle i)

transactions_released_example :
    ended.last.world.atom (lock_get_from_pointer small_region 1000) % 2 ≡ 0
unfolding turns program
transactions_released_example =
    transactions_released small_scope refl small_laid 3 bump small_private one_copier-Starts
      (omega arith) ended.reach all_ended (lock_get_from_pointer small_region 1000) refl
