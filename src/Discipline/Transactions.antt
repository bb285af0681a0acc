-- ===== src/Discipline/Transactions.antt =====
-- Any number of threads, each of which runs a whole transaction of tm.c, in any interleaving.
use cs453_2025_project.Prelude.{
  ℕ, ◌+◌, ◌*◌, ◌%◌, ◌^◌, ◌≡◌, ◌≤◌, ◌<◌, ◌⊎◌, inl, inr, Bool, true, false, List, arith, refl, subst,
  sym,
}
use cs453_2025_project.Machine.{Ptr, Allocator, Prog, Reply, write_word, ret, act, int_mod}
use cs453_2025_project.Machine.Threads.{System, Reach}
use cs453_2025_project.VersionLock.{version_of}
use cs453_2025_project.Transaction.{lock_get_from_pointer}
use cs453_2025_project.Discipline.{Scope, Ghost, is_lock, Keeps}
use cs453_2025_project.Discipline.Commit.{NoneOwned, IsLaidOut}
use cs453_2025_project.Discipline.Session.{Request, IsClient, session, session-Keeps}
use cs453_2025_project.Discipline.Safety.{
  Disciplined, IsPrivate, exclusive_write, all_released, versions_in_order,
}

-- A thread before its transaction, or one that has none.
abbrev pub StartsThread : Scope → ℕ → Prog Bool → Type 0
StartsThread s rounds m =
    ((is_ro : Bool) × (requests : List Request) × IsClient s requests
      × (m ≡ session rounds s.region is_ro requests))
    ⊎ ((b : Bool) × (m ≡ ret b))

-- No transaction has begun, all locks are free, and the global version is even and not behind a lock.
pub record Starts (s : Scope) (rounds : ℕ) (t : System Bool) : Type 0 where
  pub threads : (i : ℕ) → StartsThread s rounds (t.thread i)
  pub free : (p : Ptr) → is_lock s p ≡ true → t.world.atom p % 2 ≡ 0
  pub behind :
      (p : Ptr) → is_lock s p ≡ true → t.world.atom p ≤ t.world.atom s.region.global_version
  pub even : t.world.atom s.region.global_version % 2 ≡ 0

module _ (s : Scope) (laid : IsLaidOut s) (rounds : ℕ) where
  abbrev ignorant : Ghost
  ignorant = record { own = λ p. false; bound = 0 }

  thread-Keeps : (m : Prog Bool) → StartsThread s rounds m → Keeps s NoneOwned ignorant m
  thread-Keeps m (inl (is_ro, requests, client, e)) =
      subst (Keeps s NoneOwned ignorant) (sym e)
        (session-Keeps s laid rounds is_ro requests ignorant client (λ p. refl))
  thread-Keeps m (inr (b, e)) = subst (Keeps s NoneOwned ignorant) (sym e) (λ p. refl)

  Starts-Disciplined : (t : System Bool) → Starts s rounds t → Disciplined s NoneOwned t
  Starts-Disciplined t starts = record {
    ghost = λ i. ignorant;
    runs = λ i. thread-Keeps (t.thread i) (starts.threads i);
    protocol = record {
      alone = λ i j p oi oj. cc;
      held = λ i p o. cc;
      known = λ i. omega arith;
      even = starts.even;
      owner = λ p lock odd. absurd (omega (arith, starts.free p lock));
      behind = λ p lock. omega (arith, starts.behind p lock);
    };
  }

-- The assumptions of the theorems: a region laid out as `tm_create` does it, an allocator whose
-- blocks overlap no live object, a start, and too few steps for the global version to wrap.
module _ (s : Scope) (apart : is_lock s s.region.global_version ≡ false) (laid : IsLaidOut s)
    (rounds : ℕ) (al : Allocator) (priv : IsPrivate s apart al) {n : ℕ} {t u : System Bool}
    (starts : Starts s rounds t) (small : t.world.atom s.region.global_version + 2 * n < int_mod)
    (reach : Reach al t n u) where
  -- In a state that threads reach by at most `n` accesses, in any interleaving, where each runs a whole
  -- transaction from `tm_begin` to `tm_end` (or nothing), reading into private memory: if threads
  -- `i` and `j` are each about to write a shared word and the two words have the same lock, then `i`
  -- and `j` are the same thread, and that lock is taken.
  pub transactions_exclusive :
      (i j a b v x : ℕ) (k : Reply (write_word a v) → Prog Bool)
      (l : Reply (write_word b x) → Prog Bool)
      → u.thread i ≡ act (write_word a v) k
      → u.thread j ≡ act (write_word b x) l
      → s.shared a ≡ true
      → s.shared b ≡ true
      → lock_get_from_pointer s.region a ≡ lock_get_from_pointer s.region b
      → (i ≡ j) × (u.world.atom (lock_get_from_pointer s.region a) % 2 ≡ 1)
  transactions_exclusive =
      exclusive_write s apart NoneOwned al priv (Starts-Disciplined s laid rounds t starts) small
        reach

  -- In every state that the threads reach so, if the steps are also too few for the global version to
  -- reach 2 ^ 31, no lock of the array carries a version above the global version in the order in
  -- which the code compares them, as signed numbers, whether the lock is taken or free.
  pub transactions_versions :
      t.world.atom s.region.global_version + 2 * n < 2 ^ 31
      → (p : ℕ) → is_lock s p ≡ true
      → version_of (u.world.atom p) ≤ version_of (u.world.atom s.region.global_version)
  transactions_versions =
      versions_in_order s apart NoneOwned al priv (Starts-Disciplined s laid rounds t starts) small
        reach

  -- Where all threads have returned from their transactions, with whatever result, every lock of the
  -- array is free.
  pub transactions_released :
      ((i : ℕ) → (b : Bool) × (u.thread i ≡ ret b))
      → (p : ℕ) → is_lock s p ≡ true
      → u.world.atom p % 2 ≡ 0
  transactions_released =
      all_released s apart NoneOwned al priv (Starts-Disciplined s laid rounds t starts) small reach
        (λ b g none p. none p)
