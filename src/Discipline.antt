-- ===== src/Discipline.antt =====
-- The discipline of a thread that runs the operations of tm.c beside others: what it may do to the
-- version locks, to the global version and to shared words, given the locks that it owns.
-- `Keeps` is the condition on a program, `Quiet` the stronger one on a program that leaves the
-- protocol alone. `Discipline/Safety.antt` draws the consequences for all interleavings.
pub mod Rules
pub mod Lists
pub mod Locks
pub mod Loops
pub mod Adds
pub mod Unique
pub mod Commit
pub mod Session
pub mod Transactions
pub mod Invariant
pub mod Safety
use cs453_2025_project.Prelude.{
  ℕ, ◌+◌, ◌*◌, ◌%◌, ◌^◌, ◌≡◌, ◌≢◌, ◌≤◌, ◌<◌, ◌⊎◌, Option, some, Bool, true, false, if◌then◌else◌,
  update,
}
use cs453_2025_project.Machine.{
  Ptr, Action, atomic_load, atomic_store, compare_exchange, compare_exchange_weak, fetch_add,
  fetch_sub, clear_atoms, write_word, clear_words, malloc, memalign, Reply, Prog, ret, act, fault,
  out_of_fuel, within, int_mod,
}
use cs453_2025_project.Transaction.{Region, lock_get_from_pointer, lock_array_size, sizeof_lock}

-- A region and the addresses of its words that transactions share.
pub record Scope : Type 0 where
  pub region : Region
  pub shared : Ptr → Bool

-- The addresses of the lock array.
abbrev pub is_lock : Scope → Ptr → Bool
is_lock s p = within s.region.locks (sizeof_lock * lock_array_size) p

-- Neither a lock of the array nor the global version.
abbrev pub Elsewhere : Scope → Ptr → Type 0
Elsewhere s p = (is_lock s p ≡ false) × (p ≢ s.region.global_version)

-- What a thread knows: the locks it owns, and a value that the global version has reached.
pub record Ghost : Type 0 where
  pub own : Ptr → Bool
  pub bound : ℕ

module _ (s : Scope) where
  -- What an access needs.
  abbrev pub Allowed : Ghost → Action → Type 0
  Allowed g (atomic_store p v) =
      ((is_lock s p ≡ true) × (g.own p ≡ true) × (v % 2 ≡ 0) × (v ≤ g.bound)) ⊎ Elsewhere s p
  Allowed g (compare_exchange p e d) = (is_lock s p ≡ true) × (e % 2 ≡ 0) × (d ≡ e + 1)
  Allowed g (compare_exchange_weak p e d) = Elsewhere s p
  Allowed g (fetch_add p n) = (p ≡ s.region.global_version) × (n ≡ 2)
  Allowed g (fetch_sub p n) = ((is_lock s p ≡ true) × (g.own p ≡ true) × (n ≡ 1)) ⊎ Elsewhere s p
  Allowed g (clear_atoms p n) = ⊥
  Allowed g (write_word p v) = (s.shared p ≡ true → g.own (lock_get_from_pointer s.region p) ≡ true)
  Allowed g (clear_words p n) = (a : Ptr) → within p n a ≡ true → s.shared a ≡ false
  Allowed g _ = Unit {0}

  -- A block that the allocator gives out overlaps neither the locks nor the global version nor a
  -- shared word.
  abbrev pub Outside : ℕ → Option Ptr → Type 0
  Outside size r =
      (p a : Ptr) → r ≡ some p → within p size a ≡ true → Elsewhere s a × (s.shared a ≡ false)

  -- What holds of a reply, whatever the other threads do: the global version is even, and has not
  -- wrapped; a new block is a new one.
  abbrev pub Told : (a : Action) → Reply a → Type 0
  Told (malloc size) r = Outside size r
  Told (memalign align size) r = Outside size r
  Told (fetch_add p n) r = (r % 2 ≡ 0) × (r + 2 < int_mod)
  Told _ r = Unit {0}

  -- What the thread knows after the access.
  abbrev pub after : Ghost → (a : Action) → Reply a → Ghost
  after g (compare_exchange p e d) true = record g { own = update g.own p true }
  after g (atomic_store p v) r = if is_lock s p then record g { own = update g.own p false } else g
  after g (fetch_sub p n) r = if is_lock s p then record g { own = update g.own p false } else g
  after g (fetch_add p n) r = record g { bound = r + 2 }
  after g _ r = g

  -- Every access of the program is allowed, and its result is as `Q` says.
  abbrev pub Keeps : {A : Type 0} → (A → Ghost → Type 0) → Ghost → Prog A → Type 0
  Keeps Q g (ret a) = Q a g
  Keeps Q g (act a k) = Allowed g a × ((r : Reply a) → Told a r → Keeps Q (after g a r) (k r))
  Keeps Q g fault = Unit {0}
  Keeps Q g out_of_fuel = Unit {0}

  abbrev pub Harmless : Action → Type 0
  Harmless (atomic_store p v) = Elsewhere s p
  Harmless (compare_exchange p e d) = ⊥
  Harmless (compare_exchange_weak p e d) = Elsewhere s p
  Harmless (fetch_add p n) = ⊥
  Harmless (fetch_sub p n) = Elsewhere s p
  Harmless (clear_atoms p n) = ⊥
  Harmless (write_word p v) = s.shared p ≡ false
  Harmless (clear_words p n) = (a : Ptr) → within p n a ≡ true → s.shared a ≡ false
  Harmless _ = Unit {0}

  -- No access touches the locks, the global version or a shared word.
  abbrev pub Quiet : {A : Type 0} → Prog A → Type 0
  Quiet (ret a) = Unit {0}
  Quiet (act a k) = Harmless a × ((r : Reply a) → Quiet (k r))
  Quiet fault = Unit {0}
  Quiet out_of_fuel = Unit {0}
