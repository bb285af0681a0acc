-- ===== src/SyncExamples/Lock.antt =====
-- sync-examples/lock.c, and what its calls of pthread.h do, as POSIX says.
use cs453_2025_project.Prelude.{ℕ, ◌≡◌, Bool, true, false, ◌&&◌, none, some, ◌==◌, if◌then◌else◌}
use cs453_2025_project.SyncExamples.Threads.{
  Shared, Pthread, mutex_lock, mutex_unlock, cond_wait, cond_return, cond_broadcast, Prog, ret,
  do_call, ◌>>=◌,
}

-- The answer, and the lock that it leaves.
abbrev pub lock_init : (p : Pthread) → Bool × p.Lock
lock_init p = (p.mutex_init == 0 && p.cond_init == 0, p.ready)

-- No program calls it.
abbrev pub lock_cleanup : (p : Pthread) → p.Lock → p.Lock
lock_cleanup p l = p.cond_destroy (p.mutex_destroy l)

module _ {m : Shared} {L : Type 0} where
  abbrev pub lock_acquire : Prog m L Bool
  lock_acquire = do code ← do_call mutex_lock; ret (code == 0)

  abbrev pub lock_release : Prog m L (Unit {0})
  lock_release = do _ ← do_call mutex_unlock; ret tt

  abbrev pub lock_wait : Prog m L (Unit {0})
  lock_wait = do _ ← do_call cond_wait; _ ← do_call cond_return; ret tt

  abbrev pub lock_wake_up : Prog m L (Unit {0})
  lock_wake_up = do _ ← do_call cond_broadcast; ret tt

-- What a call needs and what it changes: a mutex has one holder, who alone may unlock it or wait; a
-- sleeping thread returns from its wait after it was woken, and with the mutex.
pub record IsPosix (p : Pthread) : Type 0 where
  pub ready_free : p.holder p.ready ≡ none
  pub ready_awake : (j : ℕ) → p.asleep p.ready j ≡ false
  pub locked :
      (i code : ℕ) (l l' : p.Lock)
      → p.call mutex_lock i l ≡ some (code, l')
      → (p.holder l ≡ none) × (p.holder l' ≡ some i) × ((j : ℕ) → p.asleep l' j ≡ p.asleep l j)
  pub unlocked :
      (i code : ℕ) (l l' : p.Lock)
      → p.holder l ≡ some i
      → p.call mutex_unlock i l ≡ some (code, l')
      → (p.holder l' ≡ none) × ((j : ℕ) → p.asleep l' j ≡ p.asleep l j)
  pub slept :
      (i code : ℕ) (l l' : p.Lock)
      → p.holder l ≡ some i
      → p.call cond_wait i l ≡ some (code, l')
      → (p.holder l' ≡ none) × ((j : ℕ) → p.asleep l' j ≡ (if j == i then true else p.asleep l j))
  pub returned :
      (i code : ℕ) (l l' : p.Lock)
      → p.call cond_return i l ≡ some (code, l')
      → (p.asleep l i ≡ false)
        × (p.holder l ≡ none)
        × (p.holder l' ≡ some i)
        × ((j : ℕ) → p.asleep l' j ≡ p.asleep l j)
  pub woken :
      (i code : ℕ) (l l' : p.Lock)
      → p.call cond_broadcast i l ≡ some (code, l')
      → (p.holder l' ≡ p.holder l) × ((j : ℕ) → p.asleep l' j ≡ false)
  pub roused :
      (i : ℕ) (l : p.Lock)
      → (p.holder (p.spurious i l) ≡ p.holder l)
        × ((j : ℕ) → p.asleep (p.spurious i l) j ≡ (if j == i then false else p.asleep l j))

-- A caller waits only for a mutex that is held, or while it is asleep.
pub record IsPrompt (p : Pthread) : Type 0 where
  pub lock_free :
      (i : ℕ) (l : p.Lock) → p.holder l ≡ none → (r : ℕ × p.Lock) × (p.call mutex_lock i l ≡ some r)
  pub return_free :
      (i : ℕ) (l : p.Lock)
      → p.holder l ≡ none
      → p.asleep l i ≡ false
      → (r : ℕ × p.Lock) × (p.call cond_return i l ≡ some r)
  pub unlock_free :
      (i : ℕ) (l : p.Lock)
      → p.holder l ≡ some i
      → (r : ℕ × p.Lock) × (p.call mutex_unlock i l ≡ some r)
  pub wait_free :
      (i : ℕ) (l : p.Lock)
      → p.holder l ≡ some i
      → (r : ℕ × p.Lock) × (p.call cond_wait i l ≡ some r)
  pub wake_free : (i : ℕ) (l : p.Lock) → (r : ℕ × p.Lock) × (p.call cond_broadcast i l ≡ some r)
